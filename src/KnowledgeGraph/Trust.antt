-- ===== src/KnowledgeGraph/Trust.antt =====
-- app/knowledge_graph/trust.py: whether a document is trusted before it is ingested.
--
-- A score and a weight are hundredths, and the overall score ten-thousandths, which is exact where the
-- source rounds. `Documents` holds what the standard library makes of a URL and a text, and what the
-- regular expressions find.
mod Gate
mod LowTrust
mod Tests
use Prim.Native.String
use ai_chatbot_platform.Prelude.{
  ℕ, suc, ◌+◌, ◌-◌, ◌*◌, min, max, Bool, true, false, not, ◌&&◌, ◌||◌, Option, none, some, List, [],
  ◌∷◌, ◌++◌, String, ltb, leb, ◌==◌, str_eq, length, if◌then◌else◌,
}

pub data VerificationStatus : Type 0 where
  unverified verified rejected : VerificationStatus

pub data Reason : Type 0 where
  no_domain source_error empty_content no_sentences : Reason
  low_trust_domain : String → Reason
  too_short below_threshold : ℕ → Reason
  special_characters : ℕ → ℕ → Reason
  repetition : ℕ → ℕ → Reason

pub record TrustResult : Type 0 where
  pub url : String
  pub source_score : ℕ
  pub content_quality_score : ℕ
  pub verification_status : VerificationStatus
  pub overall_score : ℕ
  pub rejection_reasons : List Reason

pub record Documents : Type 0 where
  -- the place and the scheme of a URL; `none` is a `ValueError`
  pub urlparse : String → Option (String × String)
  pub lower : String → String
  pub strip : String → String
  pub split : String → List String
  -- whether one of `LOW_TRUST_PATTERNS` is found
  pub low_trust : String → Bool
  -- how often `[.!?]+`, and the characters that are special, are found
  pub sentences : String → ℕ
  pub specials : String → ℕ

pub record SourceTrustEvaluator : Type 0 where
  pub trust_threshold : ℕ
  pub source_weight : ℕ
  pub quality_weight : ℕ
  pub trusted_domains : List String

abbrev pub ends_with : String → String → Bool
ends_with suffix s =
    leb (String.len suffix) (String.len s)
    && str_eq (String.slice s (String.len s - String.len suffix) (String.len s)) suffix

unfoldable pub is_trusted_domain : List String → String → Bool
is_trusted_domain [] domain = false
is_trusted_domain (trusted ∷ rest) domain =
    (str_eq domain trusted || ends_with (String.◌++◌ "." trusted) domain)
    || is_trusted_domain rest domain

abbrev pub known_ending : String → Bool
known_ending domain = ends_with ".edu" domain || ends_with ".gov" domain || ends_with ".org" domain

-- `len(set(words))`
abbrev pub is_among : List String → String → Bool
is_among [] w = false
is_among (v ∷ vs) w = str_eq v w || is_among vs w

unfoldable pub unique_words : List String → ℕ
unique_words [] = 0
unique_words (w ∷ ws) = (if is_among ws w then 0 else 1) + unique_words ws

-- What a check adds to the score of a text, what it takes from it, and why.
pub record Points : Type 0 where
  pub ups : ℕ
  pub downs : ℕ
  pub reasons : List Reason

abbrev pub plus : Points → Points → Points
plus p q = record {
  ups = p.ups + q.ups;
  downs = p.downs + q.downs;
  reasons = p.reasons ++ q.reasons;
}

abbrev pub fair : Points
fair = record { ups = 0; downs = 0; reasons = [] }

abbrev pub better : ℕ → Points
better n = record { ups = n; downs = 0; reasons = [] }

abbrev pub worse : ℕ → Reason → Points
worse n r = record { ups = 0; downs = n; reasons = r ∷ [] }

unfoldable pub length_points : ℕ → Points
length_points words =
    if ltb words 20
    then worse 30 (too_short words)
    else if ltb 500 words
    then better 20
    else if ltb 100 words
    then better 10
    else fair

unfoldable pub sentence_points : ℕ → ℕ → Points
sentence_points words sentences =
    if (sentences == 0) && ltb 20 words
    then worse 20 no_sentences
    else if leb 3 sentences
    then better 10
    else fair

-- `specials / max(len(text), 1) > 0.3`
unfoldable pub special_points : ℕ → ℕ → Points
special_points specials characters =
    if ltb (3 * max characters 1) (10 * specials)
    then worse 30 (special_characters specials characters)
    else fair

-- `unique / words < 0.3`
unfoldable pub repetition_points : ℕ → ℕ → Points
repetition_points words unique =
    if ltb 10 words && ltb (10 * unique) (3 * words)
    then worse 30 (repetition unique words)
    else fair

-- `max(0.0, min(1.0, score))`
abbrev pub quality_of : Points → ℕ × List Reason
quality_of p = (min 100 (50 + p.ups - p.downs), p.reasons)

unfoldable pub text_points : ℕ → ℕ → ℕ → ℕ → ℕ → ℕ → Points
unfolding length_points sentence_points special_points repetition_points
text_points words sentences specials characters lowered unique = plus (length_points words) (
    plus (sentence_points words sentences)
      (plus (special_points specials characters) (repetition_points lowered unique)))

module _ (d : Documents) where
  -- The score of a domain that is there, and the reasons.
  unfoldable pub score_domain : SourceTrustEvaluator → String → String → ℕ × List Reason
  unfolding is_trusted_domain
  score_domain e domain scheme =
      let bonus = if str_eq scheme "https" then 10 else 0 in
      if is_trusted_domain e.trusted_domains domain
      then (100, [])
      else if d.low_trust domain
      then (10, low_trust_domain domain ∷ [])
      else if known_ending domain
      then (80 + bonus, [])
      else (50 + bonus, [])

  unfoldable pub evaluate_source : SourceTrustEvaluator → String → ℕ × List Reason
  unfolding score_domain
  evaluate_source e url = elim (d.urlparse url) [
    | none ↦ (30, source_error ∷ [])
    | some (netloc, scheme) ↦
        if str_eq (d.lower netloc) ""
        then (20, no_domain ∷ [])
        else score_domain e (d.lower netloc) scheme
  ]

  unfoldable pub evaluate_content_quality : String → ℕ × List Reason
  unfolding text_points unique_words
  evaluate_content_quality content =
      let text = d.strip content in
      let words = length (d.split text) in
      let lowered = d.split (d.lower text) in
      if str_eq content "" || str_eq text ""
      then (0, empty_content ∷ [])
      else quality_of (
          text_points words (d.sentences text) (d.specials text) (String.count text)
            (length lowered) (unique_words lowered))

-- The status of an overall score, and the reason that is added where there is none.
unfoldable pub status_of : ℕ → ℕ → List Reason → VerificationStatus × List Reason
status_of threshold overall [] =
    if leb (threshold * 100) overall
    then (verified, [])
    else (rejected, below_threshold overall ∷ [])
status_of threshold overall (r ∷ rs) =
    if leb (threshold * 100) overall then (unverified, r ∷ rs) else (rejected, r ∷ rs)

abbrev pub result_of :
    SourceTrustEvaluator → String → ℕ × List Reason → ℕ × List Reason → TrustResult
result_of e url source quality =
    let overall = source.0 * e.source_weight + quality.0 * e.quality_weight in
    let status = status_of e.trust_threshold overall (source.1 ++ quality.1) in
    record {
      url = url;
      source_score = source.0;
      content_quality_score = quality.0;
      verification_status = status.0;
      overall_score = overall;
      rejection_reasons = status.1;
    }

unfoldable pub evaluate : Documents → SourceTrustEvaluator → String → String → TrustResult
unfolding status_of
evaluate d e url content =
    result_of e url (evaluate_source d e url) (evaluate_content_quality d content)

abbrev pub is_rejected : VerificationStatus → Bool
is_rejected unverified = false
is_rejected verified = false
is_rejected rejected = true

abbrev pub is_trusted : TrustResult → Bool
is_trusted r = not (is_rejected r.verification_status)

abbrev pub should_ingest : SourceTrustEvaluator → TrustResult → Bool
should_ingest e r = is_trusted r && leb (e.trust_threshold * 100) r.overall_score
