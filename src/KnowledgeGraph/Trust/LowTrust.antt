-- ===== src/KnowledgeGraph/Trust/LowTrust.antt =====
-- What a domain of low trust takes to be ingested.
use ai_chatbot_platform.Prelude.{
  ℕ, ◌*◌, max, Bool, ◌&&◌, ◌||◌, List, String, ltb, leb, str_eq, length,
}
use Prim.Native.String
use ai_chatbot_platform.KnowledgeGraph.Trust.{Documents, SourceTrustEvaluator, unique_words}

-- The weights and the threshold that `__init__` defaults to.
abbrev pub default_evaluator : List String → SourceTrustEvaluator
default_evaluator domains = record {
  trust_threshold = 50;
  source_weight = 40;
  quality_weight = 60;
  trusted_domains = domains;
}

-- A long text in sentences, with few special characters and little repetition.
abbrev pub thorough : ℕ → ℕ → ℕ → ℕ → ℕ → ℕ → Bool
thorough words sentences specials characters lowered unique =
    ltb 500 words
    && (leb 3 sentences
        && (leb (10 * specials) (3 * max characters 1)
            && (leb lowered 10 || leb (3 * lowered) (10 * unique))))

abbrev pub is_thorough : Documents → String → Bool
is_thorough d content =
    let text = d.strip content in
    let lowered = d.split (d.lower text) in
    thorough (length (d.split text)) (d.sentences text) (d.specials text) (String.count text)
      (length lowered) (unique_words lowered)

abbrev pub is_empty : Documents → String → Bool
is_empty d content = str_eq content "" || str_eq (d.strip content) ""
