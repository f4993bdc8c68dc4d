-- ===== src/KnowledgeGraph/Trust/Gate.antt =====
-- The gate before the ingestion.
use ai_chatbot_platform.Prelude.{
  ◌≡◌, refl, ◌↔◌, inl, inr, not, ◌&&◌, ℕ, ◌*◌, ◌<◌, List, [], ◌∷◌, String, arith, leb, Bool-cases,
}
use ai_chatbot_platform.KnowledgeGraph.Trust.{
  VerificationStatus, verified, rejected, Reason, TrustResult, Documents, SourceTrustEvaluator,
  status_of, evaluate, is_rejected, is_trusted, should_ingest,
}

-- What the result of a document with an overall score says.
abbrev Gated : SourceTrustEvaluator → TrustResult → Type 0
Gated e r =
    (should_ingest e r ≡ is_trusted r)
    × ((r.verification_status ≡ rejected) ↔ (r.overall_score < e.trust_threshold * 100))
    × ((r.verification_status ≡ verified) ↔ (r.rejection_reasons ≡ []))

-- A status of a score, with its reasons.
abbrev Judged : ℕ → ℕ → VerificationStatus × List Reason → Type 0
Judged threshold overall (status, reasons) =
    ((not (is_rejected status) && leb (threshold * 100) overall) ≡ not (is_rejected status))
    × ((status ≡ rejected) ↔ (overall < threshold * 100))
    × ((status ≡ verified) ↔ (reasons ≡ []))

status_of-Judged :
    (threshold overall : ℕ) (reasons : List Reason)
    → Judged threshold overall (status_of threshold overall reasons)
unfolding status_of
status_of-Judged threshold overall [] = elim (Bool-cases (leb (threshold * 100) overall)) [
  | inl high ↦ rw high (refl, ((λ e. cc), λ h. absurd (ground arith)), ((λ e. refl), λ e. refl))
  | inr low ↦ rw low (refl, ((λ e. ground arith), λ h. refl), ((λ e. cc), λ e. cc))
]
status_of-Judged threshold overall (r ∷ rs) = elim (Bool-cases (leb (threshold * 100) overall)) [
  | inl high ↦ rw high (refl, ((λ e. cc), λ h. absurd (ground arith)), ((λ e. cc), λ e. cc))
  | inr low ↦ rw low (refl, ((λ e. ground arith), λ h. refl), ((λ e. cc), λ e. cc))
]

-- Of every document: the two gates, `should_ingest` and `is_trusted`, decide the same; it is rejected
-- exactly if its overall score lies below the threshold; and it is verified exactly if no reason
-- against it is noted, so that each rejection has a reason.
evaluate-Gated :
    (d : Documents) (e : SourceTrustEvaluator) (url content : String)
    → Gated e (evaluate d e url content)
unfolding evaluate
evaluate-Gated d e url content = status_of-Judged e.trust_threshold _ _
