-- ===== src/Llm/FallbackProvider/Breaker.antt =====
-- The breaker of one provider.
use ai_chatbot_platform.Prelude.{◌≡◌, refl, ◌⊎◌, ◌↔◌, ℕ, ◌+◌, ◌<◌, ◌≤◌, true, false, arith}
use ai_chatbot_platform.Llm.FallbackProvider.{
  closed, opened, ProviderBreaker, new_breaker, is_available, provider_success, provider_failure,
}

-- The uses of a breaker, in any order.
pub data Use : ProviderBreaker → ProviderBreaker → Type 0 where
  asks : {b : ProviderBreaker} (now : ℕ) → Use b (is_available now b).0
  succeeds : {b : ProviderBreaker} → Use b (provider_success b)
  fails : {b : ProviderBreaker} (now : ℕ) → Use b (provider_failure now b)

pub data Uses : ProviderBreaker → ProviderBreaker → Type 0 where
  unused : {b : ProviderBreaker} → Uses b b
  used : {b c d : ProviderBreaker} → Uses b c → Use c d → Uses b d

record IsCounted (threshold timeout : ℕ) (b : ProviderBreaker) : Type 0 where
  threshold_kept : b.failure_threshold ≡ threshold
  timeout_kept : b.recovery_timeout ≡ timeout
  counted : (b.state ≡ closed) ↔ (b.failure_count < threshold)

Use-IsCounted :
    (m t : ℕ) {b c : ProviderBreaker} → 0 < m → IsCounted m t b → Use b c → IsCounted m t c
unfolding is_available provider_success provider_failure
Use-IsCounted m t pos k (asks now) = record {
  threshold_kept = ground arith;
  timeout_kept = ground arith;
  counted = ground arith;
}
Use-IsCounted m t pos k succeeds = record {
  threshold_kept = ground arith;
  timeout_kept = ground arith;
  counted = ground arith;
}
Use-IsCounted m t pos k (fails now) = record {
  threshold_kept = ground arith;
  timeout_kept = ground arith;
  counted = ground arith;
}

Uses-IsCounted :
    (m t : ℕ) {b c : ProviderBreaker} → 0 < m → IsCounted m t b → Uses b c → IsCounted m t c
Uses-IsCounted m t pos k unused = k
Uses-IsCounted m t pos k (used us u) = Use-IsCounted m t pos (Uses-IsCounted m t pos k us) u

-- However a new breaker with a positive threshold was used, a failure makes its provider unavailable
-- exactly if the failures since the last success then reach the threshold, and exactly as long as the
-- recovery timeout has not run out; outside CLOSED a single failure opens it again; and a success makes
-- the provider available.
pub Uses-next :
    (m t past now : ℕ) {b : ProviderBreaker}
    → 0 < m
    → Uses (new_breaker m t) b
    → (((is_available now (provider_failure past b)).1 ≡ false)
        ↔ ((m ≤ b.failure_count + 1) × (now ≤ past + t)))
      × ((b.state ≡ closed) ⊎ ((provider_failure past b).state ≡ opened))
      × ((is_available now (provider_success b)).1 ≡ true)
unfolding is_available provider_success provider_failure new_breaker
Uses-next m t past now pos us =
    let k : IsCounted m t _ =
      Uses-IsCounted m t pos
        (record { threshold_kept = refl; timeout_kept = refl; counted = ground arith }) us in
    (ground (arith, k.counted), ground (arith, k.counted), ground arith)
