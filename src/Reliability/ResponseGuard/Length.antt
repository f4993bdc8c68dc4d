-- ===== src/Reliability/ResponseGuard/Length.antt =====
-- How much of a response that is too long is kept.
use ai_chatbot_platform.Prelude.{
  ◌≡◌, refl, ap, ◌∙◌, ℕ, zero, suc, ◌+◌, ◌*◌, ◌≤◌, ◌<◌, inl, inr, some, [], ◌∷◌, ◌++◌, arith, ltb,
  length, take, Bool-cases, Option-cases, ltb→lt, ◌⊎◌, length-take, length-append,
}
use ai_chatbot_platform.Reliability.FailureTracker.{Text}
use ai_chatbot_platform.Reliability.ResponseGuard.{
  ValidationResult, ResponseValidator, notice, rfind_period, shortened, check_length,
}

take-take : (n m : ℕ) (xs : Text) → n ≤ m → take n (take m xs) ≡ take n xs
take-take zero m xs h = refl
take-take (suc n) zero xs h = absurd (omega (arith, h))
take-take (suc n) (suc m) [] h = refl
take-take (suc n) (suc m) (x ∷ xs) h = ap (λ ys. x ∷ ys) (take-take n m xs (omega (arith, h)))

rfind_period-lt : (xs : Text) (k : ℕ) → rfind_period xs ≡ some k → k < length xs
rfind_period-lt [] k h = absurd (ground (arith, h))
rfind_period-lt (c ∷ cs) k h = elim (Option-cases (rfind_period cs)) [
  | inl never ↦ ground (arith, never, h)
  | inr (j, found) ↦ ground (arith, found, h, rfind_period-lt cs j found)
]

-- The number of code points that stay.
kept :
    (limit : ℕ) (response : Text)
    → (k : ℕ) × (shortened limit response ≡ take k response) × (k ≤ limit) × (limit * 8 ≤ k * 10)
kept limit response = elim (Option-cases (rfind_period (take limit response))) [
  | inl never ↦ rw never (limit, refl, omega arith, omega arith)
  | inr (j, found) ↦
      let n = length-take limit response in
      let le = rfind_period-lt (take limit response) j found in
      elim (Bool-cases (ltb (limit * 8) (j * 10))) [
        | inl yes' ↦
            rw (found, yes')
              (
                j + 1,
                take-take (j + 1) limit response (omega (arith, n, le)),
                omega (arith, n, le),
                ground (arith, yes'),
              )
        | inr no' ↦ rw (found, no') (limit, refl, omega arith, omega arith)
      ]
]

-- A response that is not longer than the limit stays as it is. Of a longer one the first `k` code points
-- stay, at most as many as the limit and at least four fifths of it, and the notice of 43 code points
-- follows; so the text can be longer than the limit, by 43 at most.
pub check_length_bounds :
    (v : ResponseValidator) (response : Text) (r : ValidationResult)
    → ((length response ≤ v.max_response_length) × ((check_length v response r).0 ≡ response))
      ⊎ ((v.max_response_length < length response)
          × ((k : ℕ) × ((check_length v response r).0 ≡ take k response ++ notice)
              × (k ≤ v.max_response_length)
              × (v.max_response_length * 8 ≤ k * 10)
              × (length (check_length v response r).0 ≡ k + 43)))
unfolding check_length
check_length_bounds v response r = elim (Bool-cases (ltb v.max_response_length (length response))) [
  | inr no' ↦ inl (ground (arith, no'), rw (no', check_length) refl)
  | inl yes' ↦
      let (k, same, le, ge) = kept v.max_response_length response in
      let n = length-take k response in
      let long = ltb→lt v.max_response_length (length response) yes' in
      inr (
        long,
        (
          k,
          rw (yes', check_length) (ap (λ text. text ++ notice) same),
          le,
          ge,
          rw (yes', check_length)
              (ap (λ text. length (text ++ notice)) same
                ∙ omega (arith, length-append (take k response) notice, n, le, long)),
        ),
      )
]
