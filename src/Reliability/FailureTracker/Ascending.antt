-- ===== src/Reliability/FailureTracker/Ascending.antt =====
-- Lists whose time stamps ascend, and what a sliding window counts in their last elements.
use ai_chatbot_platform.Prelude.{
  ℕ, zero, suc, ◌+◌, ◌-◌, ◌≤◌, min, ◌≡◌, refl, List, [], ◌∷◌, ◌++◌, arith, le→leb, length, drop,
  last_n, count, count-le-length,
}
use ai_chatbot_platform.Reliability.FailureTracker.{in_window}

module _ {ℓ} {A : Type ℓ} (stamp : A → ℕ) where
  -- The stamps ascend from `lo` to `hi`.
  abbrev pub Ascending : ℕ → List A → ℕ → Type 0
  Ascending lo [] hi = lo ≤ hi
  Ascending lo (x ∷ xs) hi = (lo ≤ stamp x) × Ascending (stamp x) xs hi

  pub Ascending-later :
      (lo hi hi' : ℕ) (xs : List A) → hi ≤ hi' → Ascending lo xs hi → Ascending lo xs hi'
  Ascending-later lo hi hi' [] h k = omega arith
  Ascending-later lo hi hi' (x ∷ xs) h k = (k.0, Ascending-later (stamp x) hi hi' xs h k.1)

  pub Ascending-append :
      (lo hi : ℕ) (xs : List A) (x : A)
      → hi ≤ stamp x
      → Ascending lo xs hi
      → Ascending lo (xs ++ x ∷ []) (stamp x)
  Ascending-append lo hi [] x h k = (omega arith, omega arith)
  Ascending-append lo hi (y ∷ xs) x h k = (k.0, Ascending-append (stamp y) hi xs x h k.1)

  module _ (window now : ℕ) where
    count_all :
        (lo hi : ℕ) (xs : List A)
        → now ≤ lo + window
        → Ascending lo xs hi
        → count (λ x. in_window window now (stamp x)) xs ≡ length xs
    count_all lo hi [] h k = refl
    count_all lo hi (x ∷ xs) h k =
        rw (le→leb now (stamp x + window) (omega arith))
          (omega (arith, count_all (stamp x) hi xs (omega arith) k.1))

    count-drop :
        (lo hi k : ℕ) (xs : List A)
        → Ascending lo xs hi
        → count (λ x. in_window window now (stamp x)) (drop k xs)
          ≡ min (length xs - k) (count (λ x. in_window window now (stamp x)) xs)
    count-drop lo hi zero xs a =
        omega (arith, count-le-length (λ x. in_window window now (stamp x)) xs)
    count-drop lo hi (suc k) [] a = omega arith
    count-drop lo hi (suc k) (x ∷ xs) a = ground (
      arith,
      count-drop (stamp x) hi k xs a.1,
      count_all (stamp x) hi xs,
      count-le-length (λ y. in_window window now (stamp y)) xs,
    )

    -- The window covers a run of newest entries, so keeping the last `m` loses only what exceeds `m`.
    pub count-last_n :
        (lo hi m : ℕ) (xs : List A)
        → Ascending lo xs hi
        → count (λ x. in_window window now (stamp x)) (last_n m xs)
          ≡ min m (count (λ x. in_window window now (stamp x)) xs)
    count-last_n lo hi m xs a = omega (
      arith,
      count-drop lo hi (length xs - m) xs a,
      count-le-length (λ x. in_window window now (stamp x)) xs,
    )
