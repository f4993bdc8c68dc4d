-- ===== src/Prelude/Lists.antt =====
-- Lists measured by native numbers, counted by a Boolean test, and the bounded `deque`.
use Prim.Native.Nat.{ℕ, zero, suc, ◌+◌, ◌-◌, ◌≤◌, ◌<◌, min}
use mathlib.Core.Path.{◌≡◌, refl, sym, ap, subst, ◌∙◌}
use mathlib.Core.Logic.{◌⊎◌, inl, inr}
use mathlib.Core.Bool.{Bool, true}
use mathlib.Core.List.{List, [], ◌∷◌, ◌++◌}
use native.Mathlib.Omega.{arith}
use ai_chatbot_platform.Prelude.Tests.{if◌then◌else◌}

module _ {ℓ} {A : Type ℓ} where
  abbrev pub length : List A → ℕ
  length [] = 0
  length (x ∷ xs) = suc (length xs)

  abbrev pub take : ℕ → List A → List A
  take zero xs = []
  take (suc n) [] = []
  take (suc n) (x ∷ xs) = x ∷ take n xs

  abbrev pub drop : ℕ → List A → List A
  drop zero xs = xs
  drop (suc n) [] = []
  drop (suc n) (x ∷ xs) = drop n xs

  pub length-append : (xs ys : List A) → length (xs ++ ys) ≡ length xs + length ys
  length-append [] ys = omega arith
  length-append (x ∷ xs) ys = omega (arith, length-append xs ys)

  pub length-drop : (n : ℕ) (xs : List A) → length (drop n xs) ≡ length xs - n
  length-drop zero xs = omega arith
  length-drop (suc n) [] = omega arith
  length-drop (suc n) (x ∷ xs) = omega (arith, length-drop n xs)

  pub length-take : (n : ℕ) (xs : List A) → length (take n xs) ≡ min n (length xs)
  length-take zero xs = omega arith
  length-take (suc n) [] = omega arith
  length-take (suc n) (x ∷ xs) = omega (arith, length-take n xs)

  pub drop-nil : (n : ℕ) → drop n [] ≡ []
  drop-nil zero = refl
  drop-nil (suc n) = refl

  pub drop-drop : (m n : ℕ) (xs : List A) → drop m (drop n xs) ≡ drop (n + m) xs
  drop-drop m zero xs = ap (λ k. drop k xs) (omega arith)
  drop-drop m (suc n) [] = drop-nil m ∙ sym (drop-nil (suc n + m))
  drop-drop m (suc n) (x ∷ xs) =
      drop-drop m n xs ∙ ap (λ k. drop k (x ∷ xs)) {x = suc (n + m)} (omega arith)

  pub drop-append_of_le :
      (n : ℕ) (xs ys : List A) → n ≤ length xs → drop n (xs ++ ys) ≡ drop n xs ++ ys
  drop-append_of_le zero xs ys h = refl
  drop-append_of_le (suc n) [] ys h = absurd (omega arith)
  drop-append_of_le (suc n) (x ∷ xs) ys h = drop-append_of_le n xs ys (omega arith)

  pub take-append_of_le : (n : ℕ) (xs ys : List A) → n ≤ length xs → take n (xs ++ ys) ≡ take n xs
  take-append_of_le zero xs ys h = refl
  take-append_of_le (suc n) [] ys h = absurd (omega arith)
  take-append_of_le (suc n) (x ∷ xs) ys h =
      ap (λ l. x ∷ l) (take-append_of_le n xs ys (omega arith))

  pub take-append_add : (n : ℕ) (xs ys : List A) → take (length xs + n) (xs ++ ys) ≡ xs ++ take n ys
  take-append_add n [] ys = ap (λ k. take k ys) (omega arith)
  take-append_add n (x ∷ xs) ys =
      ap (λ k. take k (x ∷ xs ++ ys)) {y = suc (length xs + n)} (omega arith)
      ∙ ap (λ l. x ∷ l) (take-append_add n xs ys)

  pub take-append_length : (xs ys : List A) → take (length xs) (xs ++ ys) ≡ xs
  take-append_length [] ys = refl
  take-append_length (x ∷ xs) ys = ap (λ l. x ∷ l) (take-append_length xs ys)

  pub drop-append_length : (xs ys : List A) → drop (length xs) (xs ++ ys) ≡ ys
  drop-append_length [] ys = refl
  drop-append_length (x ∷ xs) ys = drop-append_length xs ys

  pub take-nil : (n : ℕ) → take n [] ≡ []
  take-nil zero = refl
  take-nil (suc n) = refl

  -- `sum(1 for x in xs if p(x))`
  abbrev pub count : (A → Bool) → List A → ℕ
  count p [] = 0
  count p (x ∷ xs) = (if p x then 1 else 0) + count p xs

  pub count-le-length : (p : A → Bool) (xs : List A) → count p xs ≤ length xs
  count-le-length p [] = omega arith
  count-le-length p (x ∷ xs) = ground (arith, count-le-length p xs)

  -- The last `n` elements.
  abbrev pub last_n : ℕ → List A → List A
  last_n n xs = drop (length xs - n) xs

  -- `append` on a `collections.deque` of the given `maxlen`: the oldest elements fall out.
  unfoldable pub append_bounded : ℕ → List A → A → List A
  append_bounded maxlen xs x = last_n maxlen (xs ++ x ∷ [])

  -- A bounded deque that holds the last elements of a longer list goes on doing so.
  pub append_bounded-last_n :
      (n : ℕ) (xs : List A) (x : A) → append_bounded n (last_n n xs) x ≡ last_n n (xs ++ x ∷ [])
  unfolding append_bounded
  append_bounded-last_n n xs x =
      let k = length xs - n in
      let ys = xs ++ x ∷ [] in
      rw (← drop-append_of_le k xs (x ∷ []) (omega arith)) (
        drop-drop _ k ys
        ∙ ap (λ m. drop m ys) (omega (arith, length-drop k ys, length-append xs (x ∷ []))))

  pub length-append_bounded-le : (n : ℕ) (xs : List A) (x : A) → length (append_bounded n xs x) ≤ n
  unfolding append_bounded
  length-append_bounded-le n xs x =
      omega (arith, length-drop (length (xs ++ x ∷ []) - n) (xs ++ x ∷ []))

  pub append_bounded_of_lt :
      (n : ℕ) (xs : List A) (x : A) → length xs < n → append_bounded n xs x ≡ xs ++ x ∷ []
  unfolding append_bounded
  append_bounded_of_lt n xs x h =
      ap (λ k. drop k (xs ++ x ∷ [])) {y = 0} (omega (arith, length-append xs (x ∷ [])))

module _ {ℓ κ} {A : Type ℓ} (P : A → Type κ) where
  abbrev pub All : List A → Type κ
  All [] = Unit
  All (x ∷ xs) = P x × All xs

  pub All-append : (xs ys : List A) → All xs → All ys → All (xs ++ ys)
  All-append [] ys h k = k
  All-append (x ∷ xs) ys h k = (h.0, All-append xs ys h.1 k)

module _ {ℓ} {A : Type ℓ} where
  pub count-All : (p : A → Bool) (xs : List A) → All (λ x. p x ≡ true) xs → count p xs ≡ length xs
  count-All p [] h = refl
  count-All p (x ∷ xs) h = rw h.0 (omega (arith, count-All p xs h.1))

module _ {ℓ κ ι} {A : Type ℓ} {P : A → Type κ} {Q : A → Type ι} where
  pub All-map : (f : (x : A) → P x → Q x) (xs : List A) → All P xs → All Q xs
  All-map f [] h = tt
  All-map f (x ∷ xs) h = (f x h.0, All-map f xs h.1)

module _ {ℓ κ} {A : Type ℓ} (P : A → Type κ) where
  pub All-take : (n : ℕ) (xs : List A) → All P xs → All P (take n xs)
  All-take zero xs h = tt
  All-take (suc n) [] h = tt
  All-take (suc n) (x ∷ xs) h = (h.0, All-take n xs h.1)

-- `x` is an element.
abbrev pub In : {A : Type 0} → A → List A → Type 0
In x [] = ⊥
In x (y ∷ ys) = (x ≡ y) ⊎ In x ys

pub All-In_from :
    {A : Type 0} (xs ys : List A) → ((x : A) → In x xs → In x ys) → All (λ x. In x ys) xs
All-In_from [] ys h = tt
All-In_from (x ∷ xs) ys h = (h x (inl refl), All-In_from xs ys (λ y m. h y (inr m)))

pub All-In : {A : Type 0} (xs : List A) → All (λ x. In x xs) xs
All-In xs = All-In_from xs xs (λ x m. m)

pub All-elem : {A : Type 0} (P : A → Type 0) (x : A) (xs : List A) → All P xs → In x xs → P x
All-elem P x [] h m = absurd m
All-elem P x (y ∷ xs) h (inl e) = subst P (sym e) h.0
All-elem P x (y ∷ xs) h (inr m) = All-elem P x xs h.1 m
