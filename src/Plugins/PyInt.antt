-- ===== src/Plugins/PyInt.antt =====
-- Python's texts of whole numbers, on bytes: `str(n)`, `bytes.strip` and `int(b)`, as the protocol of the
-- plugins uses them.
use ai_chatbot_platform.Prelude.{
  ◌≡◌, refl, ap, ◌∙◌, ℕ, zero, suc, ◌+◌, ◌-◌, ◌*◌, ◌/◌, ◌<◌, Bool, true, false, ◌&&◌, ◌||◌, Option,
  none, some, List, [], ◌∷◌, ◌++◌, arith, ltb, leb, ◌==◌, if◌then◌else◌, All, Bool-cases, inl, inr,
}
use Prim.Native.Nat.{◌%◌}

abbrev pub Bytes : Type 0
Bytes = List ℕ

-- One digit for each unit of fuel; `suc n` is enough, as `n / 10` is below `n`.
digits : ℕ → ℕ → Bytes → Bytes
digits zero n out = out
digits (suc f) n out =
    let more = digits f (n / 10) ((48 + n % 10) ∷ out) in if ltb n 10 then (48 + n) ∷ out else more

unfoldable pub str : ℕ → Bytes
unfolding digits
str n = digits (suc n) n []

-- The white space of `bytes.strip`.
abbrev pub is_space : ℕ → Bool
is_space c = (c == 32) || leb 9 c && leb c 13

lstrip : Bytes → Bytes
lstrip [] = []
lstrip (c ∷ s) = let rest = lstrip s in if is_space c then rest else c ∷ s

abbrev keep_last : ℕ → Bytes → Bytes
keep_last c [] = if is_space c then [] else c ∷ []
keep_last c (d ∷ s) = c ∷ (d ∷ s)

rstrip : Bytes → Bytes
rstrip [] = []
rstrip (c ∷ s) = keep_last c (rstrip s)

unfoldable pub strip : Bytes → Bytes
unfolding lstrip rstrip
strip s = rstrip (lstrip s)

abbrev is_digit : ℕ → Bool
is_digit c = leb 48 c && leb c 57

-- Digits with single underscores between them; the flag says that the last byte was a digit.
scan : Bool → Bytes → ℕ → Option ℕ
scan after_digit [] n = if after_digit then some n else none
scan after_digit (c ∷ s) n =
    let rest = scan (is_digit c) s (if is_digit c then n * 10 + (c - 48) else n) in
    if is_digit c || (c == 95) && after_digit then rest else none

abbrev signed : Bool → Option ℕ → Option (Bool × ℕ)
signed negative none = none
signed negative (some n) = some (negative, n)

abbrev int_of : Bytes → Option (Bool × ℕ)
int_of [] = none
int_of (c ∷ s) =
    if c == 45
    then signed true (scan false s 0)
    else if c == 43
    then signed false (scan false s 0)
    else signed false (scan false (c ∷ s) 0)

-- `int(b)`: whether there is a minus, and the number; `none` is a `ValueError`.
unfoldable pub int : Bytes → Option (Bool × ℕ)
unfolding scan strip
int s = int_of (strip s)

abbrev pub IsDigit : ℕ → Type 0
IsDigit c = is_digit c ≡ true

digits-All : (f n : ℕ) (out : Bytes) → All IsDigit out → All IsDigit (digits f n out)
unfolding digits
digits-All zero n out h = h
digits-All (suc f) n out h = elim (Bool-cases (ltb n 10)) [
  | inl small ↦ rw small (ground arith, h)
  | inr large ↦ rw large (digits-All f (n / 10) ((48 + n % 10) ∷ out) (ground arith, h))
]

pub str-All : (n : ℕ) → All IsDigit (str n)
unfolding str
str-All n = digits-All (suc n) n [] tt

scan_digit :
    (after : Bool) (c : ℕ) (s : Bytes) (n : ℕ)
    → IsDigit c
    → scan after (c ∷ s) n ≡ scan true s (n * 10 + (c - 48))
unfolding scan
scan_digit after c s n h = rw h refl

scan-digits : (f n : ℕ) (out : Bytes) → n < f → scan false (digits f n out) 0 ≡ scan true out n
unfolding digits
scan-digits zero n out h = absurd (omega arith)
scan-digits (suc f) n out h = elim (Bool-cases (ltb n 10)) [
  | inl small ↦ rw small (
      scan_digit false (48 + n) out 0 (ground arith)
      ∙ ap (λ k. scan true out k) {y = n} (omega arith))
  | inr large ↦ rw large (
      scan-digits f (n / 10) ((48 + n % 10) ∷ out) (ground arith)
      ∙ scan_digit true (48 + n % 10) out (n / 10) (ground arith)
      ∙ ap (λ k. scan true out k) {y = n} (omega arith))
]

-- A text of digits that a line feed ends.
rstrip-digits : (s : Bytes) → All IsDigit s → rstrip (s ++ 10 ∷ []) ≡ s
unfolding rstrip
rstrip-digits [] h = refl
rstrip-digits (c ∷ []) h = ground arith
rstrip-digits (c ∷ d ∷ s) h = rw (rstrip-digits (d ∷ s) h.1) refl

strip-digits : (c : ℕ) (s : Bytes) → All IsDigit (c ∷ s) → strip ((c ∷ s) ++ 10 ∷ []) ≡ c ∷ s
unfolding strip lstrip
strip-digits c s h = ground (arith, rstrip-digits (c ∷ s) h)

int_of_digits :
    (c : ℕ) (s : Bytes) → All IsDigit (c ∷ s) → int_of (c ∷ s) ≡ signed false (scan false (c ∷ s) 0)
int_of_digits c s h = ground (arith, h.0)

digits_some : (f n : ℕ) (out : Bytes) → (c : ℕ) × (s : Bytes) × (digits (suc f) n out ≡ c ∷ s)
unfolding digits
digits_some zero n out = elim (Bool-cases (ltb n 10)) [
  | inl small ↦ rw small (48 + n, out, refl)
  | inr large ↦ rw large (48 + n % 10, out, refl)
]
digits_some (suc f) n out = elim (Bool-cases (ltb n 10)) [
  | inl small ↦ rw small (48 + n, out, refl)
  | inr large ↦ rw large (digits_some f (n / 10) ((48 + n % 10) ∷ out))
]

pub str_some : (n : ℕ) → (c : ℕ) × (s : Bytes) × (str n ≡ c ∷ s)
unfolding str
str_some n = digits_some n n []

scan-str : (n : ℕ) → scan false (str n) 0 ≡ some n
unfolding str scan
scan-str n = scan-digits (suc n) n [] (omega arith)

-- A written number reads back, also with the line feed of a header.
pub int-str : (n : ℕ) → int (str n ++ 10 ∷ []) ≡ some (false, n)
unfolding int
int-str n =
    let (c, s, e) = str_some n in
    let all = rw e at (str-All n) in
    let text = strip-digits c s all in
    let number = rw e at (scan-str n) in rw (e, text, int_of_digits c s all, number) refl
