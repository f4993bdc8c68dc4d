-- ===== src/Prelude/Dicts.antt =====
-- Python's `dict` with text keys, as a list in insertion order.
use mathlib.Core.Path.{◌≡◌, refl, sym, ◌∙◌}
use mathlib.Core.Logic.{◌≢◌, inl, inr}
use mathlib.Core.Bool.{false≢true}
use mathlib.Core.Option.{Option, none, some}
use mathlib.Core.List.{List, [], ◌∷◌}
use Prim.Native.Nat.{ℕ, zero, suc, ◌≤◌}
use Prim.Native.String.{String}
use text.Mathlib.Text.{◌==◌ as str_eq}
use text.Mathlib.TextEquality.{eq_iff}
use native.Mathlib.Omega.{arith}
use ai_chatbot_platform.Prelude.Tests.{if◌then◌else◌, Bool-cases}
use ai_chatbot_platform.Prelude.Lists.{length, take, All, All-take}

abbrev pub Dict {ℓ} : Type ℓ → Type ℓ
Dict V = List (String × V)

module _ {ℓ} {V : Type ℓ} where
  abbrev pub keys : Dict V → List String
  keys [] = []
  keys ((k, v) ∷ d) = k ∷ keys d

  -- `d.get(k)`
  unfoldable pub lookup : String → Dict V → Option V
  lookup k [] = none
  lookup k ((j, v) ∷ d) = if str_eq j k then some v else lookup k d

  -- `d[k] = v`: a new key goes to the end, an old one keeps its place.
  unfoldable pub put : String → V → Dict V → Dict V
  put k v [] = (k, v) ∷ []
  put k v ((j, w) ∷ d) = if str_eq j k then (j, v) ∷ d else (j, w) ∷ put k v d

  -- `d.pop(k, None)`, of the dict that it leaves
  unfoldable pub remove : String → Dict V → Dict V
  remove k [] = []
  remove k ((j, w) ∷ d) = if str_eq j k then d else (j, w) ∷ remove k d

  pub lookup-put :
      (k j : String) (v : V) (d : Dict V)
      → lookup j (put k v d) ≡ (if str_eq k j then some v else lookup j d)
  unfolding lookup put
  lookup-put k j v [] = refl
  lookup-put k j v ((i, w) ∷ d) =
      ground (arith, eq_iff k j, eq_iff i k, eq_iff i j, lookup-put k j v d)

  pub lookup-put_self : (k : String) (v : V) (d : Dict V) → lookup k (put k v d) ≡ some v
  lookup-put_self k v d = ground (arith, lookup-put k k v d, eq_iff k k)

  pub lookup-put_ne :
      (k j : String) (v : V) (d : Dict V) → k ≢ j → lookup j (put k v d) ≡ lookup j d
  lookup-put_ne k j v d h = ground (arith, lookup-put k j v d, eq_iff k j)

  pub keys-put :
      (k : String) (v w : V) (d : Dict V) → lookup k d ≡ some w → keys (put k v d) ≡ keys d
  unfolding lookup put
  keys-put k v w [] h = ground arith
  keys-put k v w ((j, u) ∷ d) h = ground (arith, keys-put k v w d)

  pub length-put-le : (k : String) (v : V) (d : Dict V) → length (put k v d) ≤ suc (length d)
  unfolding put
  length-put-le k v [] = omega arith
  length-put-le k v ((j, w) ∷ d) = ground (arith, length-put-le k v d)

-- No key stands twice.
abbrev pub Distinct : List String → Type 0
Distinct [] = Unit
Distinct (k ∷ ks) = All (λ j. k ≢ j) ks × Distinct ks

module _ {ℓ} {V : Type ℓ} where
  pub lookup-absent : (k : String) (d : Dict V) → All (λ j. k ≢ j) (keys d) → lookup k d ≡ none
  unfolding lookup
  lookup-absent k [] h = refl
  lookup-absent k ((j, v) ∷ d) h = ground (arith, eq_iff j k, lookup-absent k d h.1, h.0)

  lookup_after :
      (k : String) (v : V) (d : Dict V) (ks : Dict V)
      → All (λ j. k ≢ j) (keys ks)
      → All (λ e. lookup e.0 d ≡ some e.1) ks
      → All (λ e. lookup e.0 ((k, v) ∷ d) ≡ some e.1) ks
  unfolding lookup
  lookup_after k v d [] h a = tt
  lookup_after k v d (e ∷ ks) h a =
      (ground (arith, eq_iff k e.0, h.0, a.0), lookup_after k v d ks h.1 a.1)

  -- Every entry of a dictionary is what its key is looked up as.
  pub lookup_entries : (d : Dict V) → Distinct (keys d) → All (λ e. lookup e.0 d ≡ some e.1) d
  unfolding lookup
  lookup_entries [] h = tt
  lookup_entries ((k, v) ∷ d) h =
      (ground (arith, eq_iff k k), lookup_after k v d d h.0 (lookup_entries d h.1))

module _ {ℓ} {V : Type ℓ} where
  put_other :
      (x k : String) (v : V) (d : Dict V)
      → x ≢ k
      → All (λ j. x ≢ j) (keys d)
      → All (λ j. x ≢ j) (keys (put k v d))
  unfolding put
  put_other x k v [] ne h = (ne, tt)
  put_other x k v ((j, w) ∷ d) ne h = elim (Bool-cases (str_eq j k)) [
    | inl same ↦ rw same h
    | inr other ↦ rw other (h.0, put_other x k v d ne h.1)
  ]

  pub Distinct-put :
      (k : String) (v : V) (d : Dict V) → Distinct (keys d) → Distinct (keys (put k v d))
  unfolding put
  Distinct-put k v [] h = (tt, tt)
  Distinct-put k v ((j, w) ∷ d) h = elim (Bool-cases (str_eq j k)) [
    | inl same ↦ rw same h
    | inr other ↦ rw other (
      put_other j k v d (λ e. false≢true (sym other ∙ (eq_iff j k).1 e)) h.0,
      Distinct-put k v d h.1,
    )
  ]

module _ {ℓ} {V : Type ℓ} where
  -- A key that is removed is gone, since no key stands twice.
  pub lookup-remove :
      (k j : String) (d : Dict V)
      → Distinct (keys d)
      → lookup j (remove k d) ≡ (if str_eq k j then none else lookup j d)
  unfolding lookup remove
  lookup-remove k j [] h = ground arith
  lookup-remove k j ((i, w) ∷ d) h =
      ground
        (arith, eq_iff k j, eq_iff i k, eq_iff i j, lookup-remove k j d h.1, lookup-absent i d h.0)

  remove_other :
      (x k : String) (d : Dict V) → All (λ j. x ≢ j) (keys d) → All (λ j. x ≢ j) (keys (remove k d))
  unfolding remove
  remove_other x k [] h = tt
  remove_other x k ((j, w) ∷ d) h = elim (Bool-cases (str_eq j k)) [
    | inl same ↦ rw same h.1
    | inr other ↦ rw other (h.0, remove_other x k d h.1)
  ]

  pub Distinct-remove : (k : String) (d : Dict V) → Distinct (keys d) → Distinct (keys (remove k d))
  unfolding remove
  Distinct-remove k [] h = tt
  Distinct-remove k ((j, w) ∷ d) h = elim (Bool-cases (str_eq j k)) [
    | inl same ↦ rw same h.1
    | inr other ↦ rw other (remove_other j k d h.0, Distinct-remove k d h.1)
  ]

pub Distinct-take : (n : ℕ) (ks : List String) → Distinct ks → Distinct (take n ks)
Distinct-take zero ks d = tt
Distinct-take (suc n) [] d = tt
Distinct-take (suc n) (k ∷ ks) d = (All-take (λ j. k ≢ j) n ks d.0, Distinct-take n ks d.1)
