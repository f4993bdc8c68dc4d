-- ===== src/Prompts/Evolution/Averages.antt =====
-- The incremental average is the average.
use ai_chatbot_platform.Prelude.{
  ◌≡◌, refl, sym, ap, ◌∙◌, ℕ, ◌+◌, ◌*◌, ◌<◌, List, [], ◌∷◌, arith, length,
}
use mathlib.Core.Path.{subst₂}
use native.Mathlib.Nat.{mul-pos, add-zero, zero-add}
use ai_chatbot_platform.Prompts.Evolution.{PromptPerformance, new_performance, scored}

-- Scores with one denominator, one after the other.
unfoldable pub scored_all : ℕ → List ℕ → PromptPerformance → PromptPerformance
scored_all den [] p = p
scored_all den (s ∷ ss) p = scored_all den ss (scored (record { num = s; den = den }) p)

abbrev pub sum : List ℕ → ℕ
sum [] = 0
sum (s ∷ ss) = s + sum ss

-- The performance has the average of `n` scores with the sum `total`.
record IsAverage (den total n : ℕ) (p : PromptPerformance) : Type 0 where
  hits : p.hit_count ≡ n
  positive : 0 < p.avg_score.den
  average : p.avg_score.num * n * den ≡ total * p.avg_score.den

spread : (t s q m d : ℕ) → (t * q + s * q) * m * d ≡ (t + s) * (q * d * m)
spread t s q m d = grind arith

scored-IsAverage :
    (den total n s : ℕ) (p : PromptPerformance)
    → 0 < den
    → IsAverage den total n p
    → IsAverage den (total + s) (n + 1) (scored (record { num = s; den = den }) p)
unfolding scored
scored-IsAverage den total n s p pos a = record {
  hits = omega (arith, a.hits);
  positive = rw a.hits (mul-pos (mul-pos a.positive pos) (omega arith));
  average = rw (a.hits, a.average) (spread total s p.avg_score.den (n + 1) den);
}

scored_all-IsAverage :
    (den total n : ℕ) (ss : List ℕ) (p : PromptPerformance)
    → 0 < den
    → IsAverage den total n p
    → IsAverage den (total + sum ss) (n + length ss) (scored_all den ss p)
unfolding scored_all
scored_all-IsAverage den total n [] p pos a = record {
  hits = omega (arith, a.hits);
  positive = a.positive;
  average = rw (add-zero total, add-zero n) a.average;
}
scored_all-IsAverage den total n (s ∷ ss) p pos a =
    subst₂ (λ t k. IsAverage den t k (scored_all den (s ∷ ss) p)) (omega arith) (omega arith)
      (scored_all-IsAverage den (total + s) (n + 1) ss (scored (record { num = s; den = den }) p)
        pos (scored-IsAverage den total n s p pos a))

-- A version that has been scored with `ss`, in steps of 1 / `den`, since it was new: it counts the scores,
-- and its average times their number is their sum, as fractions whose denominators are positive.
pub scored_all-average :
    (den : ℕ) (ss : List ℕ)
    → 0 < den
    → ((scored_all den ss new_performance).hit_count ≡ length ss)
      × (0 < (scored_all den ss new_performance).avg_score.den)
      × ((scored_all den ss new_performance).avg_score.num * length ss * den
          ≡ sum ss * (scored_all den ss new_performance).avg_score.den)
scored_all-average den ss pos =
    let a =
      scored_all-IsAverage den 0 0 ss new_performance pos
        (record { hits = refl; positive = omega arith; average = omega arith }) in
    (
      a.hits ∙ zero-add (length ss),
      a.positive,
      ap (λ k. (scored_all den ss new_performance).avg_score.num * k * den)
            (sym (zero-add (length ss)))
          ∙ a.average
          ∙ ap (λ t. t * (scored_all den ss new_performance).avg_score.den) (zero-add (sum ss)),
    )
