-- ===== src/Llm/FallbackProvider/Failover.antt =====
-- Which provider answers.
use ai_chatbot_platform.Prelude.{
  ◌≡◌, ◌≢◌, refl, ◌∙◌, ℕ, suc, none, some, List, [], ◌∷◌, ◌++◌, String, arith, if◌then◌else◌,
  lookup, put, lookup-put_ne, All, Distinct,
}
use ai_chatbot_platform.Reliability.CircuitBreaker.{returned, raised}
use ai_chatbot_platform.Llm.FallbackProvider.{
  ProviderBreaker, is_available, provider_failure, Providers, Breakers, Reply, replied,
  all_unavailable, ask_each, ask, stream_each, ask_stream, error_chunk,
}

-- The positions and names of the providers whose breakers let a call through.
unfoldable pub candidates : Providers → Breakers → ℕ → List String → List (ℕ × String)
candidates e bs i [] = []
candidates e bs i (p ∷ ps) =
    let rest = candidates e bs (suc i) ps in
    elim (lookup p bs) [
      | none ↦ rest
      | some b ↦ if (is_available (e.asked_at i) b).1 then (i, p) ∷ rest else rest
    ]

-- The first answer that is no exception.
abbrev pub first_returned : Providers → List (ℕ × String) → Reply
first_returned e [] = all_unavailable
first_returned e ((i, p) ∷ rest) = elim (e.answer i p) [
  | returned text ↦ replied text
  | raised x ↦ first_returned e rest
]

-- All that streams yield in turn, up to the first that ends well.
abbrev pub yielded : Providers → List (ℕ × String) → List String
yielded e [] = error_chunk ∷ []
yielded e ((i, p) ∷ rest) = elim (e.stream i p).failure [
  | none ↦ (e.stream i p).chunks
  | some x ↦ (e.stream i p).chunks ++ yielded e rest
]

abbrev pub HasBreakers : List String → Breakers → Type 0
HasBreakers ps bs = All (λ p. (b : ProviderBreaker) × (lookup p bs ≡ some b)) ps

-- Two dictionaries give some providers the same breakers.
Agree : List String → Breakers → Breakers → Type 0
Agree ps bs cs = All (λ p. lookup p bs ≡ lookup p cs) ps

put-Agree :
    (p : String) (b : ProviderBreaker) (ps : List String) (bs cs : Breakers)
    → All (λ q. p ≢ q) ps
    → Agree ps bs cs
    → Agree ps (put p b bs) cs
unfolding Agree
put-Agree p b [] bs cs n a = tt
put-Agree p b (q ∷ ps) bs cs n a =
    (lookup-put_ne p q b bs n.0 ∙ a.0, put-Agree p b ps bs cs n.1 a.1)

Agree-same : (ps : List String) (bs : Breakers) → Agree ps bs bs
unfolding Agree
Agree-same [] bs = tt
Agree-same (p ∷ ps) bs = (refl, Agree-same ps bs)

Agree-head :
    (p : String) (ps : List String) (bs cs : Breakers)
    → Agree (p ∷ ps) bs cs
    → (lookup p bs ≡ lookup p cs) × Agree ps bs cs
unfolding Agree
Agree-head p ps bs cs a = a

ask_each_lem :
    (e : Providers) (cs : Breakers) (i : ℕ) (ps : List String) (bs : Breakers)
    → Distinct ps
    → HasBreakers ps cs
    → Agree ps bs cs
    → (ask_each e i ps bs).0 ≡ first_returned e (candidates e cs i ps)
unfolding ask_each candidates
ask_each_lem e cs i [] bs d h a = refl
ask_each_lem e cs i (p ∷ ps) bs d h a =
    let (b, found) = h.0 in
    let (same, rest) = Agree-head p ps bs cs a in
    let b' = (is_available (e.asked_at i) b).0 in
    ground (
      arith,
      same,
      found,
      ask_each_lem e cs (suc i) ps (put p b' bs) d.1 h.1 (put-Agree p b' ps bs cs d.0 rest),
      ask_each_lem e cs (suc i) ps (put p (provider_failure (e.failed_at i) b') bs) d.1 h.1
          (put-Agree p (provider_failure (e.failed_at i) b') ps bs cs d.0 rest),
    )

stream_each_lem :
    (e : Providers) (cs : Breakers) (i : ℕ) (ps : List String) (bs : Breakers)
    → Distinct ps
    → HasBreakers ps cs
    → Agree ps bs cs
    → (stream_each e i ps bs).0 ≡ some (yielded e (candidates e cs i ps))
unfolding stream_each candidates
stream_each_lem e cs i [] bs d h a = refl
stream_each_lem e cs i (p ∷ ps) bs d h a =
    let (b, found) = h.0 in
    let (same, rest) = Agree-head p ps bs cs a in
    let b' = (is_available (e.asked_at i) b).0 in
    ground (
      arith,
      same,
      found,
      stream_each_lem e cs (suc i) ps (put p b' bs) d.1 h.1 (put-Agree p b' ps bs cs d.0 rest),
      stream_each_lem e cs (suc i) ps (put p (provider_failure (e.failed_at i) b') bs) d.1 h.1
          (put-Agree p (provider_failure (e.failed_at i) b') ps bs cs d.0 rest),
    )

-- If no provider stands twice and each has a breaker, `ask` replies with the first answer that is no
-- exception among the providers whose breakers let the call through at the start, in the order of the
-- primary and the fallbacks, and it fails exactly if there is no such answer.
pub ask_first :
    (e : Providers) (primary : String) (fallbacks : List String) (bs : Breakers)
    → Distinct (primary ∷ fallbacks)
    → HasBreakers (primary ∷ fallbacks) bs
    → (ask e primary fallbacks bs).0 ≡ first_returned e (candidates e bs 0 (primary ∷ fallbacks))
unfolding ask
ask_first e primary fallbacks bs d h =
    ask_each_lem e bs 0 (primary ∷ fallbacks) bs d h (Agree-same (primary ∷ fallbacks) bs)

-- Under the same conditions a stream yields the chunks of every provider that the breakers let through,
-- one after the other, up to and with those of the first one that ends well: also the chunks of the
-- providers that failed on the way. The error chunk comes last if none ends well.
pub ask_stream_yields :
    (e : Providers) (primary : String) (fallbacks : List String) (bs : Breakers)
    → Distinct (primary ∷ fallbacks)
    → HasBreakers (primary ∷ fallbacks) bs
    → (ask_stream e primary fallbacks bs).0
      ≡ some (yielded e (candidates e bs 0 (primary ∷ fallbacks)))
unfolding ask_stream
ask_stream_yields e primary fallbacks bs d h =
    stream_each_lem e bs 0 (primary ∷ fallbacks) bs d h (Agree-same (primary ∷ fallbacks) bs)
