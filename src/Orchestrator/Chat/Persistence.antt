-- ===== src/Orchestrator/Chat/Persistence.antt =====
-- What a chat writes, and what it answers.
use ai_chatbot_platform.Prelude.{
  ◌≡◌, refl, sym, ap, ◌∙◌, ℕ, suc, ◌≤◌, true, false, ◌⊎◌, inl, inr, Option, none, some, List, [],
  ◌∷◌, ◌++◌, String, str_eq, arith, length, take, Bool-cases, Option-cases, eq_iff, false,
}
use ai_chatbot_platform.Reliability.FailureTracker.{Error}
use ai_chatbot_platform.Reliability.CircuitBreaker.{Outcome, returned, raised}
use ai_chatbot_platform.Reliability.RetryPolicy.Attempts.{Outcome-cases}
use ai_chatbot_platform.Reliability.LoadGuard.{Fraction, zero_fraction}
use ai_chatbot_platform.Orchestrator.AgentLoop.{Looped}
use ai_chatbot_platform.Orchestrator.Chat.{
  Event, cache_read, routed, context_retrieved, agents_run, extracted, context_gathered,
  model_asked, knowledge_added, graded, Services, Request, Gathered, Reply, answered, streamed,
  Chat, ◌>>=◌, ◌>>◌, reply, query, perform, perform_all, sanitized, persisted, or_zero,
  final_answer, conclude, run_agents, refuses, refusal_answer, cached_answer, blocked_answer,
  answer_gathered, answer_unless_refused, answer_uncached, after_cache, generate_answer,
}
use ai_chatbot_platform.Orchestrator.Chat.Writes.{
  is_read, RanWith, Cleaned, Scored, IsOf, Early, Persists, Adds,
}

module _ (sv : Services) (req : Request) where
  Persists-read :
      (e : Event) (es : List Event) (o : Outcome Reply)
      → is_read e ≡ true
      → Persists sv req es o
      → Persists sv req (e ∷ es) o
  Persists-read e es o r (inl (reads, early)) = inl ((r, reads), early)
  Persists-read e es o r (inr (reads, k, run, a, kg, s, same, all, of, late)) =
      inr (e ∷ reads, k, run, a, kg, s, ap (λ xs. e ∷ xs) same, (r, all), of, late)

  append_one : (h : List Event) (e : Event) (es : List Event) → (h ++ e ∷ []) ++ es ≡ h ++ e ∷ es
  append_one [] e es = refl
  append_one (x ∷ h) e es = ap (λ xs. x ∷ xs) (append_one h e es)

  query-Adds :
      {A : Type 0} (e : Event) (f : List Event → Outcome A) (k : A → Chat Reply)
      → is_read e ≡ true
      → ((h : List Event) (a : A) → f h ≡ returned a → Adds (Persists sv req) (k a))
      → Adds (Persists sv req) (query e f >>= k)
  query-Adds e f k r next h = elim (Outcome-cases (f h)) [
    | inl (a, ok) ↦
        let (es, added, q) = next h a ok (h ++ e ∷ []) in
        rw ok (e ∷ es, added ∙ append_one h e es, Persists-read e es _ r q)
    | inr (x, bad) ↦ rw bad (e ∷ [], refl, inl ((r, tt), tt))
  ]

  append_none : (h : List Event) → h ++ [] ≡ h
  append_none [] = refl
  append_none (x ∷ h) = ap (λ xs. x ∷ xs) (append_none h)

  -- All of the `n` acts are made, or one raises.
  abbrev Acted : ℕ → ℕ → Outcome (Unit {0}) → Type 0
  Acted n k o = ((o ≡ returned tt) × (n ≤ k)) ⊎ ((x : Error) × (o ≡ raised x))

  Acted-suc : (n k : ℕ) (o : Outcome (Unit {0})) → Acted n k o → Acted (suc n) (suc k) o
  Acted-suc n k o (inl (ok, le)) = inl (ok, omega (arith, le))
  Acted-suc n k o (inr bad) = inr bad

  -- Acts that are made one after the other until one raises.
  perform_all_ends :
      (evs h : List Event)
      → (k : ℕ) × ((perform_all sv evs h).1 ≡ h ++ take k evs)
        × Acted (length evs) k (perform_all sv evs h).0
  unfolding perform_all
  perform_all_ends [] h = (0, sym (append_none h), inl (refl, omega arith))
  perform_all_ends (ev ∷ evs) h = elim (Option-cases (sv.write h ev)) [
    | inl ok ↦
        let (k, added, ends) = perform_all_ends evs (h ++ ev ∷ []) in
        rw ok (suc k, added ∙ append_one h ev (take k evs), Acted-suc (length evs) k _ ends)
    | inr (x, bad) ↦ rw bad (1, refl, inr (x, refl))
  ]

  -- `conclude` behind the extraction.
  abbrev grade_and_persist : Gathered → String × String → Looped → String → String → Chat Reply
  grade_and_persist data' routed' run answer kg_data = do
    perform sv (knowledge_added kg_data)
    grade ← query (graded req.question answer) (λ h. sv.grade h req.question answer)
    perform_all sv (persisted sv req answer run.used_versions (or_zero grade))
    reply (answered (final_answer req data' routed' run (sv.validate run.answer) answer grade))

  Cleaned-sanitized : (o : Option String) (raw : String) → Cleaned o raw (sanitized o raw)
  Cleaned-sanitized none raw = refl
  Cleaned-sanitized (some s) raw = elim (Bool-cases (str_eq s "")) [
    | inl yes' ↦ rw yes' (inl ((eq_iff s "").0 yes', refl))
    | inr no' ↦ rw no' (inr ((λ e. ground (arith, eq_iff s "", no', e)), refl))
  ]

  Scored-or_zero : (grade : Option Fraction) → Scored grade (or_zero grade)
  Scored-or_zero none = refl
  Scored-or_zero (some s) = refl

  grade_and_persist-Adds :
      (data' : Gathered) (routed' : String × String) (run : Looped) (kg_data : String)
      → RanWith sv req run
      → let answer = sanitized (sv.validate run.answer).sanitized_response run.answer in
        ((h : List Event) × (sv.extract h (sv.transcript req.question answer) ≡ returned kg_data))
        → Adds (Persists sv req) (grade_and_persist data' routed' run answer kg_data)
  grade_and_persist-Adds data' routed' run kg_data ran drawn h =
      let answer = sanitized (sv.validate run.answer).sanitized_response run.answer in
      let cleaned = Cleaned-sanitized (sv.validate run.answer).sanitized_response run.answer in
      let ka = knowledge_added kg_data in
      let gr = graded req.question answer in
      let h1 = h ++ ka ∷ [] in
      let h2 = h1 ++ gr ∷ [] in
      let none_yet = zero_fraction in
      elim (Option-cases (sv.write h ka)) [
        | inr (x, bad) ↦ rw bad (
          ka ∷ [],
          refl,
          inr (
            [],
            1,
            run,
            answer,
            kg_data,
            none_yet,
            refl,
            tt,
            (ran, cleaned, drawn, inl (omega arith)),
            tt,
          ),
        )
        | inl ok ↦ elim (Outcome-cases (sv.grade h1 req.question answer)) [
          | inr (x, bad) ↦
              rw (ok, bad)
                (
                  ka ∷ gr ∷ [],
                  append_one h ka (gr ∷ []),
                  inr (
                    [],
                    2,
                    run,
                    answer,
                    kg_data,
                    none_yet,
                    refl,
                    tt,
                    (ran, cleaned, drawn, inl (omega arith)),
                    tt,
                  ),
                )
          | inl (grade, given) ↦
              let evs = persisted sv req answer run.used_versions (or_zero grade) in
              let (k, added, ends) = perform_all_ends evs h2 in
              let path =
                added ∙ append_one h1 gr (take k evs) ∙ append_one h ka (gr ∷ take k evs) in
              let of : IsOf sv req run answer kg_data (or_zero grade) (suc (suc k)) =
                (ran, cleaned, drawn, inr (h1, grade, given, Scored-or_zero grade)) in
              elim ends [
                | inl (done', le) ↦
                    rw (ok, given, done')
                      (
                        ka ∷ gr ∷ take k evs,
                        path,
                        inr (
                          [],
                          suc (suc k),
                          run,
                          answer,
                          kg_data,
                          or_zero grade,
                          refl,
                          tt,
                          of,
                          (refl, omega (arith, le)),
                        ),
                      )
                | inr (x, bad) ↦
                    rw (ok, given, bad)
                      (
                        ka ∷ gr ∷ take k evs,
                        path,
                        inr (
                          [],
                          suc (suc k),
                          run,
                          answer,
                          kg_data,
                          or_zero grade,
                          refl,
                          tt,
                          of,
                          tt,
                        ),
                      )
              ]
        ]
      ]

  conclude-Adds :
      (data' : Gathered) (routed' : String × String) (run : Looped)
      → RanWith sv req run
      → Adds (Persists sv req) (conclude sv req data' routed' run)
  unfolding conclude
  conclude-Adds data' routed' run ran =
      let answer = sanitized (sv.validate run.answer).sanitized_response run.answer in
      query-Adds (extracted (sv.transcript req.question answer))
        (λ h. sv.extract h (sv.transcript req.question answer))
        (grade_and_persist data' routed' run answer) refl
        (λ h kg_data e. grade_and_persist-Adds data' routed' run kg_data ran (h, e))

  reply-Adds : (r : Reply) → Early (returned r) → Adds (Persists sv req) (reply r)
  reply-Adds r early h = ([], sym (append_none h), inl (tt, early))

  run_agents-Adds :
      (data' : Gathered) (routed' : String × String) (before : List Event) (looped : Option Looped)
      → sv.execute_agent_loop before req.question req.session_id ≡ returned looped
      → Adds
          (Persists sv req)
          (run_agents sv req data' routed'.0 looped >>= conclude sv req data' routed')
  unfolding run_agents
  run_agents-Adds data' routed' before (some run) e h =
      conclude-Adds data' routed' run (inl (before, e)) h
  run_agents-Adds data' routed' before none e h =
      let asked = model_asked routed'.0 in
      elim (Outcome-cases (sv.safe_llm_ask h data' routed'.0)) [
        | inl (text, ok) ↦
            let run : Looped = record {
              answer = text;
              hallucinations_detected = false;
              steps = 0;
              used_versions = [];
            } in
            let (es, added, q) =
              conclude-Adds data' routed' run (inr (h, data', routed'.0, text, ok, refl))
                (h ++ asked ∷ []) in
            rw ok (asked ∷ es, added ∙ append_one h asked es, Persists-read asked es _ refl q)
        | inr (x, bad) ↦ rw bad (asked ∷ [], refl, inl ((refl, tt), tt))
      ]

  answer_gathered-Adds :
      (data' : Gathered) (routed' : String × String)
      → Adds (Persists sv req) (answer_gathered sv req data' routed')
  unfolding answer_gathered
  answer_gathered-Adds data' routed' = elim (Bool-cases req.stream) [
    | inl yes' ↦
        rw (yes', answer_gathered)
          (reply-Adds (streamed data'.final_prompt data'.sys_prompt routed'.0) tt)
    | inr no' ↦
        rw (no', answer_gathered)
          (query-Adds (agents_run req.question)
            (λ h. sv.execute_agent_loop h req.question req.session_id)
            (λ looped. run_agents sv req data' routed'.0 looped >>= conclude sv req data' routed')
            refl (run_agents-Adds data' routed'))
  ]

  answer_unless_refused-Adds :
      (routed' : String × String) (data' : Gathered)
      → Adds (Persists sv req) (answer_unless_refused sv req routed' data')
  unfolding answer_unless_refused
  answer_unless_refused-Adds routed' data' =
      elim (Bool-cases (refuses req.use_rag data'.rag_score)) [
        | inl yes' ↦
            rw (yes', answer_unless_refused) (reply-Adds (answered (refusal_answer req data')) refl)
        | inr no' ↦ rw (no', answer_unless_refused) (answer_gathered-Adds data' routed')
      ]

  answer_uncached-Adds : Adds (Persists sv req) (answer_uncached sv req)
  unfolding answer_uncached
  answer_uncached-Adds =
      query-Adds (routed req.question) (λ h. sv.route h req.question) _ refl
        (λ h1 routed' e1.
          query-Adds (context_retrieved req.question) (λ h. sv.retrieve_context h req.question) _
            refl
            (λ h2 context e2.
              query-Adds (context_gathered req.question context)
                (λ h. sv.gather_context h req context) _ refl
                (λ h3 data' e3. answer_unless_refused-Adds routed' data')))

  after_cache-Adds :
      (cached_response : Option String)
      → Adds (Persists sv req) (after_cache sv req cached_response)
  unfolding after_cache
  after_cache-Adds none = answer_uncached-Adds
  after_cache-Adds (some text) = elim (Bool-cases (str_eq text "")) [
    | inl yes' ↦ rw (yes', after_cache) answer_uncached-Adds
    | inr no' ↦ rw (no', after_cache) (reply-Adds (answered (cached_answer text)) refl)
  ]

  generate_answer-Adds : Adds (Persists sv req) (generate_answer sv req)
  unfolding generate_answer
  generate_answer-Adds = elim (Bool-cases (sv.scan req.question)) [
    | inl yes' ↦ rw (yes', generate_answer) (reply-Adds (answered blocked_answer) refl)
    | inr no' ↦
        rw (no', generate_answer)
          (query-Adds (cache_read req.question) (λ h. sv.cache_get h req.question)
            (after_cache sv req) refl (λ h1 response e1. after_cache-Adds response))
  ]

-- A chat adds its events to those before it. Either it only reads, and ends with an answer without
-- details, with a stream or with an exception; or it reads and then makes, in this order, the first `k`
-- of these calls: the knowledge, the grade, the feedback for each version, the dataset, the memory, the
-- two messages if there is a memory service, and the cache. They are all about one answer: the one of a
-- run that the agents returned, or the model where they did not, as the validation cleaned it. The
-- versions are the run's, the knowledge was extracted from the answer with its question, and the score
-- of the feedback is the grade's, or 0 where it has none. Then the chat answers with just that answer and
-- has made all of these calls, or ends with an exception.
pub generate_answer-Persists :
    (sv : Services) (req : Request) (h : List Event)
    → (es : List Event) × ((generate_answer sv req h).1 ≡ h ++ es)
      × Persists sv req es (generate_answer sv req h).0
generate_answer-Persists sv req h = generate_answer-Adds sv req h
