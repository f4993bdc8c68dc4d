-- ===== src/Watchdog/Budget.antt =====
-- How much work a budget allows.
use ai_chatbot_platform.Prelude.{
  ℕ, suc, ◌+◌, ◌-◌, ◌<◌, min, ◌≡◌, false, List, [], ◌∷◌, arith, length, leb, if◌then◌else◌, ◌⊎◌,
  ◌↔◌, Bool-cases, inl, inr,
}
use ai_chatbot_platform.Watchdog.{
  TerminationReason, iteration_limit, AgentExecutionContext, Checked, in_budget, exceeded,
  record_iteration, check,
}

-- The loop of an agent: each step is counted, checked, and then done. It gives how many steps were
-- done, the context, and how the loop ended.
unfoldable pub work : List ℕ → AgentExecutionContext → ℕ × AgentExecutionContext × Checked
work [] c = (0, c, in_budget)
work (now ∷ later) c =
    let (r, c') = check now (record_iteration c) in
    let (n, c'', r') = work later c' in
    elim r [ in_budget ↦ (suc n, c'', r') | exceeded reason ↦ (0, c', exceeded reason) ]

-- `check` passes exactly if the execution is not cancelled and is below its three limits, and it then
-- changes nothing; otherwise it changes only the reason, to the one that it raises.
pub check_exact :
    (now : ℕ) (c : AgentExecutionContext)
    → (((check now c).0 ≡ in_budget) ↔ (
        (c.is_cancelled ≡ false)
        × (c.iteration_count < c.max_iterations)
        × (c.tool_call_count < c.max_tool_calls)
        × (now < c.start_time + c.max_runtime_seconds)))
      × ((check now c ≡ (in_budget, c))
          ⊎ (check now c ≡ (
            exceeded (check now c).1.termination_reason,
            record c { termination_reason = (check now c).1.termination_reason },
          )))
unfolding check
check_exact now c = ground arith

abbrev pub AllBefore : ℕ → List ℕ → Type 0
AllBefore deadline [] = Unit
AllBefore deadline (now ∷ later) = (now < deadline) × AllBefore deadline later

-- One step of the loop, where neither a cancellation nor another limit interferes.
check_iteration :
    (now : ℕ) (c : AgentExecutionContext)
    → c.is_cancelled ≡ false
    → c.tool_call_count < c.max_tool_calls
    → now < c.start_time + c.max_runtime_seconds
    → check now c ≡ (
        if leb c.max_iterations c.iteration_count
        then (exceeded iteration_limit, record c { termination_reason = iteration_limit })
        else (in_budget, c))
unfolding check
check_iteration now c k t r = ground arith

work_stops :
    (now : ℕ) (later : List ℕ) (c : AgentExecutionContext) (r : TerminationReason)
    → (check now (record_iteration c)).0 ≡ exceeded r
    → ((work (now ∷ later) c).0 ≡ 0) × ((work (now ∷ later) c).2 ≡ exceeded r)
unfolding work
work_stops now later c r e = ground arith

work_goes_on :
    (now : ℕ) (later : List ℕ) (c c' : AgentExecutionContext)
    → check now (record_iteration c) ≡ (in_budget, c')
    → ((work (now ∷ later) c).0 ≡ suc (work later c').0)
      × ((work (now ∷ later) c).2 ≡ (work later c').2)
unfolding work
work_goes_on now later c c' e = ground arith

-- A loop that counts each step, checks, and then does it, with nothing cancelled and the other limits
-- out of reach, does one step less than the iteration limit still allows, or as many as it has: the
-- step that reaches `max_iterations` is not done, and ends the loop with the iteration limit.
pub work_steps :
    (times : List ℕ) (c : AgentExecutionContext)
    → c.is_cancelled ≡ false
    → c.tool_call_count < c.max_tool_calls
    → AllBefore (c.start_time + c.max_runtime_seconds) times
    → ((work times c).0 ≡ min (length times) (c.max_iterations - 1 - c.iteration_count))
      × ((work times c).2 ≡ (
          if leb (length times) (c.max_iterations - 1 - c.iteration_count)
          then in_budget
          else exceeded iteration_limit))
unfolding record_iteration
work_steps [] c k t r = unfold work in ground arith
work_steps (now ∷ later) c k t r =
    let c' = record c { iteration_count = c.iteration_count + 1 } in
    let e = check_iteration now c' k t r.0 in
    elim (Bool-cases (leb c.max_iterations (c.iteration_count + 1))) [
      | inl last ↦
          let stops = work_stops now later c iteration_limit (ground (arith, e)) in
          ground (arith, stops)
      | inr more ↦
          let goes = work_goes_on now later c c' (ground (arith, e)) in
          ground (arith, goes, work_steps later c' k t r.1)
    ]
