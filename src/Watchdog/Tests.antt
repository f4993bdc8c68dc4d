-- ===== src/Watchdog/Tests.antt =====
-- A new execution with the default limits.
use ai_chatbot_platform.Prelude.{ℕ, ◌<◌, ◌≡◌, refl, false, List, [], ◌∷◌, ◌⊎◌, ◌↔◌}
use ai_chatbot_platform.Watchdog.{
  AgentExecutionContext, in_budget, exceeded, cancelled, new_context, cancel, check,
  record_iteration,
}
use ai_chatbot_platform.Watchdog.Budget.{work, check_exact}

abbrev ctx : AgentExecutionContext
ctx = new_context 100

cancelled_stops : (check 100 (cancel ctx)).0 ≡ exceeded cancelled
unfolding check cancel
cancelled_stops = refl

check_exact_example :
    (((check 129 ctx).0 ≡ in_budget) ↔ ((false ≡ false) × (0 < 10) × (0 < 20) × (129 < 130)))
    × ((check 129 ctx ≡ (in_budget, ctx))
        ⊎ (check 129 ctx ≡ (
          exceeded (check 129 ctx).1.termination_reason,
          record ctx { termination_reason = (check 129 ctx).1.termination_reason },
        )))
check_exact_example = check_exact 129 ctx

abbrev twelve : List ℕ
twelve = 101 ∷ 102 ∷ 103 ∷ 104 ∷ 105 ∷ 106 ∷ 107 ∷ 108 ∷ 109 ∷ 110 ∷ 111 ∷ 112 ∷ []

nine_steps : (work twelve ctx).0 ≡ 9
unfolding work check record_iteration
nine_steps = refl
