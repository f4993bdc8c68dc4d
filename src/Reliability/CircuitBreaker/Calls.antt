-- ===== src/Reliability/CircuitBreaker/Calls.antt =====
-- A call, by whether its coroutine is awaited.
use ai_chatbot_platform.Prelude.{ℕ, ◌≡◌, refl, true, false, Option, some, List, [], ◌∷◌}
use ai_chatbot_platform.Reliability.CircuitBreaker.{
  CircuitBreaker, Outcome, done, admit, settle, handle_open, call, Attempt, calls,
}

module _ {ℓ} {A : Type ℓ} where
  pub call_rejected :
      (fallback run : Outcome A) (start end : ℕ) (b : CircuitBreaker)
      → (admit start b).1 ≡ false
      → call (some fallback) start end run b ≡ ((admit start b).0, done fallback)
  unfolding call handle_open
  call_rejected fallback run start end b h = rw (h, call) refl

  pub call_awaited :
      (fallback : Option (Outcome A)) (run : Outcome A) (start end : ℕ) (b : CircuitBreaker)
      → (admit start b).1 ≡ true
      → call fallback start end run b ≡ (settle end run (admit start b).0, done run)
  unfolding call
  call_awaited fallback run start end b h = rw (h, call) refl

  pub calls-nil : (fallback : Option (Outcome A)) (b : CircuitBreaker) → (calls fallback [] b).0 ≡ b
  unfolding calls
  calls-nil fallback b = refl

  pub calls-cons :
      (fallback : Option (Outcome A)) (a : Attempt A) (as' : List (Attempt A)) (b : CircuitBreaker)
      → (calls fallback (a ∷ as') b).0
        ≡ (calls fallback as' (call fallback a.start a.end a.run b).0).0
  unfolding calls
  calls-cons fallback a as' b = refl
