-- ===== src/Reliability/TimeoutController.antt =====
-- app/reliability/timeout_controller.py: a limit on the time of a coroutine.
--
-- How `asyncio.wait_for` ends is an argument; it raises the built-in `TimeoutError` where the time is up.
use ai_chatbot_platform.Prelude.{Bool, if◌then◌else◌}
use ai_chatbot_platform.Reliability.FailureTracker.{Error}
use ai_chatbot_platform.Reliability.CircuitBreaker.{Outcome, returned, raised}

pub record TimeoutController : Type 0 where
  -- `except builtins.TimeoutError`
  pub is_builtin_timeout : Error → Bool
  -- `except TimeoutError`, the class of the file
  pub is_timeout : Error → Bool
  -- `TimeoutError(operation_name, timeout_seconds)`
  pub timeout_error : Error

module _ {ℓ} {A : Type ℓ} where
  abbrev pub execute : TimeoutController → Outcome A → Outcome A
  execute c (returned a) = returned a
  execute c (raised e) = if c.is_builtin_timeout e then raised c.timeout_error else raised e

  abbrev after_timeout : TimeoutController → A → Outcome A → Outcome A
  after_timeout c fallback_value (returned a) = returned a
  after_timeout c fallback_value (raised e) =
      if c.is_timeout e then returned fallback_value else raised e

  abbrev pub execute_with_fallback : TimeoutController → A → Outcome A → Outcome A
  execute_with_fallback c fallback_value run = after_timeout c fallback_value (execute c run)
