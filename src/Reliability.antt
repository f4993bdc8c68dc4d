-- ===== src/Reliability.antt =====
-- The reliability layer of app/reliability.
pub mod FailureTracker
pub mod CircuitBreaker
pub mod RetryPolicy
pub mod LoadGuard
pub mod TimeoutController
pub mod ResponseGuard
