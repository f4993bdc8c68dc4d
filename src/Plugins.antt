-- ===== src/Plugins.antt =====
-- app/plugins: plugins run in processes of their own, which answer over pipes.
pub mod PyInt
pub mod Protocol
pub mod Runner
