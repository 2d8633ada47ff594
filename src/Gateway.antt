-- ===== src/Gateway.antt =====
-- app/collector/gateway.py: the read adapter that runs in the disposable child process.
pub mod Shrink
pub mod Identity
pub mod Login
pub mod Window
pub mod Collect
mod Examples
