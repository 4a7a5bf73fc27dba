-- ===== src/Pipeline.antt =====
-- src/pipeline: what one intercepted call goes through. `Classify` reads the outcome of an attempt,
-- `Retry` runs the attempts, `Idempotency` finds the call's key.
pub mod Classify
pub mod Retry
pub mod Idempotency
mod Tests
