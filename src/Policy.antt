-- ===== src/Policy.antt =====
-- src/policy: which tool calls are allowed. `Glob`, `Redos`, `Matchers` and `Compile` are the parts
-- of matchers.ts, `Rules` is policy.ts.
pub mod Glob
pub mod Redos
pub mod Matchers
pub mod Compile
pub mod Rules
pub mod Cli
mod Tests
