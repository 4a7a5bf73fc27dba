-- ===== src/Proxy.antt =====
-- src/proxy: what the relay does with a call. `World` is the state that it changes and what the
-- outside answers; `Metadata`, `Record` and `Intercept` are the parts of bridge.ts.
pub mod World
pub mod Metadata
pub mod Run
pub mod Record
pub mod Intercept
pub mod Frames
pub mod Lifecycle
pub mod Session
pub mod Links
pub mod Wiring
mod Tests
