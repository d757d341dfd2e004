-- ===== src/Agent.antt =====
-- cmd/networking-agent: what `run` decides before it starts the two controllers.
pub mod Options
pub mod Matcher
pub mod Targets
pub mod Choice
pub mod Dispatch
pub mod Run
pub mod Round
mod Tests
