-- ===== src/Ipsec.antt =====
-- pkg/routing/ipsec: nodes get numbers from their pod networks, and states and policies of the
-- kernel's transformation tables from those.
pub mod Numeral
pub mod Strategies
pub mod States
pub mod Policies
pub mod Provider
pub mod Layout
pub mod Socket
pub mod Listener
pub mod Distinct
pub mod Accepted
mod Tests
