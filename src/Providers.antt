-- ===== src/Providers.antt =====
-- The routing providers of pkg/routing that keep routes: what they share, and layer2 and gre.
pub mod Peers
pub mod Routed
pub mod Layer2
pub mod Gre
mod Tests
