-- ===== src/Netutil/Tests.antt =====
-- The theorems about pkg/routing/netutil, on a kernel that keeps its tables as lists.
pub mod Kernel
pub mod Routes
pub mod Neighbours
pub mod Links
pub mod Addresses
mod Xfrm
mod Policies
