-- ===== src/Netutil.antt =====
-- pkg/routing/netutil: the tables of the kernel, each brought to an expected content by comparing
-- what the kernel lists with what is expected. One child for each table.
pub mod Kernel
pub mod Frame
pub mod Diff
pub mod Sync
pub mod Routes
pub mod Neighbours
pub mod Addresses
pub mod Links
pub mod Xfrm
pub mod Tests
