-- ===== src/Vxlan/Tests.antt =====
-- The theorems about the providers of vxlan at concrete states of the kernel.
pub mod Devices
pub mod Tables
pub mod Made
mod Overlay
mod First
