-- ===== src/Tests.antt =====
-- Concrete runs: a kernel that completes what it was asked, and each result at a concrete input.
pub mod Kernel
pub mod Drains
pub mod Runs
pub mod Bindgen
pub mod Handlers
pub mod Protocols
pub mod Buffers
pub mod Layouts
pub mod Texts
