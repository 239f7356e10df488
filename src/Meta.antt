-- ===== src/Meta.antt =====
-- include/rlbox_meta_sandbox.hpp: the meta-sandbox, a child module for each of its parts.
mod Testbed
pub mod Types
pub mod Casts
pub mod Tag
pub mod Latency
pub mod Policy
pub mod State
pub mod Lifecycle
pub mod Symbols
pub mod Alloc
pub mod Pointers
pub mod Callbacks
pub mod Invoke
pub mod Translators
