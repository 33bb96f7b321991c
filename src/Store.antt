-- ===== src/Store.antt =====
-- src/store/: the local content-addressed layer and the resolution chain.
pub mod Files
pub mod Layout
pub mod Receiver
pub mod Local
pub mod Resolve
pub mod Maintain
pub mod View
pub mod Spec
