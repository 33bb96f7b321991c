-- ===== src/Server.antt =====
-- src/server.rs and src/server/: the artifact service and its cache coordinator.
pub mod Coordinator
pub mod Admission
pub mod Closing
pub mod Service
pub mod Handler
pub mod Objects
pub mod Redirects
pub mod Uploads
