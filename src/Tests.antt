-- ===== src/Tests.antt =====
-- Runs of the model on small inputs, and the theorems at concrete inputs.
mod Keys
mod Store
mod Server
mod Fetch
mod Service
mod Credential
mod Mirror
mod Config
mod Build
mod Manifests
