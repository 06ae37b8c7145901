-- ===== src/Auth.antt =====
-- auth.go and auth_tokens.go: the OAuth device flow. The resource is the engine `core`, the storage,
-- and the environment's host name.
pub mod Wire
pub mod Tokens
pub mod Device
pub mod Poll
pub mod Logout
