-- ===== src/Go.antt =====
-- What the service uses of the Go language and its standard library.
pub mod Effect
pub mod Int64
pub mod Strings
pub mod Time
