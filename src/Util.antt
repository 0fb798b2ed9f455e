-- ===== src/Util.antt =====
-- src/util.rs: the keyed hash, reading until a buffer is full, and cleartext sizes (the children).
pub mod Hmac
pub mod ReadExact
pub mod Size
pub mod Jwt
pub mod Kek
