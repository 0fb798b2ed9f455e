-- ===== src/Util/Size.antt =====
-- `get_cleartext_size` of src/util.rs, with the checked arithmetic of a debug build.
pub mod Position
mod Tests
use cryptomator_rs.Common.{ℕ, ◌-◌, ◌/◌, ◌%◌, max, Result, ◌>>=◌, sub_u64, mul_u64, add_u64}
use cryptomator_rs.Crypto.{FileCryptor}

unfoldable pub get_cleartext_size : FileCryptor → ℕ → Result ℕ
get_cleartext_size c ciphertext_size = do
  enc_chunks_len ← sub_u64 ciphertext_size c.encrypted_header_len
  let num_full_chunks = enc_chunks_len / c.max_encrypted_chunk_len
  overhead ← sub_u64 c.max_encrypted_chunk_len c.max_chunk_len
  remainder ← sub_u64 (max (enc_chunks_len % c.max_encrypted_chunk_len) overhead) overhead
  full ← mul_u64 num_full_chunks c.max_chunk_len
  add_u64 full remainder
