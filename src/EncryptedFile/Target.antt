-- ===== src/EncryptedFile/Target.antt =====
-- The target of `SeekFrom::Start` in `seek_inner` of src/fs/encrypted_file.rs.
use cryptomator_rs.Common.{
  ℕ, ◌/◌, ◌%◌, ltb, if◌then◌else◌, Result, ok, ◌>>=◌, sub_u64, mul_u64, add_u64,
}
use cryptomator_rs.Crypto.{FileCryptor}

-- The ciphertext position of cleartext position `n`, before the cap at the end of the file: the
-- start of its chunk, and partway through a chunk its overhead and the offset on top.
unfoldable pub desired_pos : FileCryptor → ℕ → Result ℕ
desired_pos c n = do
  let chunk_offset = n % c.max_chunk_len
  chunks ← mul_u64 (n / c.max_chunk_len) c.max_encrypted_chunk_len
  chunk_start ← add_u64 c.encrypted_header_len chunks
  overhead ← sub_u64 c.max_encrypted_chunk_len c.max_chunk_len
  let partway = do skip ← add_u64 chunk_offset overhead; add_u64 chunk_start skip
  if ltb 0 chunk_offset then partway else ok chunk_start
