-- ===== src/Crypto.antt =====
-- src/crypto.rs: the file header, and the trait `FileCryptor` as a record of operations with the
-- laws that its clients rely on. The two ciphers and their choice are the children.
pub mod Names
pub mod SivGcm
pub mod SivCtrMac
pub mod Cryptor
mod Tests
use cryptomator_rs.Common.{
  ℕ, ◌+◌, ◌-◌, ◌*◌, ◌^◌, ◌≤◌, ◌<◌, ◌==◌, ◌≡◌, List, [], ◌∷◌, ◌++◌, length, take, drop, replicate,
  Result, ok, ◌>>=◌, ◌>>◌, guard, panic, sub_u64, sub_u64_lem, length-append, length-drop,
  length-replicate, length-take, drop-append, arith, ltb, leb, if◌then◌else◌, u64_limit,
}
use cryptomator_rs.Key.{subkey_len}
use cryptomator_rs.Rng.{Rng, try_fill_bytes, try_fill_bytes_lem, length-try_fill_bytes}

abbrev pub header_reserved_len : ℕ
header_reserved_len = 8

pub record FileHeader : Type 0 where
  pub nonce : List ℕ
  pub payload : List ℕ

-- `payload[..8].copy_from_slice(&[0xff; 8])` panics on a shorter payload.
unfoldable pub new : Rng → ℕ → ℕ → Result (FileHeader × Rng)
new rng nonce_len payload_len = do
  (nonce, rng') ← try_fill_bytes rng nonce_len
  (payload, rng'') ← try_fill_bytes rng' payload_len
  guard (leb header_reserved_len (length payload)) panic
  ok (
    record {
      nonce = nonce;
      payload = replicate header_reserved_len 0xff ++ drop header_reserved_len payload;
    },
    rng'',
  )

-- The key of a file's chunks. The assertion, and the conversion to an array, want 32 bytes.
unfoldable pub content_key : FileHeader → Result (List ℕ)
content_key h = do
  key_len ← sub_u64 (length h.payload) header_reserved_len
  guard (key_len == subkey_len) panic
  ok (drop header_reserved_len h.payload)

pub record FileCryptor : Type 0 where
  pub encrypted_header_len : ℕ
  pub max_chunk_len : ℕ
  pub max_encrypted_chunk_len : ℕ
  pub new_header : Rng → Result (FileHeader × Rng)
  pub encrypt_header : FileHeader → Result (List ℕ)
  pub decrypt_header : List ℕ → Result FileHeader
  -- chunk, header, chunk number
  pub encrypt_chunk : Rng → List ℕ → FileHeader → ℕ → Result (List ℕ × Rng)
  pub decrypt_chunk : List ℕ → FileHeader → ℕ → Result (List ℕ)
  -- The components of the relative path.
  pub hash_dir_id : List ℕ → Result (List (List ℕ))
  -- name, id of the parent directory
  pub encrypt_name : List ℕ → List ℕ → Result (List ℕ)
  pub decrypt_name : List ℕ → List ℕ → Result (List ℕ)

-- A header that the cipher with this nonce length can work with.
pub record IsHeader (nonce_len : ℕ) (h : FileHeader) : Type 0 where
  pub nonce_size : length h.nonce ≡ nonce_len
  pub payload_size : length h.payload ≡ header_reserved_len + subkey_len

-- What a client of the trait may rely on.
pub record IsLawful (nonce_len : ℕ) (c : FileCryptor) : Type 0 where
  pub chunk_positive : 0 < c.max_chunk_len
  pub chunk_overhead : c.max_chunk_len < c.max_encrypted_chunk_len
  pub chunk_overhead_small : 2 * c.max_encrypted_chunk_len ≤ 3 * c.max_chunk_len
  pub chunk_small : c.max_encrypted_chunk_len ≤ 2 ^ 16
  pub header_small : c.encrypted_header_len ≤ 2 ^ 16
  pub new_header_valid :
      (rng : Rng) {out : FileHeader × Rng} → c.new_header rng ≡ ok out → IsHeader nonce_len out.0
  pub header_encrypts :
      (h : FileHeader)
      → IsHeader nonce_len h
      → (bytes : List ℕ) × (c.encrypt_header h ≡ ok bytes)
        × (length bytes ≡ c.encrypted_header_len)
        × (c.decrypt_header bytes ≡ ok h)
  pub header_decrypts :
      (bytes : List ℕ) {h : FileHeader}
      → c.decrypt_header bytes ≡ ok h
      → IsHeader nonce_len h × (length bytes ≡ c.encrypted_header_len)
  pub chunk_encrypts :
      (rng : Rng) (chunk : List ℕ) (h : FileHeader) (n : ℕ)
      → nonce_len ≤ length rng
      → IsHeader nonce_len h
      → 0 < length chunk
      → length chunk ≤ c.max_chunk_len
      → (cipher : List ℕ) × (c.encrypt_chunk rng chunk h n ≡ ok (cipher, drop nonce_len rng))
        × (length cipher ≡ length chunk + (c.max_encrypted_chunk_len - c.max_chunk_len))
        × (c.decrypt_chunk cipher h n ≡ ok chunk)
  pub chunk_decrypts :
      (cipher : List ℕ) (h : FileHeader) (n : ℕ) {chunk : List ℕ}
      → c.decrypt_chunk cipher h n ≡ ok chunk
      → (length cipher ≡ length chunk + (c.max_encrypted_chunk_len - c.max_chunk_len))
        × (0 < length chunk)
        × (length chunk ≤ c.max_chunk_len)

pub content_key_lem :
    (nonce_len : ℕ) {h : FileHeader}
    → IsHeader nonce_len h
    → content_key h ≡ ok (drop header_reserved_len h.payload)
unfolding content_key sub_u64
content_key_lem nonce_len v = ground arith

pub content_key-eq-ok :
    (h : FileHeader) {key : List ℕ}
    → content_key h ≡ ok key
    → length h.payload ≡ header_reserved_len + subkey_len
unfolding content_key sub_u64
content_key-eq-ok h e = ground arith

pub new-IsHeader :
    (rng : Rng) (nonce_len : ℕ) {out : FileHeader × Rng}
    → new rng nonce_len (header_reserved_len + subkey_len) ≡ ok out
    → IsHeader nonce_len out.0
unfolding new try_fill_bytes
new-IsHeader rng nonce_len e = ground (
  arith,
  length-take nonce_len rng,
  length-take 40 (drop nonce_len rng),
  length-drop nonce_len rng,
  length-drop 8 (take 40 (drop nonce_len rng)),
  length-replicate {A = ℕ} 8 255,
  length-append (replicate 8 255) (drop 8 (take 40 (drop nonce_len rng))),
)
