-- ===== src/Crypto/SivGcm/Bounds.antt =====
-- What a successful decryption of src/crypto/siv_gcm.rs says of its input, and the laws of the
-- trait for this cipher.
use cryptomator_rs.Common.{
  ℕ, ◌+◌, ◌-◌, ◌≤◌, ◌<◌, ◌≡◌, List, [], length, take, drop, ok, arith, length-take, length-drop,
  to_be_bytes, length-to_be_bytes, to_be_bytes-injective, append-injective, u64_limit, sub_u64,
}
use cryptomator_rs.Crypto.{
  FileHeader, IsHeader, IsLawful, content_key, header_reserved_len, new-IsHeader,
}
use cryptomator_rs.Crypto.SivGcm.{
  nonce_len, max_chunk_len, encrypted_header_len, associated_data, aes_gcm_decrypt, decrypt_header,
  decrypt_chunk, new_header, file_cryptor,
}
use cryptomator_rs.Crypto.SivGcm.RoundTrip.{
  decrypt_chunk-encrypt_chunk, decrypt_header-encrypt_header,
}
use cryptomator_rs.Key.{MasterKey, enc_key}
use cryptomator_rs.Primitives.{Primitives, Laws}

-- The associated data of a chunk under AES-GCM determine its number, where the numbers are below
-- 2^64, and the nonce of its file.
pub associated_data-injective :
    (h h' : FileHeader) (n n' : ℕ)
    → n < u64_limit
    → n' < u64_limit
    → associated_data h n ≡ associated_data h' n'
    → (n ≡ n') × (h.nonce ≡ h'.nonce)
unfolding associated_data
associated_data-injective h h' n n' hn hn' e =
    let parts : (to_be_bytes 8 n ≡ to_be_bytes 8 n') × (h.nonce ≡ h'.nonce) =
      append-injective _ _ _ _ (omega (arith, length-to_be_bytes 8)) e in
    (to_be_bytes-injective 8 n n' hn hn' parts.0, parts.1)

module _ (p : Primitives) (laws : Laws p) (key : MasterKey) where
  aes_gcm_decrypt-length :
      (k nonce ad cipher tag : List ℕ) {text : List ℕ}
      → aes_gcm_decrypt p key cipher k nonce ad tag ≡ ok text
      → length text ≡ length cipher
  unfolding aes_gcm_decrypt
  aes_gcm_decrypt-length k nonce ad cipher tag {text} e =
      ground (arith, laws.gcm_open_length k nonce ad cipher tag {text = text})

  -- With lawful primitives, a chunk that decrypts under AES-GCM is 28 bytes longer than its text,
  -- which has 1 to 32768 bytes.
  pub decrypt_chunk_bounds :
      (cipher : List ℕ) (h : FileHeader) (n : ℕ) {chunk : List ℕ}
      → decrypt_chunk p key cipher h n ≡ ok chunk
      → (length cipher ≡ length chunk + 28) × (0 < length chunk) × (length chunk ≤ max_chunk_len)
  unfolding decrypt_chunk content_key sub_u64
  decrypt_chunk_bounds cipher h n {chunk} e = ground (
    arith,
    aes_gcm_decrypt-length (drop header_reserved_len h.payload)
        (take 12 (take (length cipher - 16) cipher)) (associated_data h n)
        (drop 12 (take (length cipher - 16) cipher)) (drop (length cipher - 16) cipher)
        {text = chunk},
    length-drop 12 (take (length cipher - 16) cipher),
    length-take (length cipher - 16) cipher,
  )

  pub decrypt_header_bounds :
      (bytes : List ℕ) {h : FileHeader}
      → decrypt_header p key bytes ≡ ok h
      → IsHeader nonce_len h × (length bytes ≡ encrypted_header_len)
  unfolding decrypt_header
  decrypt_header_bounds bytes {h} e = ground (
    arith,
    aes_gcm_decrypt-length (enc_key key) (take 12 bytes) [] (take 40 (drop 12 bytes))
        (drop 52 bytes) {text = h.payload},
    length-take 12 bytes,
    length-drop 12 bytes,
    length-take 40 (drop 12 bytes),
  )

  -- The cipher keeps the trait's laws.
  pub file_cryptor-IsLawful : IsLawful nonce_len (file_cryptor p key)
  unfolding new_header
  file_cryptor-IsLawful = record {
    chunk_positive = omega arith;
    chunk_overhead = omega arith;
    chunk_overhead_small = omega arith;
    chunk_small = omega arith;
    header_small = omega arith;
    new_header_valid = λ rng e. new-IsHeader rng nonce_len e;
    header_encrypts = decrypt_header-encrypt_header p key laws;
    header_decrypts = λ bytes e. decrypt_header_bounds bytes e;
    chunk_encrypts = decrypt_chunk-encrypt_chunk p key laws;
    chunk_decrypts = λ cipher h n e. decrypt_chunk_bounds cipher h n e;
  }
