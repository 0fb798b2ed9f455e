-- ===== src/Crypto/SivCtrMac/Bounds.antt =====
-- What a successful decryption of src/crypto/siv_ctrmac.rs says of its input, and the laws of the
-- trait for this cipher.
use cryptomator_rs.Common.{
  ℕ, ◌+◌, ◌-◌, ◌≤◌, ◌<◌, ◌≡◌, sym, ◌∙◌, List, ◌++◌, length, take, drop, ok, arith, length-take,
  length-drop, to_be_bytes, length-to_be_bytes, to_be_bytes-injective, append-injective, u64_limit,
  sub_u64, eq_bytes→eq,
}
use cryptomator_rs.Crypto.{
  FileHeader, IsHeader, IsLawful, content_key, header_reserved_len, new-IsHeader,
}
use cryptomator_rs.Crypto.SivCtrMac.{
  nonce_len, mac_len, max_chunk_len, encrypted_header_len, mac_input, aes_ctr, chunk_hmac,
  decrypt_header, decrypt_chunk, new_header, file_cryptor,
}
use cryptomator_rs.Crypto.SivCtrMac.RoundTrip.{
  decrypt_chunk-encrypt_chunk_ctr, decrypt_header-encrypt_header_ctr,
}
use cryptomator_rs.Key.{MasterKey, enc_key, mac_key}
use cryptomator_rs.Primitives.{Primitives, Laws}

-- What the MAC of a chunk covers determines the nonce of the file, the number of the chunk and its
-- bytes, where the nonces are equally long and the numbers are below 2^64.
pub mac_input-injective :
    (bytes bytes' : List ℕ) (h h' : FileHeader) (n n' : ℕ)
    → length h.nonce ≡ length h'.nonce
    → n < u64_limit
    → n' < u64_limit
    → mac_input bytes h n ≡ mac_input bytes' h' n'
    → (h.nonce ≡ h'.nonce) × (n ≡ n') × (bytes ≡ bytes')
unfolding mac_input
mac_input-injective bytes bytes' h h' n n' hh hn hn' e =
    let outer : (h.nonce ≡ h'.nonce) × (to_be_bytes 8 n ++ bytes ≡ to_be_bytes 8 n' ++ bytes') =
      append-injective _ _ _ _ hh e in
    let inner : (to_be_bytes 8 n ≡ to_be_bytes 8 n') × (bytes ≡ bytes') =
      append-injective _ _ _ _ (omega (arith, length-to_be_bytes 8)) outer.1 in
    (outer.0, to_be_bytes-injective 8 n n' hn hn' inner.0, inner.1)

module _ (p : Primitives) (key : MasterKey) where
  -- A chunk that decrypts under AES-CTR with HMAC ends in the HMAC, under the MAC key, of the
  -- header's nonce, the chunk number and the rest of the chunk.
  pub decrypt_chunk-chunk_hmac :
      (cipher : List ℕ) (h : FileHeader) (n : ℕ) {chunk : List ℕ}
      → decrypt_chunk p key cipher h n ≡ ok chunk
      → drop (length cipher - mac_len) cipher
        ≡ p.hmac_sha256 (mac_key key) (mac_input (take (length cipher - mac_len) cipher) h n)
  unfolding decrypt_chunk chunk_hmac
  decrypt_chunk-chunk_hmac cipher h n {chunk} e =
      let mac : List ℕ =
        p.hmac_sha256 (mac_key key) (mac_input (take (length cipher - 32) cipher) h n) in
      sym (eq_bytes→eq mac (drop (length cipher - 32) cipher) (ground arith))

  -- Unless the HMAC collides on the two inputs, one ciphertext decrypts under one chunk number and
  -- one file nonce only, where the nonces are equally long and the numbers are below 2^64: a chunk
  -- moved inside its file, or to a file with another nonce, is refused.
  pub decrypt_chunk_position :
      (cipher : List ℕ) (h h' : FileHeader) (n n' : ℕ) {chunk chunk' : List ℕ}
      → (p.hmac_sha256 (mac_key key) (mac_input (take (length cipher - mac_len) cipher) h n)
            ≡ p.hmac_sha256 (mac_key key) (mac_input (take (length cipher - mac_len) cipher) h' n')
          → mac_input (take (length cipher - mac_len) cipher) h n
            ≡ mac_input (take (length cipher - mac_len) cipher) h' n')
      → length h.nonce ≡ length h'.nonce
      → n < u64_limit
      → n' < u64_limit
      → decrypt_chunk p key cipher h n ≡ ok chunk
      → decrypt_chunk p key cipher h' n' ≡ ok chunk'
      → (n ≡ n') × (h.nonce ≡ h'.nonce)
  decrypt_chunk_position cipher h h' n n' no_collision hh hn hn' e e' =
      let same : (h.nonce ≡ h'.nonce)
          × (n ≡ n')
          × (take (length cipher - mac_len) cipher ≡ take (length cipher - mac_len) cipher) =
        mac_input-injective _ _ h h' n n' hh hn hn' (
          no_collision (
            sym (decrypt_chunk-chunk_hmac cipher h n e)
            ∙ decrypt_chunk-chunk_hmac cipher h' n' e')) in
      (same.1, same.0)

module _ (p : Primitives) (laws : Laws p) (key : MasterKey) where
  length-aes_ctr :
      (text k nonce : List ℕ) {out : List ℕ}
      → aes_ctr p key text k nonce ≡ ok out
      → length out ≡ length text
  unfolding aes_ctr
  length-aes_ctr text k nonce {out} e = ground (arith, laws.ctr_length k nonce text {out = out})

  -- With lawful primitives, a chunk that decrypts under AES-CTR with HMAC is 48 bytes longer than
  -- its text, which has 1 to 32768 bytes.
  pub decrypt_chunk_bounds_ctr :
      (cipher : List ℕ) (h : FileHeader) (n : ℕ) {chunk : List ℕ}
      → decrypt_chunk p key cipher h n ≡ ok chunk
      → (length cipher ≡ length chunk + 48) × (0 < length chunk) × (length chunk ≤ max_chunk_len)
  unfolding decrypt_chunk content_key sub_u64
  decrypt_chunk_bounds_ctr cipher h n {chunk} e = ground (
    arith,
    length-aes_ctr (drop 16 (take (length cipher - 32) cipher)) (drop header_reserved_len h.payload)
        (take 16 (take (length cipher - 32) cipher)) {out = chunk},
    length-drop 16 (take (length cipher - 32) cipher),
    length-take (length cipher - 32) cipher,
  )

  pub decrypt_header_bounds_ctr :
      (bytes : List ℕ) {h : FileHeader}
      → decrypt_header p key bytes ≡ ok h
      → IsHeader nonce_len h × (length bytes ≡ encrypted_header_len)
  unfolding decrypt_header
  decrypt_header_bounds_ctr bytes {h} e = ground (
    arith,
    length-aes_ctr (take 40 (drop 16 bytes)) (enc_key key) (take 16 bytes) {out = h.payload},
    length-take 16 bytes,
    length-drop 16 bytes,
    length-take 40 (drop 16 bytes),
  )

  -- The cipher keeps the trait's laws.
  pub file_cryptor-IsLawful : IsLawful nonce_len (file_cryptor p key)
  unfolding new_header
  file_cryptor-IsLawful = record {
    chunk_positive = omega arith;
    chunk_overhead = omega arith;
    chunk_overhead_small = omega arith;
    chunk_small = omega arith;
    header_small = omega arith;
    new_header_valid = λ rng e. new-IsHeader rng nonce_len e;
    header_encrypts = decrypt_header-encrypt_header_ctr p key laws;
    header_decrypts = λ bytes e. decrypt_header_bounds_ctr bytes e;
    chunk_encrypts = decrypt_chunk-encrypt_chunk_ctr p key laws;
    chunk_decrypts = λ cipher h n e. decrypt_chunk_bounds_ctr cipher h n e;
  }
