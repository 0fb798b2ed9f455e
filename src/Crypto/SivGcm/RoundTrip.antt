-- ===== src/Crypto/SivGcm/RoundTrip.antt =====
-- What AES-GCM encryption writes, decryption reads back (src/crypto/siv_gcm.rs).
use cryptomator_rs.Common.{
  ℕ, ◌+◌, ◌-◌, ◌≤◌, ◌<◌, ◌≡◌, sym, List, [], ◌++◌, length, take, drop, ok, ◌>>=◌, arith,
  take-append, drop-append, length-take, length-parts, take-parts, drop-parts,
}
use cryptomator_rs.Crypto.{FileHeader, IsHeader, header_reserved_len, content_key, content_key_lem}
use cryptomator_rs.Crypto.SivGcm.{
  nonce_len, tag_len, max_chunk_len, encrypted_header_len, associated_data, aes_gcm_encrypt,
  aes_gcm_decrypt, encrypt_chunk_with_nonce, encrypt_header, decrypt_header, encrypt_chunk,
  decrypt_chunk,
}
use cryptomator_rs.Key.{MasterKey, enc_key}
use cryptomator_rs.Primitives.{Primitives, Laws, message_limit}
use cryptomator_rs.Rng.{Rng, try_fill_bytes_lem}

module _ (p : Primitives) (key : MasterKey) where
  decrypt_chunk-parts :
      (nonce cipher tag : List ℕ) (h : FileHeader) (n : ℕ)
      → length nonce ≡ nonce_len
      → length tag ≡ tag_len
      → 0 < length cipher
      → length cipher ≤ max_chunk_len
      → decrypt_chunk p key (nonce ++ (cipher ++ tag)) h n
        ≡ (content_key h >>= λ k. aes_gcm_decrypt p key cipher k nonce (associated_data h n) tag)
  unfolding decrypt_chunk
  decrypt_chunk-parts nonce cipher tag h n hn ht h0 h1 =
      let total : length (nonce ++ (cipher ++ tag)) - 16 ≡ length nonce + length cipher =
        omega (arith, length-parts nonce cipher tag) in
      rw
        (
          take-parts nonce cipher tag (length (nonce ++ (cipher ++ tag)) - 16) (sym total),
          drop-parts nonce cipher tag (length (nonce ++ (cipher ++ tag)) - 16) (sym total),
          take-append 12 nonce cipher hn,
          drop-append 12 nonce cipher hn,
        )
        (ground (arith, length-parts nonce cipher tag))

  aes_gcm_opens :
      (laws : Laws p) (k nonce ad text : List ℕ)
      → length nonce ≡ nonce_len
      → length text ≤ message_limit
      → (out : List ℕ × List ℕ) × (aes_gcm_encrypt p key text k nonce ad ≡ ok out)
        × (length out.0 ≡ length text)
        × (length out.1 ≡ tag_len)
        × (aes_gcm_decrypt p key out.0 k nonce ad out.1 ≡ ok text)
  unfolding aes_gcm_encrypt aes_gcm_decrypt
  aes_gcm_opens laws k nonce ad text hn ht =
      let (out, e) = laws.gcm_seals k nonce ad text ht in
      let lengths : (length out.0 ≡ length text) × (length out.1 ≡ 16) =
        laws.gcm_lengths k nonce ad text e in
      (out, rw (hn, e), lengths.0, lengths.1, rw (hn, lengths.1, laws.gcm_opens k nonce ad text e))

  pub decrypt_chunk-encrypt_chunk_with_nonce :
      (laws : Laws p) (nonce chunk : List ℕ) (h : FileHeader) (n : ℕ)
      → length nonce ≡ nonce_len
      → IsHeader nonce_len h
      → 0 < length chunk
      → length chunk ≤ max_chunk_len
      → (cipher : List ℕ) × (encrypt_chunk_with_nonce p key nonce chunk h n ≡ ok cipher)
        × (length cipher ≡ nonce_len + length chunk + tag_len)
        × (decrypt_chunk p key cipher h n ≡ ok chunk)
  unfolding encrypt_chunk_with_nonce
  decrypt_chunk-encrypt_chunk_with_nonce laws nonce chunk h n hn hh h0 h1 =
      let k : List ℕ = drop header_reserved_len h.payload in
      let (out, e, l, t, d) =
        aes_gcm_opens laws k nonce (associated_data h n) chunk hn (omega arith) in
      let size : length (nonce ++ (out.0 ++ out.1)) ≡ 12 + length chunk + 16 =
        omega (arith, length-parts nonce out.0 out.1) in
      (
        nonce ++ (out.0 ++ out.1),
        rw (content_key_lem nonce_len hh, e) (ground (arith, size)),
        size,
        rw
            (
              decrypt_chunk-parts nonce out.0 out.1 h n hn t (omega arith) (omega arith),
              content_key_lem nonce_len hh,
            )
            d,
      )

  -- With lawful primitives, a well-formed header and entropy for a nonce, every chunk of 1 to 32768
  -- bytes encrypts under AES-GCM to 28 bytes more, using up the nonce's entropy, and the result
  -- decrypts under the same header and number to the chunk.
  pub decrypt_chunk-encrypt_chunk :
      (laws : Laws p) (rng : Rng) (chunk : List ℕ) (h : FileHeader) (n : ℕ)
      → nonce_len ≤ length rng
      → IsHeader nonce_len h
      → 0 < length chunk
      → length chunk ≤ max_chunk_len
      → (cipher : List ℕ) × (encrypt_chunk p key rng chunk h n ≡ ok (cipher, drop nonce_len rng))
        × (length cipher ≡ length chunk + 28)
        × (decrypt_chunk p key cipher h n ≡ ok chunk)
  unfolding encrypt_chunk
  decrypt_chunk-encrypt_chunk laws rng chunk h n hr hh h0 h1 =
      let (cipher, e, l, d) =
        decrypt_chunk-encrypt_chunk_with_nonce laws (take nonce_len rng) chunk h n
          (omega (arith, length-take 12 rng)) hh h0 h1 in
      (cipher, ground (arith, try_fill_bytes_lem rng 12 hr, e), omega arith, d)

  -- With lawful primitives, a well-formed header encrypts under AES-GCM to 68 bytes, which decrypt
  -- to it.
  pub decrypt_header-encrypt_header :
      (laws : Laws p) (h : FileHeader)
      → IsHeader nonce_len h
      → (bytes : List ℕ) × (encrypt_header p key h ≡ ok bytes)
        × (length bytes ≡ encrypted_header_len)
        × (decrypt_header p key bytes ≡ ok h)
  unfolding encrypt_header decrypt_header
  decrypt_header-encrypt_header laws h hh =
      let (out, e, l, t, d) =
        aes_gcm_opens laws (enc_key key) h.nonce [] h.payload hh.nonce_size (omega arith) in
      let size : length (h.nonce ++ (out.0 ++ out.1)) ≡ 68 =
        omega (arith, length-parts h.nonce out.0 out.1) in
      let payload : length out.0 ≡ 40 = omega arith in
      (
        h.nonce ++ (out.0 ++ out.1),
        rw e (ground (arith, size)),
        size,
        rw (
          size,
          take-append 12 h.nonce (out.0 ++ out.1) hh.nonce_size,
          drop-append 12 h.nonce (out.0 ++ out.1) hh.nonce_size,
          take-append 40 out.0 out.1 payload,
          drop-parts h.nonce out.0 out.1 52 (omega arith),
          d,
        ),
      )
