-- ===== src/Crypto/SivCtrMac/RoundTrip.antt =====
-- What AES-CTR with HMAC writes, decryption reads back (src/crypto/siv_ctrmac.rs).
use cryptomator_rs.Common.{
  ℕ, ◌+◌, ◌-◌, ◌≤◌, ◌<◌, ◌≡◌, sym, List, ◌++◌, length, take, drop, ok, ◌>>=◌, ◌>>◌, guard, arith,
  take-append, drop-append, length-take, length-parts, take-parts, drop-parts, eq_bytes,
  eq_bytes_self, chunk_mac_mismatch,
}
use cryptomator_rs.Crypto.{FileHeader, IsHeader, header_reserved_len, content_key, content_key_lem}
use cryptomator_rs.Crypto.SivCtrMac.{
  nonce_len, mac_len, max_chunk_len, encrypted_header_len, mac_input, aes_ctr, chunk_hmac,
  encrypt_chunk_with_nonce, encrypt_header, decrypt_header, encrypt_chunk, decrypt_chunk,
}
use cryptomator_rs.Key.{MasterKey, enc_key, mac_key}
use cryptomator_rs.Primitives.{Primitives, Laws, message_limit}
use cryptomator_rs.Rng.{Rng, try_fill_bytes_lem}

module _ (p : Primitives) (key : MasterKey) where
  decrypt_chunk-parts :
      (nonce cipher mac : List ℕ) (h : FileHeader) (n : ℕ)
      → length nonce ≡ nonce_len
      → length mac ≡ mac_len
      → 0 < length cipher
      → length cipher ≤ max_chunk_len
      → decrypt_chunk p key (nonce ++ (cipher ++ mac)) h n ≡ (
          guard (eq_bytes (chunk_hmac p key (nonce ++ cipher) h n) mac) chunk_mac_mismatch
          >> (content_key h >>= λ k. aes_ctr p key cipher k nonce))
  unfolding decrypt_chunk
  decrypt_chunk-parts nonce cipher mac h n hn ht h0 h1 =
      let total : length (nonce ++ (cipher ++ mac)) - 32 ≡ length nonce + length cipher =
        omega (arith, length-parts nonce cipher mac) in
      rw
        (
          take-parts nonce cipher mac (length (nonce ++ (cipher ++ mac)) - 32) (sym total),
          drop-parts nonce cipher mac (length (nonce ++ (cipher ++ mac)) - 32) (sym total),
          take-append 16 nonce cipher hn,
          drop-append 16 nonce cipher hn,
        )
        (ground (arith, length-parts nonce cipher mac))

  aes_ctr_involutive :
      (laws : Laws p) (k nonce text : List ℕ)
      → length nonce ≡ nonce_len
      → length text ≤ message_limit
      → (out : List ℕ) × (aes_ctr p key text k nonce ≡ ok out)
        × (length out ≡ length text)
        × (aes_ctr p key out k nonce ≡ ok text)
  unfolding aes_ctr
  aes_ctr_involutive laws k nonce text hn ht =
      let (out, e) = laws.ctr_applies k nonce text ht in
      (out, rw (hn, e), laws.ctr_length k nonce text e, rw (hn, laws.ctr_involutive k nonce text e))

  length-chunk_hmac :
      (laws : Laws p) (bytes : List ℕ) (h : FileHeader) (n : ℕ)
      → length (chunk_hmac p key bytes h n) ≡ mac_len
  unfolding chunk_hmac
  length-chunk_hmac laws bytes h n = laws.hmac_length (mac_key key) (mac_input bytes h n)

  pub decrypt_chunk-encrypt_chunk_with_nonce :
      (laws : Laws p) (nonce chunk : List ℕ) (h : FileHeader) (n : ℕ)
      → length nonce ≡ nonce_len
      → IsHeader nonce_len h
      → 0 < length chunk
      → length chunk ≤ max_chunk_len
      → (cipher : List ℕ) × (encrypt_chunk_with_nonce p key nonce chunk h n ≡ ok cipher)
        × (length cipher ≡ nonce_len + length chunk + mac_len)
        × (decrypt_chunk p key cipher h n ≡ ok chunk)
  unfolding encrypt_chunk_with_nonce
  decrypt_chunk-encrypt_chunk_with_nonce laws nonce chunk h n hn hh h0 h1 =
      let k : List ℕ = drop header_reserved_len h.payload in
      let (out, e, l, d) = aes_ctr_involutive laws k nonce chunk hn (omega arith) in
      let mac : List ℕ = chunk_hmac p key (nonce ++ out) h n in
      let t : length mac ≡ 32 = length-chunk_hmac laws (nonce ++ out) h n in
      let size : length (nonce ++ (out ++ mac)) ≡ 16 + length chunk + 32 =
        omega (arith, length-parts nonce out mac) in
      (
        nonce ++ (out ++ mac),
        rw (content_key_lem nonce_len hh, e) (ground (arith, size)),
        size,
        rw
            (
              decrypt_chunk-parts nonce out mac h n hn t (omega arith) (omega arith),
              eq_bytes_self mac,
              content_key_lem nonce_len hh,
            )
            d,
      )

  -- With lawful primitives, a well-formed header and entropy for a nonce, every chunk of 1 to 32768
  -- bytes encrypts under AES-CTR with HMAC to 48 bytes more, using up the nonce's entropy, and the
  -- result decrypts under the same header and number to the chunk.
  pub decrypt_chunk-encrypt_chunk_ctr :
      (laws : Laws p) (rng : Rng) (chunk : List ℕ) (h : FileHeader) (n : ℕ)
      → nonce_len ≤ length rng
      → IsHeader nonce_len h
      → 0 < length chunk
      → length chunk ≤ max_chunk_len
      → (cipher : List ℕ) × (encrypt_chunk p key rng chunk h n ≡ ok (cipher, drop nonce_len rng))
        × (length cipher ≡ length chunk + 48)
        × (decrypt_chunk p key cipher h n ≡ ok chunk)
  unfolding encrypt_chunk
  decrypt_chunk-encrypt_chunk_ctr laws rng chunk h n hr hh h0 h1 =
      let (cipher, e, l, d) =
        decrypt_chunk-encrypt_chunk_with_nonce laws (take nonce_len rng) chunk h n
          (omega (arith, length-take 16 rng)) hh h0 h1 in
      (cipher, ground (arith, try_fill_bytes_lem rng 16 hr, e), omega arith, d)

  -- With lawful primitives, a well-formed header encrypts under AES-CTR with HMAC to 88 bytes,
  -- which decrypt to it.
  pub decrypt_header-encrypt_header_ctr :
      (laws : Laws p) (h : FileHeader)
      → IsHeader nonce_len h
      → (bytes : List ℕ) × (encrypt_header p key h ≡ ok bytes)
        × (length bytes ≡ encrypted_header_len)
        × (decrypt_header p key bytes ≡ ok h)
  unfolding encrypt_header decrypt_header
  decrypt_header-encrypt_header_ctr laws h hh =
      let (out, e, l, d) =
        aes_ctr_involutive laws (enc_key key) h.nonce h.payload hh.nonce_size (omega arith) in
      let mac : List ℕ = p.hmac_sha256 (mac_key key) (h.nonce ++ out) in
      let t : length mac ≡ 32 = laws.hmac_length (mac_key key) (h.nonce ++ out) in
      let size : length (h.nonce ++ (out ++ mac)) ≡ 88 =
        omega (arith, length-parts h.nonce out mac) in
      let payload : length out ≡ 40 = omega arith in
      (
        h.nonce ++ (out ++ mac),
        rw e (ground (arith, size)),
        size,
        rw (
          size,
          take-parts h.nonce out mac 56 (omega arith),
          drop-parts h.nonce out mac 56 (omega arith),
          eq_bytes_self mac,
          take-append 16 h.nonce (out ++ mac) hh.nonce_size,
          drop-append 16 h.nonce (out ++ mac) hh.nonce_size,
          take-append 40 out mac payload,
          d,
        ),
      )
