-- ===== src/EncryptedFile/Merging.antt =====
-- The chunk that `write` of src/fs/encrypted_file.rs puts in the place of the one it read, in the
-- three cases of its `match`.
use native.Mathlib.Decide.{dec_lt}
use cryptomator_rs.Common.{
  ℕ, ◌+◌, ◌-◌, ◌≤◌, ◌<◌, ◌≡◌, sym, ◌∙◌, ap, ◌==◌, ◌&&◌, inl, inr, min, List, [], ◌∷◌, append-nil,
  length, take, Bool, true, false, Bool-cases, leb, le→leb, lt→not-leb, ok, arith, length-take,
  length-append, take_of_length-le, drop_of_length-le,
}
use cryptomator_rs.Crypto.{FileCryptor, FileHeader, IsLawful}
use cryptomator_rs.EncryptedFile.Layout.{Chunk, ciphertext}
use cryptomator_rs.EncryptedFile.Slot.{First}
use cryptomator_rs.EncryptedFile.Text.{splice, overwrite_lem, at_end_lem, within_last_lem}
use cryptomator_rs.EncryptedFile.{decrypt, replacement}
use cryptomator_rs.Os.{Os}

module _ (c : FileCryptor) {nonce_len : ℕ} (laws : IsLawful nonce_len c) (h : FileHeader) where
  -- How much of the buffer goes into the chunk: up to the chunk's end.
  abbrev pub written : ℕ → List ℕ → ℕ
  written o buf = min (length buf) (c.max_chunk_len - o)

  -- What was read of the file where the chunks `after` begin.
  abbrev pub filled : List Chunk → Bool
  filled after = leb c.max_encrypted_chunk_len (length (ciphertext after))

  abbrev pub front : List Chunk → List ℕ
  front after = take c.max_encrypted_chunk_len (ciphertext after)

  -- At the end of the file.
  pub replacement_end :
      (k : ℕ) (buf : List ℕ) (s : Os)
      → replacement c h (filled []) (front []) k 0 buf s
        ≡ (ok (splice [] 0 (take (written 0 buf) buf), written 0 buf), s)
  unfolding replacement
  replacement_end k buf s =
      let short : filled [] ≡ false = lt→not-leb _ _ (omega (arith, laws.chunk_overhead)) in
      let none_left : front [] ≡ [] = take_of_length-le {A = ℕ} _ [] (omega arith) in
      let q : min (length buf) c.max_chunk_len ≡ written 0 buf = omega arith in
      rw (short, none_left)
        (ap (λ r. (ok r, s)) (at_end_lem c.max_chunk_len buf)
          ∙ ap (λ n. (ok (splice [] 0 (take n buf), n), s)) q)

  -- In a chunk that is not full, which is the last.
  replacement_last :
      (k o : ℕ) (x : Chunk) (bytes : List ℕ) (buf : List ℕ) (s : Os)
      → bytes ≡ x.0
      → 0 < length x.0
      → c.decrypt_chunk x.0 h k ≡ ok x.1
      → o ≤ length x.1
      → length x.1 ≤ c.max_chunk_len
      → replacement c h false bytes k o buf s
        ≡ (ok (splice x.1 o (take (written o buf) buf), written o buf), s)
  unfolding replacement decrypt
  replacement_last k o x [] buf s e pos d le fits = absurd (omega (arith, ap length e))
  replacement_last k o x (b ∷ bytes) buf s e pos d le fits =
      rw (e, d) (ap (λ r. (ok r, s)) (within_last_lem c.max_chunk_len x.1 o buf le fits))

  -- A buffer that covers the whole chunk leaves nothing of it.
  splice_all :
      (old buf : List ℕ)
      → length old ≡ c.max_chunk_len
      → c.max_chunk_len ≤ length buf
      → take c.max_chunk_len buf ≡ splice old 0 (take (written 0 buf) buf)
  unfolding splice take
  splice_all old buf full covers =
      let q : written 0 buf ≡ c.max_chunk_len = omega arith in
      let size : length (take c.max_chunk_len buf) ≡ c.max_chunk_len =
        omega (arith, length-take c.max_chunk_len buf) in
      rw (q, drop_of_length-le (0 + length (take c.max_chunk_len buf)) old (omega arith))
        (sym (append-nil (take c.max_chunk_len buf)))

  -- In a full chunk, decrypted only where some of it stays.
  replacement_full :
      (k o : ℕ) (x : Chunk) (buf : List ℕ) (s : Os)
      → length x.1 ≡ c.max_chunk_len
      → c.decrypt_chunk x.0 h k ≡ ok x.1
      → o ≤ length x.1
      → replacement c h true x.0 k o buf s
        ≡ (ok (splice x.1 o (take (written o buf) buf), written o buf), s)
  unfolding replacement decrypt
  replacement_full k o x buf s full d le =
      elim (Bool-cases (o == 0 && leb c.max_chunk_len (length buf))) [
        | inl all ↦
            let start : o ≡ 0 = ground arith in
            let covers : c.max_chunk_len ≤ length buf = ground arith in
            let same : take c.max_chunk_len buf ≡ splice x.1 o (take (written o buf) buf) =
              splice_all x.1 buf full covers
              ∙ ap (λ z. splice x.1 z (take (written z buf) buf)) (sym start) in
            let size : length (take c.max_chunk_len buf) ≡ written o buf =
              omega (arith, length-take c.max_chunk_len buf) in
            rw all (λ i. (ok (same i, size i), s))
        | inr some_stay ↦
            rw (some_stay, d, le→leb o (length x.1) le)
              (ap (λ r. (ok r, s)) (overwrite_lem x.1 o buf)
                ∙ ap
                    (λ m. (
                      ok (
                        splice x.1 o (take (min (length buf) (m - o)) buf),
                        min (length buf) (m - o),
                      ),
                      s,
                    ))
                    full)
      ]

  -- In a chunk that exists, full or not.
  pub replacement_present :
      (k o : ℕ) (x : Chunk) (xs : List Chunk) (buf : List ℕ) (s : Os)
      → First c h laws k x xs
      → o ≤ length x.1
      → replacement c h (filled (x ∷ xs)) (front (x ∷ xs)) k o buf s
        ≡ (ok (splice x.1 o (take (written o buf) buf), written o buf), s)
  replacement_present k o x xs buf s f le = elim (dec_lt (length x.1) c.max_chunk_len) [
    | yes short ↦
        let alone : ciphertext xs ≡ [] = ap ciphertext (f.last_or_full short) in
        let part : filled (x ∷ xs) ≡ false = lt→not-leb _ _ (
          omega (
            arith,
            length-append x.0 (ciphertext xs),
            ap length alone,
            f.size,
            laws.chunk_overhead,
          )) in
        rw part (
          replacement_last k o x (front (x ∷ xs)) buf s f.whole (omega (arith, f.size, f.positive))
            f.decrypts le f.bounded)
    | no full ↦
        let size : length x.1 ≡ c.max_chunk_len = omega (arith, f.bounded) in
        let whole : filled (x ∷ xs) ≡ true =
          le→leb _ _
            (omega (arith, length-append x.0 (ciphertext xs), f.size, laws.chunk_overhead)) in
        rw (whole, f.whole) (replacement_full k o x buf s size f.decrypts le)
  ]
