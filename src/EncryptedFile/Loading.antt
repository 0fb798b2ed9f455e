-- ===== src/EncryptedFile/Loading.antt =====
-- The steps that `read` and `write` of src/fs/encrypted_file.rs begin with: going to the start of
-- the chunk, and loading it.
use native.Mathlib.Nat.{div-add-mod'}
use cryptomator_rs.Common.{
  ℕ, ◌+◌, ◌*◌, ◌/◌, ◌%◌, ◌≤◌, ◌≡◌, sym, ◌∙◌, ap, inl, inr, min, List, ◌++◌, length, take, drop,
  Bool-cases, ltb, leb, ok, arith, length-append, drop-append,
}
use cryptomator_rs.Crypto.{FileCryptor, FileHeader, IsLawful}
use cryptomator_rs.EncryptedFile.Layout.{Chunk, ciphertext, Holds}
use cryptomator_rs.EncryptedFile.Seeking.{at, length-text-lt, seek_start_lem}
use cryptomator_rs.EncryptedFile.Slot.{Slot}
use cryptomator_rs.EncryptedFile.{align, fill}
use cryptomator_rs.Os.Reading.{NoFault, Same, HasRead, try_read_exact-HasRead}
use cryptomator_rs.Os.{Os}
use cryptomator_rs.Util.Size.Position.{encrypted_pos}

-- A file at a cleartext position, whose reads do not fail.
pub record Ready (c : FileCryptor) (h : FileHeader) (text : List ℕ) (p : ℕ) (s : Os) : Type 0 where
  pub holds : Holds c h s text
  pub position : s.pos ≡ encrypted_pos c p
  pub inside : p ≤ length text
  pub no_fault : NoFault s.read_events

-- The start of the chunk that holds a position.
abbrev pub chunk_start : FileCryptor → ℕ → ℕ
chunk_start c p = p / c.max_chunk_len * c.max_chunk_len

module _ (c : FileCryptor) {nonce_len : ℕ} (laws : IsLawful nonce_len c) (h : FileHeader)
    (text : List ℕ) where
  -- `align` puts the file at the start of the chunk.
  pub align_lem :
      (p : ℕ) (s : Os) → Ready c h text p s → align c h p s ≡ (ok tt, at c (chunk_start c p) s)
  unfolding align
  align_lem p s r =
      let parts : chunk_start c p + p % c.max_chunk_len ≡ p = div-add-mod' p c.max_chunk_len in
      elim (Bool-cases (ltb 0 (p % c.max_chunk_len))) [
        | inl partway ↦
            let q : min (chunk_start c p) (length text) ≡ chunk_start c p =
              omega (arith, r.inside) in
            rw (
              partway,
              seek_start_lem c laws s r.holds p (chunk_start c p) r.position r.inside
                  (omega (arith, length-text-lt c laws s r.holds, r.inside)),
              q,
            )
        | inr boundary ↦
            let z : p % c.max_chunk_len ≡ 0 = ground arith in
            rw boundary (
              ap (λ k. (ok tt, record s { pos = k }))
                (r.position ∙ ap (encrypted_pos c) (sym (omega arith))))
      ]

  -- What is left of the file at the start of chunk `k`.
  pub drop-Slot :
      (k : ℕ) (s : Os) (u : Slot c h k s text)
      → drop (encrypted_pos c (k * c.max_chunk_len)) s.bytes ≡ ciphertext u.after
  drop-Slot k s u =
      ap (drop (encrypted_pos c (k * c.max_chunk_len))) u.layout
      ∙ drop-append (encrypted_pos c (k * c.max_chunk_len)) (u.head ++ ciphertext u.before)
          (ciphertext u.after) u.front_size

  -- What loading chunk `k` gives: the next ciphertext, up to one chunk.
  pub record Loaded (k : ℕ) (s s' : Os) (after : List Chunk) : Type 0 where
    pub returned : fill c.max_encrypted_chunk_len (at c (k * c.max_chunk_len) s) ≡ (
      ok (
        leb c.max_encrypted_chunk_len (length (ciphertext after)),
        take c.max_encrypted_chunk_len (ciphertext after),
      ),
      s',
    )
    pub same : Same s s'
    pub moved :
        s'.pos
        ≡ encrypted_pos c (k * c.max_chunk_len)
          + length (take c.max_encrypted_chunk_len (ciphertext after))
    pub no_fault : NoFault s'.read_events

  Loaded-of_HasRead :
      (k : ℕ) (s s' : Os) (u : Slot c h k s text)
      → NoFault s.read_events
      → HasRead c.max_encrypted_chunk_len (at c (k * c.max_chunk_len) s) s'
      → Loaded k s s' u.after
  unfolding fill
  Loaded-of_HasRead k s s' u nf done =
      let left : drop (encrypted_pos c (k * c.max_chunk_len)) s.bytes ≡ ciphertext u.after =
        drop-Slot k s u in
      record {
        returned =
            done.returned
            ∙ ap
                (λ xs. (
                  ok (leb c.max_encrypted_chunk_len (length xs), take c.max_encrypted_chunk_len xs),
                  s',
                ))
                left;
        same = record {
          same_bytes = done.same.same_bytes;
          same_lock = done.same.same_lock;
          same_writable = done.same.same_writable;
          same_entropy = done.same.same_entropy;
        };
        moved =
            done.moved
            ∙ ap
                (λ xs.
                  encrypted_pos c (k * c.max_chunk_len)
                  + length (take c.max_encrypted_chunk_len xs))
                left;
        no_fault = done.no_fault;
      }

  pub load :
      (k : ℕ) (s : Os) (u : Slot c h k s text)
      → NoFault s.read_events
      → (s' : Os) × Loaded k s s' u.after
  load k s u nf =
      let inside : encrypted_pos c (k * c.max_chunk_len) ≤ length s.bytes = omega (
        arith,
        u.front_size,
        ap length u.layout,
        length-append (u.head ++ ciphertext u.before) (ciphertext u.after),
      ) in
      let (s', done) =
        try_read_exact-HasRead c.max_encrypted_chunk_len (at c (k * c.max_chunk_len) s) inside nf in
      (s', Loaded-of_HasRead k s s' u nf done)
