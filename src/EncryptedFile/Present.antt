-- ===== src/EncryptedFile/Present.antt =====
-- The chunk at a position before the end of the cleartext of a file of src/fs/encrypted_file.rs.
use native.Mathlib.Decide.{dec_lt}
use native.Mathlib.Nat.{mod-lt}
use cryptomator_rs.Common.{
  ℕ, ◌+◌, ◌*◌, ◌/◌, ◌%◌, ◌≤◌, ◌<◌, ◌≡◌, refl, ap, List, [], ◌∷◌, length, arith, length-append,
}
use cryptomator_rs.Crypto.{FileCryptor, FileHeader, IsLawful}
use cryptomator_rs.EncryptedFile.Layout.{Chunk, AreChunks, cleartext}
use cryptomator_rs.EncryptedFile.Slot.{First, first}
use cryptomator_rs.Util.Size.Position.{
  overhead, encrypted_pos, encrypted_len-mul, encrypted_len-mul-add, encrypted_len_short,
}

module _ (c : FileCryptor) {nonce_len : ℕ} (laws : IsLawful nonce_len c) (h : FileHeader) where
  -- Behind a chunk the file stands at a cleartext position again.
  pub behind_chunk :
      (k m n : ℕ)
      → n ≡ m + overhead c
      → 0 < m
      → m ≤ c.max_chunk_len
      → encrypted_pos c (k * c.max_chunk_len) + n ≡ encrypted_pos c (k * c.max_chunk_len + m)
  behind_chunk k m n size given le = omega (
    arith,
    encrypted_len-mul c laws k,
    encrypted_len-mul-add c laws k m,
    encrypted_len_short c laws m given le,
  )

  pub behind-First :
      (k : ℕ) (x : Chunk) (xs : List Chunk)
      → First c h laws k x xs
      → encrypted_pos c (k * c.max_chunk_len) + length x.0
        ≡ encrypted_pos c (k * c.max_chunk_len + length x.1)
  behind-First k x xs f = behind_chunk k (length x.1) (length x.0) f.size f.positive f.bounded

  pub First-reaches :
      (k o : ℕ) (x : Chunk) (xs : List Chunk)
      → First c h laws k x xs
      → o < c.max_chunk_len
      → o ≤ length (cleartext (x ∷ xs))
      → o ≤ length x.1
  First-reaches k o x xs f lt le = elim (dec_lt (length x.1) c.max_chunk_len) [
    | yes short ↦ omega (
      arith,
      length-append x.1 (cleartext xs),
      ap (λ cs. length (cleartext cs)) (f.last_or_full short),
    )
    | no full ↦ omega arith
  ]

  -- The first chunk of a slot that the end of the cleartext lies behind.
  pub record Present (p : ℕ) (after : List Chunk) : Type 0 where
    pub chunk : Chunk
    pub others : List Chunk
    pub shape : after ≡ chunk ∷ others
    pub is_first : First c h laws (p / c.max_chunk_len) chunk others
    pub reaches : p % c.max_chunk_len ≤ length chunk.1

  pub present :
      (p : ℕ) (after : List Chunk)
      → AreChunks c h (p / c.max_chunk_len) after
      → p % c.max_chunk_len < length (cleartext after)
      → Present p after
  present p [] a lt = absurd (omega arith)
  present p (x ∷ xs) a lt =
      let f : First c h laws (p / c.max_chunk_len) x xs =
        first c h laws (p / c.max_chunk_len) x xs a in
      record {
        chunk = x;
        others = xs;
        shape = refl;
        is_first = f;
        reaches =
            First-reaches (p / c.max_chunk_len) (p % c.max_chunk_len) x xs f
              (mod-lt p {m = c.max_chunk_len} laws.chunk_positive) (omega arith);
      }
