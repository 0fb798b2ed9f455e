-- ===== src/EncryptedFile/Replacing.antt =====
-- The chunk that `write` of src/fs/encrypted_file.rs puts in place of the one at the position: it
-- turns the cleartext from there on into the spliced one.
use mathlib.Core.Path.{subst}
use native.Mathlib.Decide.{dec_lt}
use cryptomator_rs.Common.{
  max, ℕ, ◌+◌, ◌*◌, ◌≤◌, ◌<◌, ◌≡◌, sym, ◌∙◌, ap, inl, inr, List, [], ◌∷◌, ◌++◌, append-nil, length,
  take, ok, arith, length-take, length-append, take_of_length-le,
}
use cryptomator_rs.Crypto.{FileCryptor, FileHeader, IsLawful}
use cryptomator_rs.EncryptedFile.Layout.{Chunk, AreChunks, cleartext}
use cryptomator_rs.EncryptedFile.Merging.{
  written, filled, front, replacement_end, replacement_present,
}
use cryptomator_rs.EncryptedFile.Present.{First-reaches, behind-First}
use cryptomator_rs.EncryptedFile.Slot.{First, first}
use cryptomator_rs.EncryptedFile.Storing.{others, Covers}
use cryptomator_rs.EncryptedFile.Text.{splice, length-splice, splice-append_right}
use cryptomator_rs.EncryptedFile.{replacement}
use cryptomator_rs.Os.{Os}
use cryptomator_rs.Util.Size.Position.{encrypted_len, encrypted_pos}

module _ (c : FileCryptor) {nonce_len : ℕ} (laws : IsLawful nonce_len c) (h : FileHeader) where
  -- The part of the buffer that goes into the chunk at offset `o`.
  abbrev pub part : ℕ → List ℕ → List ℕ
  part o buf = take (written c laws h o buf) buf

  pub record Replaced (k o : ℕ) (buf : List ℕ) (after : List Chunk) : Type 0 where
    pub chunk : List ℕ
    pub returned :
        (s : Os)
        → replacement c h (filled c laws h after) (front c laws h after) k o buf s
          ≡ (ok (chunk, written c laws h o buf), s)
    pub covers : Covers c laws h chunk after
    pub content :
        chunk ++ cleartext (others c laws h after) ≡ splice (cleartext after) o (part o buf)
    pub positive : 0 < length chunk
    pub bounded : length chunk ≤ c.max_chunk_len
    -- The cleartext that was read.
    pub old_len : ℕ
    pub old_inside : old_len ≤ length (cleartext after)
    pub behind :
        encrypted_pos c (k * c.max_chunk_len) + length (front c laws h after)
        ≡ encrypted_pos c (k * c.max_chunk_len + old_len)

  pub length-part : (o : ℕ) (buf : List ℕ) → length (part o buf) ≡ written c laws h o buf
  length-part o buf = omega (arith, length-take (written c laws h o buf) buf)

  Replaced-end : (k : ℕ) (buf : List ℕ) → 0 < length buf → Replaced k 0 buf []
  Replaced-end k buf given =
      let size : length (splice [] 0 (part 0 buf)) ≡ written c laws h 0 buf =
        omega (arith, length-splice [] 0 (part 0 buf) (omega arith), length-part 0 buf) in
      let stay : k * c.max_chunk_len ≡ k * c.max_chunk_len + 0 = omega arith in
      record {
        chunk = splice [] 0 (part 0 buf);
        returned = λ s. replacement_end c laws h k buf s;
        covers = tt;
        content = append-nil (splice [] 0 (part 0 buf));
        positive = omega (arith, laws.chunk_positive);
        bounded = omega arith;
        old_len = 0;
        old_inside = omega arith;
        behind = omega (
          arith,
          ap length (take_of_length-le {A = ℕ} c.max_encrypted_chunk_len [] (omega arith)),
          ap (encrypted_len c) stay,
        );
      }

  Replaced-present :
      (k o : ℕ) (buf : List ℕ) (x : Chunk) (xs : List Chunk)
      → First c h laws k x xs
      → 0 < length buf
      → o < c.max_chunk_len
      → o ≤ length x.1
      → Replaced k o buf (x ∷ xs)
  Replaced-present k o buf x xs f given lt le =
      let size : length (splice x.1 o (part o buf))
          ≡ max (length x.1) (o + written c laws h o buf) =
        length-splice x.1 o (part o buf) le
        ∙ ap (λ n. max (length x.1) (o + n)) (length-part o buf) in
      record {
        chunk = splice x.1 o (part o buf);
        returned = λ s. replacement_present c laws h k o x xs buf s f le;
        covers = elim (dec_lt (length x.1) c.max_chunk_len) [
          | yes short ↦ inr (f.last_or_full short, omega arith)
          | no full ↦ inl (omega (arith, f.bounded))
        ];
        content = sym (
            splice-append_right x.1 (cleartext xs) o (part o buf) le
              (elim (dec_lt (length x.1) c.max_chunk_len) [
                | yes short ↦ inr (ap cleartext (f.last_or_full short))
                | no full ↦ inl (omega (arith, length-part o buf))
              ]));
        positive = omega (arith, f.positive);
        bounded = omega (arith, f.bounded);
        old_len = length x.1;
        old_inside = omega (arith, length-append x.1 (cleartext xs));
        behind =
            ap (λ b. encrypted_pos c (k * c.max_chunk_len) + length b) f.whole
            ∙ behind-First c laws h k x xs f;
      }

  pub replaced :
      (k o : ℕ) (buf : List ℕ) (after : List Chunk)
      → AreChunks c h k after
      → 0 < length buf
      → o < c.max_chunk_len
      → o ≤ length (cleartext after)
      → Replaced k o buf after
  replaced k o buf [] a given lt le =
      subst (λ z. Replaced k z buf []) (omega arith) (Replaced-end k buf given)
  replaced k o buf (x ∷ xs) a given lt le =
      let f : First c h laws k x xs = first c h laws k x xs a in
      Replaced-present k o buf x xs f given lt (First-reaches c laws h k o x xs f lt le)
