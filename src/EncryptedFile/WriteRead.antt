-- ===== src/EncryptedFile/WriteRead.antt =====
-- Writing to a file of src/fs/encrypted_file.rs, and reading back.
use native.Mathlib.Nat.{mod-lt}
use cryptomator_rs.Common.{
  ℕ, ◌+◌, ◌%◌, ◌^◌, ◌≤◌, ◌<◌, ◌≡◌, refl, ◌∙◌, ap, min, max, List, ◌++◌, length, take, drop, false,
  ok, arith, length-take, drop-append, take-append,
}
use cryptomator_rs.Crypto.{FileCryptor, FileHeader, IsHeader, IsLawful}
use cryptomator_rs.EncryptedFile.Loading.{Ready}
use cryptomator_rs.EncryptedFile.Merging.{written}
use cryptomator_rs.EncryptedFile.Reading.{span, read_file_lem}
use cryptomator_rs.EncryptedFile.Replacing.{part, length-part}
use cryptomator_rs.EncryptedFile.SeekTarget.{seek_file_lem}
use cryptomator_rs.EncryptedFile.Seeking.{at, length-text-lt}
use cryptomator_rs.EncryptedFile.Slot.{Holds-same}
use cryptomator_rs.EncryptedFile.Text.{splice, length-splice}
use cryptomator_rs.EncryptedFile.WriteChunk.{CanWrite}
use cryptomator_rs.EncryptedFile.Writing.{write_file_lem}
use cryptomator_rs.EncryptedFile.{seek_file, start, read_file, write_file}
use cryptomator_rs.Os.Reading.{try_read-try_write}
use cryptomator_rs.Os.{Os, try_write}
use cryptomator_rs.Util.Size.Position.{encrypted_pos}

-- What was written is what stands at the position.
pub take-splice_new :
    (text : List ℕ) (p : ℕ) (new : List ℕ)
    → p ≤ length text
    → take (length new) (drop p (splice text p new)) ≡ new
unfolding splice
take-splice_new text p new le =
    ap (take (length new)) (
      drop-append p (take p text) (new ++ drop (p + length new) text)
        (omega (arith, length-take p text)))
    ∙ take-append (length new) new (drop (p + length new) text) refl

module _ (c : FileCryptor) {nonce_len : ℕ} (laws : IsLawful nonce_len c) (h : FileHeader) where
  -- A read of the written length delivers what was written.
  read_back :
      (text : List ℕ) (p : ℕ) (buf : List ℕ)
      → p ≤ length text
      → take
          (span c laws h
            (splice text p (part c laws h (p % c.max_chunk_len) buf))
            (written c laws h (p % c.max_chunk_len) buf)
            p)
          (drop p (splice text p (part c laws h (p % c.max_chunk_len) buf)))
        ≡ part c laws h (p % c.max_chunk_len) buf
  read_back text p buf le =
      let new : List ℕ = part c laws h (p % c.max_chunk_len) buf in
      let q : span c laws h (splice text p new) (written c laws h (p % c.max_chunk_len) buf) p
          ≡ length new =
        omega (arith, length-part c laws h (p % c.max_chunk_len) buf) in
      ap (λ n. take n (drop p (splice text p new))) q ∙ take-splice_new text p new le

  -- With a lawful cryptor, on a file that holds a cleartext, at position `p` and without coming
  -- read failures, that may be locked and written to and has entropy for a nonce, under a
  -- well-formed header, with a buffer that is not empty and a grown file below 2^63 bytes: `write`
  -- succeeds and reports at least one byte, a seek back to `p` succeeds, and a `read` of as many
  -- bytes as were reported delivers that part of the buffer.
  pub read_file-write_file :
      {text : List ℕ} (p : ℕ) (buf : List ℕ) (s : Os)
      → Ready c h text p s
      → CanWrite c laws h s
      → try_write s ≡ (ok tt, s)
      → IsHeader nonce_len h
      → 0 < length buf
      → encrypted_pos c (length text + length buf) < 2 ^ 63
      → (n : ℕ) × (t : Os) × (t' : Os) × (t'' : Os) × (write_file c h false buf s ≡ (ok n, t))
        × (0 < n)
        × (seek_file c (start p) t ≡ (ok p, t'))
        × (read_file c h n t' ≡ (ok (take n buf), t''))
  read_file-write_file {text} p buf s r can granted valid given small =
      let o : ℕ = p % c.max_chunk_len in
      let new : List ℕ = splice text p (part c laws h o buf) in
      let (t, e, d) = write_file_lem c laws h false p buf s r can granted valid given small in
      let size : length new ≡ max (length text) (p + length (part c laws h o buf)) =
        length-splice text p (part c laws h o buf) r.inside in
      let q : min p (length new) ≡ p = omega (arith, r.inside) in
      let back : seek_file c (start p) t ≡ (ok p, at c p t) =
        seek_file_lem c laws h new (start p) (p + written c laws h o buf) t d.ready
          (try_read-try_write s t granted d.same_lock)
          (omega (arith, length-text-lt c laws s r.holds, r.inside))
        ∙ ap (λ n. (ok n, at c n t)) q in
      let (t'', out, e', did) =
        read_file_lem c laws h new (written c laws h o buf) p (at c p t)
          (record {
            holds = Holds-same c h refl d.ready.holds;
            position = refl;
            inside = omega (arith, r.inside);
            no_fault = d.ready.no_fault;
          })
          (try_read-try_write s (at c p t) granted d.same_lock) in
      (
        written c laws h o buf,
        t,
        at c p t,
        t'',
        e,
        omega (arith, mod-lt p {m = c.max_chunk_len} laws.chunk_positive),
        back,
        e' ∙ ap (λ xs. (ok xs, t'')) (did.delivered ∙ read_back text p buf r.inside),
      )
