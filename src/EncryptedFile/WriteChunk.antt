-- ===== src/EncryptedFile/WriteChunk.antt =====
-- The body of `Write::write` of src/fs/encrypted_file.rs, behind its early return.
use native.Mathlib.Nat.{div-add-mod', mod-lt}
use mathlib.Core.Path.{subst}
use cryptomator_rs.Common.{
  ℕ, ◌+◌, ◌*◌, ◌/◌, ◌%◌, ◌^◌, ◌≤◌, ◌<◌, ◌≡◌, refl, sym, ◌∙◌, ap, min, max, List, ◌++◌, length, drop,
  ok, arith, length-append,
}
use cryptomator_rs.Crypto.{FileCryptor, FileHeader, IsHeader, IsLawful}
use cryptomator_rs.EncryptedFile.Layout.{cleartext, Holds}
use cryptomator_rs.EncryptedFile.Loading.{Ready, chunk_start, align_lem, Loaded, load}
use cryptomator_rs.EncryptedFile.Merging.{written}
use cryptomator_rs.EncryptedFile.Present.{behind_chunk}
use cryptomator_rs.EncryptedFile.Replacing.{part, length-part, Replaced, replaced}
use cryptomator_rs.EncryptedFile.Seeking.{at, cleartext_pos_lem, length-text-lt, seek_start_lem}
use cryptomator_rs.EncryptedFile.Slot.{Slot, slot, Holds-same}
use cryptomator_rs.EncryptedFile.Storing.{
  others, new_text, write_all-Holds, encrypt_lem, write_all_lem,
}
use cryptomator_rs.EncryptedFile.Text.{splice, length-splice, splice-append_left}
use cryptomator_rs.EncryptedFile.{encrypt, seek_start, write_chunk}
use cryptomator_rs.Os.{anywhere, Os, write_at}
use cryptomator_rs.Util.Size.Position.{overhead, encrypted_len, encrypted_pos, encrypted_len_mono}

module _ (c : FileCryptor) {nonce_len : ℕ} (laws : IsLawful nonce_len c) (h : FileHeader) where
  -- What the file has for a write: it may be written to, and there is entropy for a nonce.
  pub record CanWrite (s : Os) : Type 0 where
    pub writable : s.writable ≡ anywhere
    pub entropy : nonce_len ≤ length s.entropy

  -- What a write of `buf` at position `p` has done: the part of the buffer up to the chunk's end
  -- stands in the cleartext, and the file is behind it.
  pub record DidWrite (text : List ℕ) (p : ℕ) (buf : List ℕ) (s t : Os) : Type 0 where
    pub ready :
        Ready c h
          (splice text p (part c laws h (p % c.max_chunk_len) buf))
          (p + written c laws h (p % c.max_chunk_len) buf)
          t
    pub same_writable : t.writable ≡ s.writable
    pub same_lock : t.lock ≡ s.lock
    pub entropy_left : t.entropy ≡ drop nonce_len s.entropy

  -- The cleartext behind the replacement of a chunk.
  new_text-splice :
      {text : List ℕ} (p : ℕ) (buf : List ℕ) {s : Os} (u : Slot c h (p / c.max_chunk_len) s text)
      → (x : Replaced c laws h (p / c.max_chunk_len) (p % c.max_chunk_len) buf u.after)
      → new_text c laws h u.before x.chunk u.after
        ≡ splice text p (part c laws h (p % c.max_chunk_len) buf)
  new_text-splice p buf u x =
      ap (◌++◌ (cleartext u.before)) x.content
      ∙ sym (
          splice-append_left (cleartext u.before) (cleartext u.after) p (p % c.max_chunk_len)
            (part c laws h (p % c.max_chunk_len) buf)
            (omega (arith, u.clear_size, div-add-mod' p c.max_chunk_len)))
      ∙ ap (λ z. splice z p (part c laws h (p % c.max_chunk_len) buf)) (sym u.content)

  -- The file behind writing the encrypted chunk, before the last seek.
  abbrev stored : ℕ → List ℕ → Os → Os
  stored k cipher s = record s {
    bytes = write_at s.bytes (encrypted_pos c (k * c.max_chunk_len)) cipher;
    pos = encrypted_pos c (k * c.max_chunk_len) + length cipher;
  }

  -- The last seek goes to the end of what was written.
  seek_behind :
      {text : List ℕ} (p wr m : ℕ) (t : Os)
      → Holds c h t text
      → t.pos ≡ encrypted_pos c m
      → m ≤ length text
      → p + wr ≤ length text
      → seek_start c (p + wr) t ≡ (ok (p + wr), at c (p + wr) t)
  seek_behind {text} p wr m t v here le inside =
      let q : min (p + wr) (length text) ≡ p + wr = omega arith in
      seek_start_lem c laws t v m (p + wr) here le (omega (arith, length-text-lt c laws t v))
      ∙ ap (λ n. (ok n, at c n t)) q

  -- An encryption of a chunk, and the file behind it.
  abbrev Encrypts : ℕ → List ℕ → List ℕ → Os → Type 0
  Encrypts k w cipher s =
      (encrypt c h w k s ≡ (ok cipher, record s { entropy = drop nonce_len s.entropy }))
      × (length cipher ≡ length w + overhead c)
      × (c.decrypt_chunk cipher h k ≡ ok w)

  length-new :
      (text : List ℕ) (p : ℕ) (buf : List ℕ)
      → p ≤ length text
      → length (splice text p (part c laws h (p % c.max_chunk_len) buf))
        ≡ max (length text) (p + written c laws h (p % c.max_chunk_len) buf)
  length-new text p buf le =
      length-splice text p (part c laws h (p % c.max_chunk_len) buf) le
      ∙ ap (λ n. max (length text) (p + n)) (length-part c laws h (p % c.max_chunk_len) buf)

  stored-Holds :
      {text : List ℕ} (p : ℕ) (buf : List ℕ) (s s1 : Os)
      → (u : Slot c h (p / c.max_chunk_len) s text) → Ready c h text p s
      → (x : Replaced c laws h (p / c.max_chunk_len) (p % c.max_chunk_len) buf u.after)
      → (cipher : List ℕ) → s1.bytes ≡ s.bytes
      → c.decrypt_chunk cipher h (p / c.max_chunk_len) ≡ ok x.chunk
      → encrypted_pos c (length text + length buf) < 2 ^ 63
      → Holds c h
          (stored (p / c.max_chunk_len) cipher s1)
          (splice text p (part c laws h (p % c.max_chunk_len) buf))
  stored-Holds {text} p buf s s1 u r x cipher same_bytes d small =
      let same = new_text-splice p buf u x in
      let fits : encrypted_pos c (length (new_text c laws h u.before x.chunk u.after)) < 2 ^ 63 =
        omega (
          arith,
          ap (λ t. encrypted_len c (length t)) same,
          ap (encrypted_len c) (length-new text p buf r.inside),
          encrypted_len_mono c laws
              (max (length text) (p + written c laws h (p % c.max_chunk_len) buf))
              (length text + length buf) (omega (arith, r.inside)),
        ) in
      subst (Holds c h (stored (p / c.max_chunk_len) cipher s1)) same (
        write_all-Holds c laws h (p / c.max_chunk_len) s s1 u x.chunk cipher same_bytes x.covers d
          fits)

  write_chunk_of_Replaced :
      {text : List ℕ} (p : ℕ) (buf : List ℕ) (s s' : Os)
      → (u : Slot c h (p / c.max_chunk_len) s text) → Ready c h text p s
      → s.writable ≡ anywhere
      → (x : Replaced c laws h (p / c.max_chunk_len) (p % c.max_chunk_len) buf u.after)
      → Loaded c laws h text (p / c.max_chunk_len) s s' u.after
      → (cipher : List ℕ) → Encrypts (p / c.max_chunk_len) x.chunk cipher s'
      → encrypted_pos c (length text + length buf) < 2 ^ 63
      → (t : Os) × (write_chunk c h buf s ≡ (ok (written c laws h (p % c.max_chunk_len) buf), t))
        × DidWrite text p buf s t
  unfolding write_chunk
  write_chunk_of_Replaced {text} p buf s s' u r can x l cipher (e, size, d) small =
      let k : ℕ = p / c.max_chunk_len in
      let wr : ℕ = written c laws h (p % c.max_chunk_len) buf in
      let s1 : Os = record s' { entropy = drop nonce_len s'.entropy } in
      let parts : k * c.max_chunk_len + p % c.max_chunk_len ≡ p = div-add-mod' p c.max_chunk_len in
      let new_size = length-new text p buf r.inside in
      let total : k * c.max_chunk_len + length (cleartext u.after) ≡ length text = omega (
        arith,
        ap length u.content,
        u.clear_size,
        length-append (cleartext u.before) (cleartext u.after),
      ) in
      let q : min (k * c.max_chunk_len) (length text) ≡ k * c.max_chunk_len = omega arith in
      let back : seek_start c (k * c.max_chunk_len) s1
          ≡ (ok (k * c.max_chunk_len), at c (k * c.max_chunk_len) s1) =
        seek_start_lem c laws s1 (Holds-same c h l.same.same_bytes r.holds)
          (k * c.max_chunk_len + x.old_len) (k * c.max_chunk_len) (l.moved ∙ x.behind)
          (omega (arith, x.old_inside)) (omega (arith, length-text-lt c laws s r.holds))
        ∙ ap (λ n. (ok n, at c n s1)) q in
      let holds = stored-Holds p buf s s1 u r x cipher l.same.same_bytes d small in
      let go_on : seek_start c (p + wr) (stored k cipher s1)
          ≡ (ok (p + wr), at c (p + wr) (stored k cipher s1)) =
        seek_behind p wr (k * c.max_chunk_len + length x.chunk) (stored k cipher s1) holds
          (behind_chunk c laws h k (length x.chunk) (length cipher) size x.positive x.bounded)
          (omega (
            arith,
            ap length (new_text-splice p buf u x),
            length-append (cleartext u.before) (x.chunk ++ cleartext (others c laws h u.after)),
            length-append x.chunk (cleartext (others c laws h u.after)),
            u.clear_size,
          ))
          (omega arith) in
      (
        at c (p + wr) (stored k cipher s1),
        rw
            (
              cleartext_pos_lem c laws s p r.position
                  (omega (arith, length-text-lt c laws s r.holds, r.inside)),
              align_lem c laws h text p s r,
              l.returned,
              x.returned s',
              e,
              back,
              write_all_lem cipher (at c (k * c.max_chunk_len) s1) (l.same.same_writable ∙ can),
              go_on,
            )
            refl,
        record {
          ready = record {
            holds = Holds-same c h refl holds;
            position = refl;
            inside = omega arith;
            no_fault = l.no_fault;
          };
          same_writable = l.same.same_writable;
          same_lock = l.same.same_lock;
          entropy_left = ap (drop nonce_len) l.same.same_entropy;
        },
      )

  pub write_chunk_lem :
      {text : List ℕ} (p : ℕ) (buf : List ℕ) (s : Os)
      → Ready c h text p s
      → CanWrite s
      → IsHeader nonce_len h
      → 0 < length buf
      → encrypted_pos c (length text + length buf) < 2 ^ 63
      → (t : Os) × (write_chunk c h buf s ≡ (ok (written c laws h (p % c.max_chunk_len) buf), t))
        × DidWrite text p buf s t
  write_chunk_lem {text} p buf s r can valid given small =
      let parts : chunk_start c p + p % c.max_chunk_len ≡ p = div-add-mod' p c.max_chunk_len in
      let u : Slot c h (p / c.max_chunk_len) s text =
        slot c h laws (p / c.max_chunk_len) r.holds (omega (arith, r.inside)) in
      let (s', l) = load c laws h text (p / c.max_chunk_len) s u r.no_fault in
      let x : Replaced c laws h (p / c.max_chunk_len) (p % c.max_chunk_len) buf u.after =
        replaced c laws h (p / c.max_chunk_len) (p % c.max_chunk_len) buf u.after u.chunks given
          (mod-lt p {m = c.max_chunk_len} laws.chunk_positive)
          (omega (
            arith,
            ap length u.content,
            u.clear_size,
            length-append (cleartext u.before) (cleartext u.after),
            r.inside,
          )) in
      let (cipher, e, size, d) =
        encrypt_lem c laws h x.chunk (p / c.max_chunk_len) s' (rw l.same.same_entropy can.entropy)
          valid x.positive x.bounded in
      write_chunk_of_Replaced p buf s s' u r can.writable x l cipher (e, size, d) small
