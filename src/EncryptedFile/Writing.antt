-- ===== src/EncryptedFile/Writing.antt =====
-- `Write::write` of src/fs/encrypted_file.rs puts the buffer into the cleartext.
use cryptomator_rs.Common.{
  ℕ, ◌+◌, ◌%◌, ◌^◌, ◌<◌, ◌≡◌, refl, ◌==◌, List, length, Bool, true, false, if◌then◌else◌, ok, arith,
}
use cryptomator_rs.Crypto.{FileCryptor, FileHeader, IsHeader, IsLawful}
use cryptomator_rs.EncryptedFile.Layout.{length-Holds}
use cryptomator_rs.EncryptedFile.Loading.{Ready}
use cryptomator_rs.EncryptedFile.Merging.{written}
use cryptomator_rs.EncryptedFile.Slot.{Holds-same}
use cryptomator_rs.EncryptedFile.{write_file}
use cryptomator_rs.Os.{Os, try_write, seek_to, ciphertext_len}
use cryptomator_rs.Util.Size.Position.{encrypted_pos}
use cryptomator_rs.EncryptedFile.WriteChunk.{CanWrite, DidWrite, write_chunk_lem}

module _ (c : FileCryptor) {nonce_len : ℕ} (laws : IsLawful nonce_len c) (h : FileHeader) where
  -- Where a write begins: at the position, or at the end in append mode.
  abbrev pub write_pos : Bool → List ℕ → ℕ → ℕ
  write_pos append text p = if append then length text else p

  -- With a lawful cryptor, on a file that holds the cleartext `text`, at position `p` and without
  -- coming read failures, that may be locked and written to and has entropy for a nonce, under a
  -- well-formed header, with a buffer that is not empty and a grown file below 2^63 bytes, `write`
  -- succeeds. It reports the part of the buffer that reaches to the end of the chunk, and the file
  -- then holds `text` with this part spliced in at `p` (in append mode at the end), stands behind
  -- it, and has the same lock and write permission.
  pub write_file_lem :
      {text : List ℕ} (append : Bool) (p : ℕ) (buf : List ℕ) (s : Os)
      → Ready c h text p s
      → CanWrite c laws h s
      → try_write s ≡ (ok tt, s)
      → IsHeader nonce_len h
      → 0 < length buf
      → encrypted_pos c (length text + length buf) < 2 ^ 63
      → (t : Os) × (write_file c h append buf s
          ≡ (ok (written c laws h (write_pos append text p % c.max_chunk_len) buf), t))
        × DidWrite c laws h text (write_pos append text p) buf s t
  unfolding write_file ciphertext_len seek_to
  write_file_lem {text} false p buf s r can granted valid given small =
      let some_bytes : (length buf == 0) ≡ false = ground arith in
      let (t, e, d) = write_chunk_lem c laws h p buf s r can valid given small in
      (t, rw (granted, some_bytes) e, d)
  write_file_lem {text} true p buf s r can granted valid given small =
      let some_bytes : (length buf == 0) ≡ false = ground arith in
      let there : Os = record s { pos = length s.bytes } in
      let (t, e, d) =
        write_chunk_lem c laws h (length text) buf there
          (record {
            holds = Holds-same c h refl r.holds;
            position = length-Holds c h laws r.holds;
            inside = omega arith;
            no_fault = r.no_fault;
          })
          (record { writable = can.writable; entropy = can.entropy }) valid given small in
      (
        t,
        rw (granted, some_bytes) e,
        record {
          ready = d.ready;
          same_writable = d.same_writable;
          same_lock = d.same_lock;
          entropy_left = d.entropy_left;
        },
      )
