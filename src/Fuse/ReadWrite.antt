-- ===== src/Fuse/ReadWrite.antt =====
-- Reading and writing open files by the handlers of src/fs/fuse.rs.
use mathlib.Core.Path.{subst}
use cryptomator_rs.Common.{
  ℕ, ◌+◌, ◌%◌, ◌^◌, ◌≤◌, ◌<◌, ◌==◌, ◌≡◌, refl, sym, ap, ◌∙◌, min, List, length, take, drop, some,
  true, false, if◌then◌else◌, Result, ok, panic, arith, pos,
}
use cryptomator_rs.Crypto.Cryptor.{nonce_len, file_cryptor-IsLawful}
use cryptomator_rs.Crypto.{IsHeader, IsLawful}
use cryptomator_rs.Disk.Handles.{Handle, OpenFile, os_of, store}
use cryptomator_rs.Disk.{World}
use cryptomator_rs.EncryptedFile.Loading.{Ready}
use cryptomator_rs.EncryptedFile.ReadWhole.{fill_cleartext, fill_cleartext_lem}
use cryptomator_rs.EncryptedFile.SeekTarget.{seek_file_lem}
use cryptomator_rs.EncryptedFile.Seeking.{at, length-text-lt}
use cryptomator_rs.EncryptedFile.Slot.{Holds-same}
use cryptomator_rs.EncryptedFile.Text.{splice, length-splice}
use cryptomator_rs.EncryptedFile.WriteRead.{take-splice_new}
use cryptomator_rs.EncryptedFile.WriteWhole.{CanWriteAll, write_cleartext, write_cleartext_lem}
use cryptomator_rs.EncryptedFile.{start, seek_file}
use cryptomator_rs.FileSystem.{cipher}
use cryptomator_rs.Fuse.Files.{
  seek_to_offset, at_handle, from_offset, read_here, write_here, read, write,
}
use cryptomator_rs.Fuse.{Mount, bytes, written, died, Handler, reply, set_key, on_open}
use cryptomator_rs.Os.Reading.{try_read-same}
use cryptomator_rs.Os.{Os, try_read}
use cryptomator_rs.Primitives.{Primitives, Laws}
use cryptomator_rs.Vault.{Vault, cryptor}

==_self : (n : ℕ) → (n == n) ≡ true
==_self n = ground arith

-- What is stored through a handle is what the moved handle sees.
os_of-store :
    (f : Handle) (s : Os) (w : World)
    → s.lock ≡ w.locks f.inode
    → s.writable ≡ f.writable
    → os_of (record f { pos = s.pos }) (store f s w) ≡ s
os_of-store f s w lock writable =
    ap
      (λ b. record s {
        bytes =
            (if b then record (w.inodes f.inode) { bytes = s.bytes } else w.inodes f.inode).bytes;
        lock = w.locks f.inode;
        writable = f.writable;
      })
      (==_self f.inode)
    ∙ ap (λ l. record s { lock = l; writable = f.writable }) (sym lock)
    ∙ ap (λ b. record s { writable = b }) (sym writable)

-- The open file and the mount behind a computation on the file that ended in state `s`.
abbrev pub moved : OpenFile → Os → OpenFile
moved e s = record e { handle = record e.handle { pos = s.pos } }

abbrev pub after : ℕ → OpenFile → Os → Mount → Mount
after fh e s m = record m {
  open_files = set_key fh (some (moved e s)) m.open_files;
  disk = store e.handle s m.disk;
}

on_open-ok :
    {A : Type 0} (fh : ℕ) (e : OpenFile) (action : Os → Result A × Os)
    (next : A → OpenFile → Handler)
    → (m : Mount) (a : A) (s : Os) → action (os_of e.handle m.disk) ≡ (ok a, s)
    → on_open fh e action next m ≡ next a (moved e s) (after fh e s m)
unfolding on_open
on_open-ok fh e action next m a s done = rw done refl

module _ (p : Primitives) (laws : Laws p) (v : Vault) where
  abbrev pub lawful : IsLawful (nonce_len (cryptor v)) (cipher p v)
  lawful = file_cryptor-IsLawful p laws (cryptor v)

  -- The handle is that of a file which holds the cleartext and may be read.
  pub record Serves (m : Mount) (fh : ℕ) (text : List ℕ) : Type 0 where
    pub file : OpenFile
    pub found : m.open_files fh ≡ some file
    pub position : ℕ
    pub ready : Ready (cipher p v) file.header text position (os_of file.handle m.disk)
    pub granted : try_read (os_of file.handle m.disk) ≡ (ok tt, os_of file.handle m.disk)

  -- The state that a seek to `n` leaves.
  abbrev pub seeked : {m : Mount} {fh : ℕ} {text : List ℕ} → ℕ → Serves m fh text → Os
  seeked {m} n o = at (cipher p v) n (os_of o.file.handle m.disk)

  -- After the seek.
  abbrev mount_at : {m : Mount} {fh : ℕ} {text : List ℕ} → ℕ → Serves m fh text → Mount
  mount_at {m} {fh} n o = after fh o.file (seeked n o) m

  abbrev file_at : {m : Mount} {fh : ℕ} {text : List ℕ} → ℕ → Serves m fh text → OpenFile
  file_at n o = moved o.file (seeked n o)

  small_offset : {m : Mount} {fh : ℕ} {text : List ℕ} (o : Serves m fh text) → length text < 2 ^ 63
  small_offset {m} {fh} {text} o =
      omega (arith, length-text-lt (cipher p v) lawful (os_of o.file.handle m.disk) o.ready.holds)

  os_of-seeked :
      {m : Mount} {fh : ℕ} {text : List ℕ} (n : ℕ) (o : Serves m fh text)
      → os_of (file_at n o).handle (mount_at n o).disk ≡ seeked n o
  os_of-seeked {m} n o = os_of-store o.file.handle (seeked n o) m.disk refl refl

  pub seeked-Ready :
      {m : Mount} {fh : ℕ} {text : List ℕ} (n : ℕ) (o : Serves m fh text)
      → n ≤ length text
      → Ready (cipher p v) o.file.header text n (seeked n o)
  seeked-Ready n o le = record {
    holds = Holds-same (cipher p v) o.file.header refl o.ready.holds;
    position = refl;
    inside = le;
    no_fault = o.ready.no_fault;
  }

  -- Seeking inside the cleartext goes on behind the assertions.
  seek_to_offset_lem :
      {m : Mount} {fh : ℕ} {text : List ℕ} (n : ℕ) (o : Serves m fh text)
      (next : OpenFile → Handler)
      → n ≤ length text
      → seek_to_offset p v fh (pos n) o.file next m ≡ next (file_at n o) (mount_at n o)
  unfolding seek_to_offset
  seek_to_offset_lem {m} {fh} {text} n o next le =
      let q : min n (length text) ≡ n = omega arith in
      on_open-ok fh o.file (seek_file (cipher p v) (start n))
        (λ position e'. if position == n then next e' else reply (died panic)) m n (seeked n o)
        (seek_file_lem (cipher p v) lawful o.file.header text (start n) o.position
            (os_of o.file.handle m.disk) o.ready o.granted (omega (arith, small_offset o))
          ∙ ap (λ k. (ok k, at (cipher p v) k (os_of o.file.handle m.disk))) q)
      ∙ ap (λ b. (if b then next (file_at n o) else reply (died panic)) (mount_at n o)) (==_self n)

  -- Behind the end of the cleartext the second assertion fails.
  seek_to_offset_beyond :
      {m : Mount} {fh : ℕ} {text : List ℕ} (n : ℕ) (o : Serves m fh text)
      (next : OpenFile → Handler)
      → length text < n
      → n < 2 ^ 63
      → seek_to_offset p v fh (pos n) o.file next m ≡ (died panic, mount_at (length text) o)
  unfolding seek_to_offset
  seek_to_offset_beyond {m} {fh} {text} n o next lt small =
      let q : min n (length text) ≡ length text = omega arith in
      let differ : (length text == n) ≡ false = ground arith in
      on_open-ok fh o.file (seek_file (cipher p v) (start n))
        (λ position e'. if position == n then next e' else reply (died panic)) m (length text)
        (seeked (length text) o)
        (seek_file_lem (cipher p v) lawful o.file.header text (start n) o.position
            (os_of o.file.handle m.disk) o.ready o.granted small
          ∙ ap (λ k. (ok k, at (cipher p v) k (os_of o.file.handle m.disk))) q)
      ∙ ap
          (λ b.
            (if b then next (file_at (length text) o) else reply (died panic))
              (mount_at (length text) o))
          differ

  at_handle_lem :
      {m : Mount} {fh : ℕ} {text : List ℕ} (o : Serves m fh text) (next : OpenFile → Handler)
      → at_handle fh next m ≡ next o.file m
  unfolding at_handle
  at_handle_lem o next = rw (at_handle, o.found) refl

  -- The mount behind a computation on the file serves what its state holds.
  Serves-after :
      (fh : ℕ) (e : OpenFile) (t : Os) (m : Mount) (text : List ℕ) (n : ℕ)
      → t.lock ≡ m.disk.locks e.handle.inode
      → t.writable ≡ e.handle.writable
      → Ready (cipher p v) e.header text n t
      → try_read t ≡ (ok tt, t)
      → Serves (after fh e t m) fh text
  Serves-after fh e t m text n lock writable r granted =
      let same : os_of (moved e t).handle (after fh e t m).disk ≡ t =
        os_of-store e.handle t m.disk lock writable in
      record {
        file = moved e t;
        found = ap (λ b. if b then some (moved e t) else m.open_files fh) (==_self fh);
        position = n;
        ready = subst (Ready (cipher p v) e.header text n) (sym same) r;
        granted = subst (λ s. try_read s ≡ (ok tt, s)) (sym same) granted;
      }

  -- With lawful primitives, on a mount where the handle is that of a file that holds `text`, whose
  -- lock is free to read and whose reads do not fail, at an offset inside or at the end of `text`,
  -- the read request is answered by the bytes of `text` from the offset on, up to the size asked
  -- for, and the handle is then still that of a file that holds `text`.
  pub read_lem :
      (m : Mount) (fh : ℕ) (text : List ℕ) (o : Serves m fh text) (n size : ℕ)
      → n ≤ length text
      → (m' : Mount) × (read p v fh (pos n) size m ≡ (bytes (take size (drop n text)), m'))
        × Serves m' fh text
  unfolding read
  read_lem m fh text o n size le =
      let (t, done, b) =
        fill_cleartext_lem (cipher p v) lawful o.file.header text size n (seeked n o)
          (seeked-Ready n o le) (try_read-same _ (seeked n o) o.granted refl) in
      let m1 : Mount = mount_at n o in
      let e1 : OpenFile = file_at n o in
      (
        after fh e1 t m1,
        at_handle_lem o (λ e. seek_to_offset p v fh (pos n) e (read_here p v fh size))
            ∙ seek_to_offset_lem n o (read_here p v fh size) le
            ∙ on_open-ok fh e1 (fill_cleartext (cipher p v) e1.header size)
                (λ (_, buf) _. reply (bytes buf)) m1 _ t
                (ap (fill_cleartext (cipher p v) e1.header size) (os_of-seeked n o) ∙ done),
        Serves-after fh e1 t m1 text b.at_pos b.same_lock b.same_writable b.ready b.granted,
      )

  -- With lawful primitives, on a mount where the handle is that of a file that holds `text`, whose
  -- lock is free to read and whose reads do not fail, which is not in append mode, at an offset
  -- inside or at the end of `text`, and with a well-formed header, a lock free to write,
  -- permission, room below 2^63 bytes and entropy for the chunks that the data reaches into: the
  -- write request is answered by the length of the data (as a `u32`), and the handle is then that
  -- of a file that holds `text` with the data spliced in at the offset.
  pub write_lem :
      (m : Mount) (fh : ℕ) (text content : List ℕ) (o : Serves m fh text) (rounds n : ℕ)
      → (valid : IsHeader (nonce_len (cryptor v)) o.file.header) → o.file.append ≡ false
      → n ≤ length text
      → rounds ≤ length content
      → CanWriteAll (cipher p v) lawful o.file.header valid rounds text n content (seeked n o)
      → (m' : Mount) × (write p v fh (pos n) content m ≡ (written (length content % 2 ^ 32), m'))
        × Serves m' fh (splice text n content)
  unfolding write
  write_lem m fh text content o rounds n valid at_position le few can =
      let (t, done, d) =
        write_cleartext_lem (cipher p v) lawful o.file.header valid rounds text n content
          (seeked n o) few can in
      let m1 : Mount = mount_at n o in
      let e1 : OpenFile = file_at n o in
      (
        after fh e1 t m1,
        at_handle_lem o (λ e. seek_to_offset p v fh (pos n) e (write_here p v fh content))
            ∙ seek_to_offset_lem n o (write_here p v fh content) le
            ∙ on_open-ok fh e1 (write_cleartext (cipher p v) e1.header e1.append content)
                (λ _ _. reply (written (length content % 2 ^ 32))) m1 tt t
                (ap (write_cleartext (cipher p v) e1.header e1.append content) (os_of-seeked n o)
                  ∙ ap (λ a. write_cleartext (cipher p v) o.file.header a content (seeked n o))
                      at_position
                  ∙ done),
        Serves-after fh e1 t m1 (splice text n content) (n + length content) d.same_lock
            d.same_writable d.ready (try_read-same _ t o.granted d.same_lock),
      )

  -- With lawful primitives, on a mount where the handle is that of a file that holds `text`, whose
  -- lock is free to read and whose reads do not fail, which is not in append mode, at an offset
  -- inside or at the end of `text`, and with a well-formed header, a lock free to write,
  -- permission, room below 2^63 bytes and entropy for the chunks that the data reaches into: the
  -- write request is answered by the length of the data (as a `u32`), a read request of the data's
  -- length at the same offset is then answered by the data, and the file holds `text` with the data
  -- spliced in.
  pub read-write :
      (m : Mount) (fh : ℕ) (text content : List ℕ) (o : Serves m fh text) (rounds n : ℕ)
      → (valid : IsHeader (nonce_len (cryptor v)) o.file.header) → o.file.append ≡ false
      → n ≤ length text
      → rounds ≤ length content
      → CanWriteAll (cipher p v) lawful o.file.header valid rounds text n content (seeked n o)
      → (m' : Mount) × (m'' : Mount) × (write p v fh (pos n) content m
          ≡ (written (length content % 2 ^ 32), m'))
        × (read p v fh (pos n) (length content) m' ≡ (bytes content, m''))
        × Serves m'' fh (splice text n content)
  read-write m fh text content o rounds n valid at_position le few can =
      let (m', wrote, o') = write_lem m fh text content o rounds n valid at_position le few can in
      let (m'', reads, o'') =
        read_lem m' fh (splice text n content) o' n (length content)
          (omega (arith, length-splice text n content le)) in
      (m', m'', wrote, reads ∙ ap (λ xs. (bytes xs, m'')) (take-splice_new text n content le), o'')

  -- With lawful primitives, on a mount where the handle is that of a file that holds `text`, whose
  -- lock is free to read and whose reads do not fail, read and write requests at an offset behind
  -- the end of `text` and below 2^63 fail the assertion on the position and get no reply, and the
  -- file still holds `text`.
  pub beyond_end :
      (m : Mount) (fh : ℕ) (text content : List ℕ) (o : Serves m fh text) (n size : ℕ)
      → length text < n
      → n < 2 ^ 63
      → (m' : Mount) × (read p v fh (pos n) size m ≡ (died panic, m'))
        × (write p v fh (pos n) content m ≡ (died panic, m'))
        × Serves m' fh text
  unfolding read write
  beyond_end m fh text content o n size lt small =
      let s : Os = seeked (length text) o in
      let beyond : (next : OpenFile → Handler)
          → from_offset p v fh (pos n) next m ≡ (died panic, mount_at (length text) o) =
        λ next.
          at_handle_lem o (λ e. seek_to_offset p v fh (pos n) e next)
          ∙ seek_to_offset_beyond n o next lt small in
      (
        mount_at (length text) o,
        beyond (read_here p v fh size),
        beyond (write_here p v fh content),
        Serves-after fh o.file s m text (length text) refl refl
            (seeked-Ready (length text) o (omega arith)) (try_read-same _ s o.granted refl),
      )
