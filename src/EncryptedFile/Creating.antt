-- ===== src/EncryptedFile/Creating.antt =====
-- Opening and creating a file (src/fs/encrypted_file.rs).
use cryptomator_rs.Common.{
  ℕ, ◌≤◌, ◌≡◌, refl, sym, ◌∙◌, ap, List, [], ◌++◌, length, take, drop, false, le→leb, ok, arith,
  length-append, take-append, drop_of_length-le,
}
use cryptomator_rs.Crypto.{FileCryptor, FileHeader, IsLawful}
use cryptomator_rs.EncryptedFile.Layout.{ciphertext, Holds}
use cryptomator_rs.EncryptedFile.Loading.{Ready}
use cryptomator_rs.EncryptedFile.Slot.{Holds-same}
use cryptomator_rs.EncryptedFile.Storing.{write_at-front, write_all_lem}
use cryptomator_rs.EncryptedFile.Opening.{read_exact, open_file, fresh_header, reopen, create_new}
use cryptomator_rs.EncryptedFile.{EncryptedFile, fill}
use cryptomator_rs.Os.Reading.{NoFault, HasRead, try_read_exact-HasRead, try_read-try_write}
use cryptomator_rs.Os.{anywhere, Os, try_read, try_write, write_at}
use cryptomator_rs.Rng.{Rng}
use cryptomator_rs.Util.Size.Position.{encrypted_len-zero}

module _ (c : FileCryptor) {nonce_len : ℕ} (laws : IsLawful nonce_len c) where
  -- The state of an open file: what it was opened with, and a cleartext with its position.
  pub record Opened (h : FileHeader) (text : List ℕ) (p : ℕ) (e : EncryptedFile) : Type 0 where
    pub same_cryptor : e.cryptor ≡ c
    pub same_header : e.header ≡ h
    pub no_append : e.append ≡ false
    pub ready : Ready c h text p e.file

  read_exact_lem :
      (n : ℕ) (s s' : Os)
      → n ≤ length (drop s.pos s.bytes)
      → HasRead n s s'
      → read_exact n s ≡ (ok (take n (drop s.pos s.bytes)), s')
  unfolding read_exact fill
  read_exact_lem n s s' le done = rw (done.returned, le→leb n (length (drop s.pos s.bytes)) le) refl

  -- With a lawful cryptor, a file at position 0 with a lock that is free to read and reads that do
  -- not fail, which holds a cleartext behind bytes that decrypt to the header `h`, opens: the open
  -- file has the cryptor and `h`, is not in append mode, holds the cleartext and is at its start.
  -- The state it leaves is that of the open file, with the lock that it had.
  pub open_file_lem :
      (h : FileHeader) (text header_bytes : List ℕ) (s : Os)
      → (v : Holds c h s text) → v.head ≡ header_bytes
      → c.decrypt_header header_bytes ≡ ok h
      → s.pos ≡ 0
      → try_read s ≡ (ok tt, s)
      → NoFault s.read_events
      → (t : Os) × (e : EncryptedFile) × (open_file c s ≡ (ok e, t))
        × (e.file ≡ t)
        × (t.lock ≡ s.lock)
        × Opened h text 0 e
  unfolding open_file drop
  open_file_lem h text header_bytes s v same d at_start granted nf =
      let (s', done) = try_read_exact-HasRead c.encrypted_header_len s (omega arith) nf in
      let whole : drop s.pos s.bytes ≡ header_bytes ++ ciphertext v.chunks =
        ap (λ n. drop n s.bytes) at_start ∙ v.layout ∙ ap (λ b. b ++ ciphertext v.chunks) same in
      let size : length header_bytes ≡ c.encrypted_header_len =
        ap length (sym same) ∙ v.head_size in
      let bytes : take c.encrypted_header_len (drop s.pos s.bytes) ≡ header_bytes =
        ap (take c.encrypted_header_len) whole
        ∙ take-append c.encrypted_header_len header_bytes (ciphertext v.chunks) size in
      let delivered : length (take c.encrypted_header_len (drop s.pos s.bytes))
          ≡ c.encrypted_header_len =
        ap length bytes ∙ size in
      (
        s',
        record { cryptor = c; file = s'; header = h; append = false },
        rw
            (
              granted,
              read_exact_lem c.encrypted_header_len s s'
                  (omega (arith, ap length whole, length-append header_bytes (ciphertext v.chunks)))
                  done,
              bytes,
              d,
            )
            refl,
        refl,
        done.same.same_lock,
        record {
          same_cryptor = refl;
          same_header = refl;
          no_append = refl;
          ready = record {
            holds = Holds-same c h done.same.same_bytes v;
            position = omega (arith, done.moved, encrypted_len-zero c laws);
            inside = omega arith;
            no_fault = done.no_fault;
          };
        },
      )

  -- The file behind the write of its header, opened again.
  abbrev with_header : List ℕ → Rng → Os → Os
  with_header header_bytes rng s = record s {
    bytes = write_at s.bytes s.pos header_bytes;
    pos = 0;
    entropy = rng;
  }

  with_header-Holds :
      (h : FileHeader) (header_bytes : List ℕ) (rng : Rng) (s : Os)
      → s.bytes ≡ []
      → s.pos ≡ 0
      → length header_bytes ≡ c.encrypted_header_len
      → (v : Holds c h (with_header header_bytes rng s) []) × (v.head ≡ header_bytes)
  with_header-Holds h header_bytes rng s empty at_start size =
      let layout : write_at s.bytes s.pos header_bytes ≡ header_bytes ++ [] =
        ap (λ b. write_at b s.pos header_bytes) empty
        ∙ ap (λ n. write_at [] n header_bytes) at_start
        ∙ write_at-front [] [] header_bytes 0 refl
        ∙ ap (◌++◌ header_bytes)
            (drop_of_length-le {A = ℕ} (length header_bytes) [] (omega arith)) in
      (
        record {
          head = header_bytes;
          chunks = [];
          layout = layout;
          head_size = size;
          are_chunks = tt;
          content = refl;
          small = omega (arith, ap length layout, length-append header_bytes [], laws.header_small);
        },
        refl,
      )

  fresh_header_lem :
      (h : FileHeader) (rng : Rng) (s : Os)
      → c.new_header s.entropy ≡ ok (h, rng)
      → fresh_header c s ≡ (ok h, record s { entropy = rng })
  unfolding fresh_header
  fresh_header_lem h rng s fresh = rw (fresh, fresh_header) refl

  create_new_of_Opened :
      (h : FileHeader) (rng : Rng) (s t : Os) (header_bytes : List ℕ) (f : EncryptedFile)
      → c.new_header s.entropy ≡ ok (h, rng)
      → c.encrypt_header h ≡ ok header_bytes
      → s.writable ≡ anywhere
      → try_write s ≡ (ok tt, s)
      → open_file c (with_header header_bytes rng s) ≡ (ok f, t)
      → create_new c s ≡ (ok f, t)
  unfolding create_new reopen
  create_new_of_Opened h rng s t header_bytes f fresh e can granted opens =
      rw
        (
          granted,
          fresh_header_lem h rng s fresh,
          e,
          write_all_lem header_bytes (record s { entropy = rng }) can,
        )
        opens

  -- With a lawful cryptor, on a new empty file at position 0 that may be locked and written to and
  -- whose reads do not fail, where the entropy gives a header, `create_new` succeeds with an open
  -- file that has the cryptor and this header, is not in append mode, and holds the empty
  -- cleartext, at its start. The state it leaves is that of the open file, with the lock that it
  -- had.
  pub create_new_lem :
      (h : FileHeader) (rng : Rng) (s : Os)
      → c.new_header s.entropy ≡ ok (h, rng)
      → s.bytes ≡ []
      → s.pos ≡ 0
      → s.writable ≡ anywhere
      → try_write s ≡ (ok tt, s)
      → NoFault s.read_events
      → (t : Os) × (e : EncryptedFile) × (create_new c s ≡ (ok e, t))
        × (e.file ≡ t)
        × (t.lock ≡ s.lock)
        × Opened h [] 0 e
  create_new_lem h rng s fresh empty at_start can granted nf =
      let (header_bytes, e, size, d) =
        laws.header_encrypts h (laws.new_header_valid s.entropy fresh) in
      let (v, same) = with_header-Holds h header_bytes rng s empty at_start size in
      let (t, f, opens, same_file, same_lock, o) =
        open_file_lem h [] header_bytes (with_header header_bytes rng s) v same d refl
          (try_read-try_write s (with_header header_bytes rng s) granted refl) nf in
      (
        t,
        f,
        create_new_of_Opened h rng s t header_bytes f fresh e can granted opens,
        same_file,
        same_lock,
        o,
      )
