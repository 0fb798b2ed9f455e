-- ===== src/EncryptedFile/WriteWhole.antt =====
-- Writing a whole buffer to an `EncryptedFile` of src/fs/encrypted_file.rs by `Write::write_all` of
-- the standard library.
use native.Mathlib.Nat.{div-add-mod', mod-lt, mul-mod_left}
use mathlib.Core.Path.{subst}
use cryptomator_rs.Common.{
  ℕ, zero, suc, ◌+◌, ◌-◌, ◌*◌, ◌/◌, ◌%◌, ◌^◌, ◌≤◌, ◌<◌, ◌≡◌, refl, sym, ◌∙◌, ap, List, [], ◌∷◌,
  length, drop, Bool, false, ltb, if◌then◌else◌, Result, ok, err, IoKind, io, panic, out_of_fuel,
  arith, length-drop, take-append-drop,
}
use cryptomator_rs.Crypto.{FileCryptor, FileHeader, IsHeader, IsLawful}
use cryptomator_rs.EncryptedFile.Loading.{Ready}
use cryptomator_rs.EncryptedFile.Merging.{written}
use cryptomator_rs.EncryptedFile.Replacing.{part, length-part}
use cryptomator_rs.EncryptedFile.Text.{splice, length-splice, splice-splice, splice_nothing}
use cryptomator_rs.EncryptedFile.Writing.{write_file_lem}
use cryptomator_rs.EncryptedFile.{write_file}
use cryptomator_rs.Os.Reading.{try_write-same}
use cryptomator_rs.Os.{anywhere, Os, try_write}
use cryptomator_rs.Util.ReadExact.{is_interrupted}
use cryptomator_rs.Util.Size.Position.{encrypted_pos, encrypted_len_mono}

module _ {S : Type 0} (write : List ℕ → S → Result ℕ × S) where
  -- One round's outcome: `Ok(0)` is an error, `Ok(n)` goes on behind the `n` bytes (a writer that
  -- claims more than it was given makes the slice panic), an interruption goes on.
  unfoldable pub after_write :
      (List ℕ → S → Result (Unit {0}) × S) → List ℕ → Result ℕ × S → Result (Unit {0}) × S
  unfolding is_interrupted
  after_write go buf (ok zero, s) = (err (io IoKind.write_zero), s)
  after_write go buf (ok (suc n), s) =
      if ltb (length buf) (suc n) then (err panic, s) else go (drop (suc n) buf) s
  after_write go buf (err e, s) = if is_interrupted e then go buf s else (err e, s)

  unfoldable pub write_all_of : ℕ → List ℕ → S → Result (Unit {0}) × S
  unfolding after_write
  write_all_of zero buf s = (err out_of_fuel, s)
  write_all_of (suc fuel) [] s = (ok tt, s)
  write_all_of (suc fuel) (x ∷ xs) s = after_write (write_all_of fuel) (x ∷ xs) (write (x ∷ xs) s)

-- `write_all` on the file. `write` is never interrupted, so the buffer bounds the rounds.
unfoldable pub write_cleartext :
    FileCryptor → FileHeader → Bool → List ℕ → Os → Result (Unit {0}) × Os
write_cleartext c h append buf = write_all_of (write_file c h append) (length buf + 1) buf

module _ (c : FileCryptor) {nonce_len : ℕ} (laws : IsLawful nonce_len c) (h : FileHeader)
    (valid : IsHeader nonce_len h) where
  -- What writing `buf` at `p` needs: a lock, permission, entropy for a nonce in each of `rounds`
  -- chunks, as many as the buffer reaches into, and room in the file.
  pub record CanWriteAll (rounds : ℕ) (text : List ℕ) (p : ℕ) (buf : List ℕ) (s : Os) : Type 0 where
    pub ready : Ready c h text p s
    pub granted : try_write s ≡ (ok tt, s)
    pub writable : s.writable ≡ anywhere
    pub enough : 0 < length buf → p % c.max_chunk_len + length buf ≤ rounds * c.max_chunk_len
    pub entropy : rounds * nonce_len ≤ length s.entropy
    pub room : encrypted_pos c (length text + length buf) < 2 ^ 63

  -- What it has done.
  pub record DidWriteAll (text : List ℕ) (p : ℕ) (buf : List ℕ) (s t : Os) : Type 0 where
    pub ready : Ready c h (splice text p buf) (p + length buf) t
    pub same_writable : t.writable ≡ s.writable
    pub same_lock : t.lock ≡ s.lock

  -- The rest of the buffer behind one `write`.
  abbrev rest_of : ℕ → List ℕ → List ℕ
  rest_of p buf = drop (written c laws h (p % c.max_chunk_len) buf) buf

  abbrev next_text : List ℕ → ℕ → List ℕ → List ℕ
  next_text text p buf = splice text p (part c laws h (p % c.max_chunk_len) buf)

  abbrev next_pos : ℕ → List ℕ → ℕ
  next_pos p buf = p + written c laws h (p % c.max_chunk_len) buf

  rest_enough :
      (rounds p : ℕ) (buf : List ℕ)
      → p % c.max_chunk_len + length buf ≤ suc rounds * c.max_chunk_len
      → 0 < length (rest_of p buf)
      → next_pos p buf % c.max_chunk_len + length (rest_of p buf) ≤ rounds * c.max_chunk_len
  rest_enough rounds p buf le more =
      let o : ℕ = p % c.max_chunk_len in
      let inside : o < c.max_chunk_len = mod-lt p {m = c.max_chunk_len} laws.chunk_positive in
      let size : length (rest_of p buf) ≡ length buf - written c laws h o buf =
        length-drop (written c laws h o buf) buf in
      let boundary : next_pos p buf ≡ suc (p / c.max_chunk_len) * c.max_chunk_len =
        omega (arith, size, div-add-mod' p c.max_chunk_len) in
      let at_start : next_pos p buf % c.max_chunk_len ≡ 0 =
        ap (λ n. n % c.max_chunk_len) boundary
        ∙ mul-mod_left (suc (p / c.max_chunk_len)) c.max_chunk_len in
      omega (arith, size)

  rest_room :
      (text : List ℕ) (p : ℕ) (buf : List ℕ)
      → p ≤ length text
      → encrypted_pos c (length text + length buf) < 2 ^ 63
      → encrypted_pos c (length (next_text text p buf) + length (rest_of p buf)) < 2 ^ 63
  rest_room text p buf le room =
      let o : ℕ = p % c.max_chunk_len in
      omega (
        arith,
        encrypted_len_mono c laws (length (next_text text p buf) + length (rest_of p buf))
            (length text + length buf)
            (omega (
              arith,
              length-splice text p (part c laws h o buf) le,
              length-part c laws h o buf,
              length-drop (written c laws h o buf) buf,
            )),
      )

  whole_text :
      (text : List ℕ) (p : ℕ) (buf : List ℕ)
      → p ≤ length text
      → splice (next_text text p buf) (next_pos p buf) (rest_of p buf) ≡ splice text p buf
  whole_text text p buf le =
      let o : ℕ = p % c.max_chunk_len in
      ap (λ n. splice (next_text text p buf) (p + n) (rest_of p buf))
        (sym (length-part c laws h o buf))
      ∙ splice-splice text p (part c laws h o buf) (rest_of p buf) le
      ∙ ap (splice text p) (take-append-drop (written c laws h o buf) buf)

  after_write-ok :
      (write : List ℕ → Os → Result ℕ × Os) (rest : List ℕ → Os → Result (Unit {0}) × Os)
      → (buf : List ℕ) (n : ℕ) (s : Os) → 0 < n
      → n ≤ length buf
      → after_write write rest buf (ok n, s) ≡ rest (drop n buf) s
  unfolding after_write
  after_write-ok write rest buf zero s given le = absurd (omega arith)
  after_write-ok write rest buf (suc n) s given le =
      let fits : ltb (length buf) (suc n) ≡ false = ground arith in rw fits refl

  write_all_of_lem :
      (rounds fuel : ℕ) (text : List ℕ) (p : ℕ) (buf : List ℕ) (s : Os)
      → rounds < fuel
      → CanWriteAll rounds text p buf s
      → (t : Os) × (write_all_of (write_file c h false) fuel buf s ≡ (ok tt, t))
        × DidWriteAll text p buf s t
  unfolding write_all_of
  write_all_of_lem rounds zero text p buf s lt can = absurd (omega arith)
  write_all_of_lem rounds (suc fuel) text p [] s lt can = (
    s,
    refl,
    record {
      ready =
          subst (λ u. Ready c h u (p + 0) s) (sym (splice_nothing text p))
            (subst (λ n. Ready c h text n s) (omega arith) can.ready);
      same_writable = refl;
      same_lock = refl;
    },
  )
  write_all_of_lem zero (suc fuel) text p (x ∷ xs) s lt can =
      absurd (omega (arith, can.enough (omega arith)))
  write_all_of_lem (suc rounds) (suc fuel) text p (x ∷ xs) s lt can =
      let buf : List ℕ = x ∷ xs in
      let o : ℕ = p % c.max_chunk_len in
      let inside : o < c.max_chunk_len = mod-lt p {m = c.max_chunk_len} laws.chunk_positive in
      let (t, e, d) =
        write_file_lem c laws h false p buf s can.ready
          (record { writable = can.writable; entropy = omega (arith, can.entropy) }) can.granted
          valid (omega arith) can.room in
      let (u, e', d') =
        write_all_of_lem rounds fuel (next_text text p buf) (next_pos p buf) (rest_of p buf) t
          (omega arith)
          (record {
            ready = d.ready;
            granted = try_write-same s t can.granted d.same_lock;
            writable = d.same_writable ∙ can.writable;
            enough = λ more. rest_enough rounds p buf (can.enough (omega arith)) more;
            entropy =
                omega
                  (arith, can.entropy, ap length d.entropy_left, length-drop nonce_len s.entropy);
            room = rest_room text p buf can.ready.inside can.room;
          }) in
      (
        u,
        ap (after_write (write_file c h false) (write_all_of (write_file c h false) fuel) buf) e
            ∙ after_write-ok (write_file c h false) (write_all_of (write_file c h false) fuel) buf
                (written c laws h o buf) t (omega arith) (omega arith)
            ∙ e',
        record {
          ready =
              subst (λ z. Ready c h z (p + length buf) u) (whole_text text p buf can.ready.inside)
                (subst
                  (λ n.
                    Ready c h (splice (next_text text p buf) (next_pos p buf) (rest_of p buf)) n u)
                  (omega (arith, length-drop (written c laws h o buf) buf)) d'.ready);
          same_writable = d'.same_writable ∙ d.same_writable;
          same_lock = d'.same_lock ∙ d.same_lock;
        },
      )

  -- With a lawful cryptor, on a file that holds `text`, at position `p`, without coming read
  -- failures, that may be locked and written to, under a well-formed header, with room below 2^63
  -- bytes and with entropy for a nonce in each of `rounds` chunks, as many as the buffer reaches
  -- into and not more than its bytes: `write_all` ends and succeeds, and the file holds `text` with
  -- the buffer spliced in at `p` and stands behind it.
  pub write_cleartext_lem :
      (rounds : ℕ) (text : List ℕ) (p : ℕ) (buf : List ℕ) (s : Os)
      → rounds ≤ length buf
      → CanWriteAll rounds text p buf s
      → (t : Os) × (write_cleartext c h false buf s ≡ (ok tt, t)) × DidWriteAll text p buf s t
  unfolding write_cleartext
  write_cleartext_lem rounds text p buf s le can =
      write_all_of_lem rounds (length buf + 1) text p buf s (omega arith) can
