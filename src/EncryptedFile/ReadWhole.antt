-- ===== src/EncryptedFile/ReadWhole.antt =====
-- Filling a buffer from an `EncryptedFile` of src/fs/encrypted_file.rs by `try_read_exact` of
-- src/util.rs: the file keeps the contract of a reader.
use native.Mathlib.Nat.{mod-lt}
use cryptomator_rs.Common.{
  ℕ, ◌+◌, ◌<◌, ◌≡◌, refl, sym, ◌∙◌, ap, List, [], ◌++◌, length, take, drop, leb, Bool, Result, ok,
  err, arith, length-take, drop-drop, drop-length-take, length-eq-zero,
}
use cryptomator_rs.Crypto.{FileCryptor, FileHeader, IsLawful}
use cryptomator_rs.EncryptedFile.Loading.{Ready}
use cryptomator_rs.EncryptedFile.Reading.{span, read_file_lem}
use cryptomator_rs.EncryptedFile.Seeking.{length-text-lt}
use cryptomator_rs.EncryptedFile.{read_file}
use cryptomator_rs.Os.Reading.{try_read-same}
use cryptomator_rs.Os.{Os, try_read}
use cryptomator_rs.Util.ReadExact.Contract.{Outcome, delivered, try_read_exact-Filled}
use cryptomator_rs.Util.ReadExact.{try_read_exact}
use cryptomator_rs.Util.Size.Position.{get_cleartext_size-encrypted_pos}
use cryptomator_rs.Util.Size.{get_cleartext_size}

-- `util::try_read_exact` on the file; `read` is never interrupted, so the buffer bounds the rounds.
unfoldable pub fill_cleartext : FileCryptor → FileHeader → ℕ → Os → Result (Bool × List ℕ) × Os
fill_cleartext c h n = try_read_exact (read_file c h) (n + 1) n

module _ (c : FileCryptor) {nonce_len : ℕ} (laws : IsLawful nonce_len c) (h : FileHeader)
    (text : List ℕ) where
  -- What the file keeps between two reads, `s` being its state before the first.
  pub record Between (o s : Os) : Type 0 where
    pub at_pos : ℕ
    pub ready : Ready c h text at_pos s
    pub granted : try_read s ≡ (ok tt, s)
    pub same_bytes : s.bytes ≡ o.bytes
    pub same_lock : s.lock ≡ o.lock
    pub same_writable : s.writable ≡ o.writable
    pub same_entropy : s.entropy ≡ o.entropy

  abbrev from_size : Result ℕ → List ℕ
  from_size (ok p) = drop p text
  from_size (err e) = []

  -- The cleartext that is left.
  abbrev pub left : Os → List ℕ
  left s = from_size (get_cleartext_size c s.pos)

  pub left_lem : (p : ℕ) (s : Os) → Ready c h text p s → left s ≡ drop p text
  left_lem p s r =
      ap (λ n. from_size (get_cleartext_size c n)) r.position
      ∙ ap from_size (
          get_cleartext_size-encrypted_pos c laws p
            (omega (arith, length-text-lt c laws s r.holds, r.inside)))

  abbrev no_retries : Os → ℕ
  no_retries s = 0

  read_Outcome :
      (o : Os) (n : ℕ) (s : Os)
      → 0 < n
      → Between o s
      → Outcome (read_file c h) (Between o) left no_retries n s
  read_Outcome o n s given b =
      let p : ℕ = b.at_pos in
      let (t, out, e, d) = read_file_lem c laws h text n p s b.ready b.granted in
      let room : 0 < span c laws h text n p =
        omega (arith, mod-lt p {m = c.max_chunk_len} laws.chunk_positive) in
      let size : length out ≡ length (take (span c laws h text n p) (drop p text)) =
        ap length d.delivered in
      delivered out t e
        (record {
          at_pos = p + length out;
          ready = d.ready;
          granted = try_read-same s t b.granted d.same.same_lock;
          same_bytes = d.same.same_bytes ∙ b.same_bytes;
          same_lock = d.same.same_lock ∙ b.same_lock;
          same_writable = d.same.same_writable ∙ b.same_writable;
          same_entropy = d.same.same_entropy ∙ b.same_entropy;
        })
        (left_lem p s b.ready
          ∙ drop-length-take (span c laws h text n p) (drop p text)
          ∙ ap (λ xs. xs ++ drop (length xs) (drop p text)) (sym d.delivered)
          ∙ ap (λ xs. out ++ xs) (drop-drop (length out) p text)
          ∙ ap (λ xs. out ++ xs) (sym (left_lem (p + length out) t d.ready)))
        (omega (arith, size, length-take (span c laws h text n p) (drop p text)))
        (λ none_read.
          left_lem p s b.ready
          ∙ length-eq-zero (drop p text)
              (omega (arith, size, length-take (span c laws h text n p) (drop p text))))
        (omega arith)

  -- With a lawful cryptor, on a file that holds `text`, at position `p`, whose lock is free to read
  -- and whose reads do not fail, `try_read_exact` with a buffer of `n` bytes ends. It delivers the
  -- bytes of `text` from `p` on, up to `n`, says whether that many were left, and leaves the file's
  -- bytes and its cleartext as they were.
  pub fill_cleartext_lem :
      (n p : ℕ) (s : Os)
      → Ready c h text p s
      → try_read s ≡ (ok tt, s)
      → (t : Os) × (fill_cleartext c h n s
          ≡ (ok (leb n (length (drop p text)), take n (drop p text)), t))
        × Between s t
  unfolding fill_cleartext
  fill_cleartext_lem n p s r granted =
      let start : Between s s = record {
        at_pos = p;
        ready = r;
        granted = granted;
        same_bytes = refl;
        same_lock = refl;
        same_writable = refl;
        same_entropy = refl;
      } in
      let (t, e, b, after, budget) =
        try_read_exact-Filled (read_file c h) (Between s) left no_retries (read_Outcome s) (n + 1) n
          s (omega arith) start in
      (t, e ∙ ap (λ xs. (ok (leb n (length xs), take n xs), t)) (left_lem p s r), b)
