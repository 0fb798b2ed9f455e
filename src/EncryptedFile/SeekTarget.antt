-- ===== src/EncryptedFile/SeekTarget.antt =====
-- `Seek::seek` of src/fs/encrypted_file.rs in all its cases.
use cryptomator_rs.Common.{
  ℕ, zero, suc, ◌+◌, ◌-◌, ◌^◌, ◌<◌, ◌≡◌, ◌∙◌, ap, sym, min, List, length, ok, arith, pos, negsuc,
}
use cryptomator_rs.Crypto.{FileCryptor, FileHeader, IsLawful}
use cryptomator_rs.EncryptedFile.Loading.{Ready}
use cryptomator_rs.EncryptedFile.Seeking.{
  at, cleartext_pos_lem, length-text-lt, seek_start_lem, seek_inner-from_end_negsuc,
  seek_inner-from_end_pos, seek_inner-from_end_zero, seek_inner-current_negsuc,
  seek_inner-current_pos,
}
use cryptomator_rs.EncryptedFile.{
  SeekFrom, start, from_end, current, seek_inner, seek_file, seek_current,
}
use cryptomator_rs.Os.{Os, try_read}

-- Where a seek goes from position `p` in a cleartext of `len` bytes.
abbrev pub seek_target : SeekFrom → ℕ → ℕ → ℕ
seek_target (start n) len p = min n len
seek_target (from_end (pos zero)) len p = len
seek_target (from_end (pos (suc n))) len p = 0
seek_target (from_end (negsuc n)) len p = len
seek_target (current (pos n)) len p = min (p + n) len
seek_target (current (negsuc n)) len p = p - suc n

-- The offset is below 2^63, in both directions.
abbrev pub InRange : SeekFrom → Type 0
InRange (start n) = n < 2 ^ 63
InRange (from_end (pos n)) = n < 2 ^ 63
InRange (from_end (negsuc n)) = suc n < 2 ^ 63
InRange (current (pos n)) = n < 2 ^ 63
InRange (current (negsuc n)) = suc n < 2 ^ 63

module _ (c : FileCryptor) {nonce_len : ℕ} (laws : IsLawful nonce_len c) (h : FileHeader) where
  seek_inner_lem :
      (text : List ℕ) (from : SeekFrom) (p : ℕ) (s : Os)
      → Ready c h text p s
      → InRange from
      → seek_inner c from s
        ≡ (ok (seek_target from (length text) p), at c (seek_target from (length text) p) s)
  unfolding seek_inner seek_current
  seek_inner_lem text (start n) p s r small =
      seek_start_lem c laws s r.holds p n r.position r.inside small
  seek_inner_lem text (from_end (pos zero)) p s r small =
      seek_inner-from_end_zero c laws s r.holds p r.position r.inside
  seek_inner_lem text (from_end (pos (suc n))) p s r small =
      seek_inner-from_end_pos c laws s r.holds p n r.position r.inside small
  seek_inner_lem text (from_end (negsuc n)) p s r small =
      seek_inner-from_end_negsuc c laws s r.holds p n r.position r.inside
  seek_inner_lem text (current (pos zero)) p s r small =
      let q : min (p + 0) (length text) ≡ p = omega (arith, r.inside) in
      cleartext_pos_lem c laws s p r.position
        (omega (arith, length-text-lt c laws s r.holds, r.inside))
      ∙ ap (λ k. (ok p, record s { pos = k })) r.position
      ∙ ap (λ n. (ok n, at c n s)) (sym q)
  seek_inner_lem text (current (pos (suc n))) p s r small =
      seek_inner-current_pos c laws s r.holds p n r.position r.inside small
  seek_inner_lem text (current (negsuc n)) p s r small =
      seek_inner-current_negsuc c laws s r.holds p n r.position r.inside small

  -- With a lawful cryptor, on a file that holds a cleartext, at position `p`, without coming read
  -- failures and with a lock that is free to read, a seek with an offset below 2^63 in size
  -- succeeds and leaves the file at the position that it returns: `Start(n)` goes to `n` or to the
  -- end; `Current(n)` goes by `n` and stops at both ends; `End(n)` goes to the end for `n` zero or
  -- negative, and to the start for `n` positive.
  pub seek_file_lem :
      (text : List ℕ) (from : SeekFrom) (p : ℕ) (s : Os)
      → Ready c h text p s
      → try_read s ≡ (ok tt, s)
      → InRange from
      → seek_file c from s
        ≡ (ok (seek_target from (length text) p), at c (seek_target from (length text) p) s)
  unfolding seek_file
  seek_file_lem text from p s r granted small = rw granted (seek_inner_lem text from p s r small)
