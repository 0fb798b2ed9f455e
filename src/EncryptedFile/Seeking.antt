-- ===== src/EncryptedFile/Seeking.antt =====
-- Positions and seeks of src/fs/encrypted_file.rs on a file that holds a cleartext.
use native.Mathlib.Decide.{dec_lt}
use cryptomator_rs.Common.{
  ℕ, zero, suc, ◌+◌, ◌-◌, ◌*◌, ◌/◌, ◌%◌, ◌^◌, ◌≤◌, ◌<◌, ◌≡◌, refl, sym, ap, ◌∙◌, ◌==◌, min, List,
  length, ok, arith, u64_limit, ltb, ltb→lt, lt→ltb, Bool-cases, inl, inr, sub_u64_lem, mul_u64_lem,
  add_u64_lem, ==_iff, pos, negsuc,
}
use cryptomator_rs.Crypto.{FileCryptor, FileHeader, IsLawful}
use cryptomator_rs.EncryptedFile.Layout.{Holds, length-Holds}
use cryptomator_rs.EncryptedFile.Target.{desired_pos}
use cryptomator_rs.EncryptedFile.{
  cleartext_pos, cleartext_len, seek_start, seek_current, seek_inner, from_end, current,
  from_end_distance,
}
use cryptomator_rs.Os.{Os, ciphertext_pos, ciphertext_len, seek_to}
use cryptomator_rs.Util.Size.Position.{
  encrypted_len, encrypted_pos, get_cleartext_size-encrypted_pos, encrypted_len_mono,
  encrypted_len-le, encrypted_len-ge,
}

-- The file, put at a cleartext position.
abbrev pub at : FileCryptor → ℕ → Os → Os
at c n s = record s { pos = encrypted_pos c n }

module _ (c : FileCryptor) {nonce_len : ℕ} (laws : IsLawful nonce_len c) where
  -- With a lawful cryptor, the target that `seek_inner` computes for `n` below 2^63 does not
  -- overflow and is the file position that stands for the cleartext position `n`.
  pub desired_pos_lem : (n : ℕ) → n < 2 ^ 63 → desired_pos c n ≡ ok (encrypted_pos c n)
  unfolding desired_pos encrypted_len
  desired_pos_lem n h =
      let bound : 2 * encrypted_len c n ≤ 3 * n + 2 * c.max_encrypted_chunk_len =
        encrypted_len-le c laws n in
      let q : ℕ = n / c.max_chunk_len * c.max_encrypted_chunk_len in
      rw
        (
          mul_u64_lem (n / c.max_chunk_len) c.max_encrypted_chunk_len
              (omega (arith, laws.chunk_small)),
          add_u64_lem c.encrypted_header_len q (omega (arith, laws.chunk_small, laws.header_small)),
          sub_u64_lem c.max_encrypted_chunk_len c.max_chunk_len
              (omega (arith, laws.chunk_overhead)),
        )
        (elim (Bool-cases (ltb 0 (n % c.max_chunk_len))) [
          | inl partway ↦
              rw
                (
                  partway,
                  add_u64_lem (n % c.max_chunk_len) (c.max_encrypted_chunk_len - c.max_chunk_len)
                      (omega (arith, laws.chunk_small, ltb→lt _ _ partway)),
                  add_u64_lem (c.encrypted_header_len + q)
                      (n % c.max_chunk_len + (c.max_encrypted_chunk_len - c.max_chunk_len))
                      (ground (arith, laws.chunk_small, laws.header_small)),
                )
                (ground arith)
          | inr boundary ↦ rw boundary (ground arith)
        ])

  pub cleartext_pos_lem :
      (s : Os) (p : ℕ) → s.pos ≡ encrypted_pos c p → p < u64_limit → cleartext_pos c s ≡ (ok p, s)
  unfolding cleartext_pos ciphertext_pos
  cleartext_pos_lem s p e h = rw (e, get_cleartext_size-encrypted_pos c laws p h)

  module _ {h : FileHeader} {text : List ℕ} (s : Os) (v : Holds c h s text) where
    pub length-text-lt : length text < 2 ^ 63
    length-text-lt =
        omega (arith, length-Holds c h laws v, v.small, encrypted_len-ge c laws (length text))

    pub cleartext_len_lem : cleartext_len c s ≡ (ok (length text), s)
    unfolding cleartext_len ciphertext_len
    cleartext_len_lem = rw (
      length-Holds c h laws v,
      get_cleartext_size-encrypted_pos c laws (length text) (omega (arith, length-text-lt)),
    )

    cap : (n : ℕ) → min (encrypted_pos c n) (length s.bytes) ≡ encrypted_pos c (min n (length text))
    cap n = elim (dec_lt (length text) n) [
      | yes p ↦
          let e : min n (length text) ≡ length text = omega arith in
          rw (e, length-Holds c h laws v)
            (omega (arith, encrypted_len_mono c laws (length text) n (omega arith)))
      | no p ↦
          let e : min n (length text) ≡ n = omega arith in
          rw (e, length-Holds c h laws v)
            (omega (arith, encrypted_len_mono c laws n (length text) (omega arith)))
    ]

    -- `SeekFrom::Start(n)` puts the file at `n`, or at the end of the cleartext if `n` is behind
    -- it, and returns the position.
    pub seek_start_lem :
        (p n : ℕ)
        → s.pos ≡ encrypted_pos c p
        → p ≤ length text
        → n < 2 ^ 63
        → seek_start c n s ≡ (ok (min n (length text)), at c (min n (length text)) s)
    unfolding seek_start seek_to ciphertext_len
    seek_start_lem p n e le small =
        let here : cleartext_pos c s ≡ (ok p, s) =
          cleartext_pos_lem s p e (omega (arith, length-text-lt)) in
        let target : ℕ = min n (length text) in
        elim (Bool-cases (p == n)) [
          | inl stay ↦
              let q : p ≡ target = ground arith in
              rw (here, stay, ← q)
                (ap (λ k. (ok k, s)) (sym ((==_iff p n).0 stay))
                  ∙ ap (λ k. (ok p, record s { pos = k })) e)
          | inr go ↦
              rw (here, go, desired_pos_lem n small, cap n)
                (cleartext_pos_lem (at c target s) target refl (omega (arith, length-text-lt)))
        ]

    -- `SeekFrom::End(n)` with `n` not positive ends at the end of the cleartext: the offset is
    -- lost.
    pub seek_inner-from_end_negsuc :
        (p m : ℕ)
        → s.pos ≡ encrypted_pos c p
        → p ≤ length text
        → seek_inner c (from_end (negsuc m)) s ≡ (ok (length text), at c (length text) s)
    unfolding seek_inner from_end_distance
    seek_inner-from_end_negsuc p m e le =
        let q : min (length text) (length text) ≡ length text = omega arith in
        let z : length text - 0 ≡ length text = omega arith in
        rw (cleartext_len_lem, z, seek_start_lem p (length text) e le length-text-lt, q)

    pub seek_inner-from_end_zero :
        (p : ℕ)
        → s.pos ≡ encrypted_pos c p
        → p ≤ length text
        → seek_inner c (from_end (pos zero)) s ≡ (ok (length text), at c (length text) s)
    unfolding seek_inner from_end_distance
    seek_inner-from_end_zero p e le =
        let q : min (length text) (length text) ≡ length text = omega arith in
        let z : length text - (2 ^ 64 - 0) % 2 ^ 64 ≡ length text = omega arith in
        rw (cleartext_len_lem, z, seek_start_lem p (length text) e le length-text-lt, q)

    -- `SeekFrom::End(n)` with `n` positive ends at the start of the file.
    pub seek_inner-from_end_pos :
        (p m : ℕ)
        → s.pos ≡ encrypted_pos c p
        → p ≤ length text
        → suc m < 2 ^ 63
        → seek_inner c (from_end (pos (suc m))) s ≡ (ok 0, at c 0 s)
    unfolding seek_inner from_end_distance
    seek_inner-from_end_pos p m e le small =
        let q : length text - (2 ^ 64 - suc m) % 2 ^ 64 ≡ 0 = omega (arith, length-text-lt) in
        let z : min 0 (length text) ≡ 0 = omega arith in
        rw (cleartext_len_lem, q, seek_start_lem p 0 e le (omega arith), z)

    -- `SeekFrom::Current(n)` moves by `n` and stops at both ends of the cleartext.
    pub seek_inner-current_negsuc :
        (p m : ℕ)
        → s.pos ≡ encrypted_pos c p
        → p ≤ length text
        → suc m < 2 ^ 63
        → seek_inner c (current (negsuc m)) s ≡ (ok (p - suc m), at c (p - suc m) s)
    unfolding seek_inner seek_current
    seek_inner-current_negsuc p m e le small =
        let q : min (p - suc m) (length text) ≡ p - suc m = omega arith in
        rw (
          cleartext_pos_lem s p e (omega (arith, length-text-lt)),
          lt→ltb (suc m) (2 ^ 63) small,
          seek_start_lem p (p - suc m) e le (omega (arith, length-text-lt)),
          q,
        )

    pub seek_inner-current_pos :
        (p m : ℕ)
        → s.pos ≡ encrypted_pos c p
        → p ≤ length text
        → suc m < 2 ^ 63
        → seek_inner c (current (pos (suc m))) s
          ≡ (ok (min (p + suc m) (length text)), at c (min (p + suc m) (length text)) s)
    unfolding seek_inner seek_current
    seek_inner-current_pos p m e le small =
        let q : min (min (p + suc m) (u64_limit - 1)) (length text)
            ≡ min (p + suc m) (length text) =
          omega (arith, length-text-lt) in
        let z : min (min (p + suc m) (length text)) (length text) ≡ min (p + suc m) (length text) =
          omega arith in
        rw (
          cleartext_pos_lem s p e (omega (arith, length-text-lt)),
          cleartext_len_lem,
          q,
          seek_start_lem p (min (p + suc m) (length text)) e le (omega (arith, length-text-lt)),
          z,
        )
