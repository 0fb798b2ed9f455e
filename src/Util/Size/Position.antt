-- ===== src/Util/Size/Position.antt =====
-- Where a cleartext position stands in the ciphertext file.
use native.Mathlib.Nat.{
  div-add-mod', mod-lt, mul-add-div_right, mul-add-mod_self_right, div-eq_of_lt, mod-eq_of_lt,
  mul-le-mul_right, mul-le-mul_left, add-div_left, add-mod_left, div_self, mod_self, mul-div_cancel,
  mul-mod_left,
}
use native.Mathlib.Decide.{dec_lt}
use cryptomator_rs.Common.{
  ℕ, ◌+◌, ◌-◌, ◌*◌, ◌/◌, ◌%◌, ◌≤◌, ◌<◌, ◌≡◌, max, ◌==◌, if◌then◌else◌, ok, sub_u64_lem, mul_u64_lem,
  add_u64_lem, u64_limit, arith, ap, ◌∙◌,
}
use cryptomator_rs.Crypto.{FileCryptor, IsLawful}
use cryptomator_rs.Util.Size.{get_cleartext_size}

module _ (c : FileCryptor) where
  abbrev pub overhead : ℕ
  overhead = c.max_encrypted_chunk_len - c.max_chunk_len

  -- The ciphertext length of a cleartext of length `n`, without the file header: whole chunks,
  -- and the rest with its own overhead if there is a rest.
  unfoldable pub encrypted_len : ℕ → ℕ
  encrypted_len n =
      n / c.max_chunk_len * c.max_encrypted_chunk_len
      + (if n % c.max_chunk_len == 0 then 0 else n % c.max_chunk_len + overhead)

  -- The position in the file that stands for the cleartext position `n`.
  abbrev pub encrypted_pos : ℕ → ℕ
  encrypted_pos n = c.encrypted_header_len + encrypted_len n

  -- The part of a chunk that stands for its first `r` bytes.
  abbrev tail_len : ℕ → ℕ
  tail_len r = if r == 0 then 0 else r + overhead

  module _ {k : ℕ} (laws : IsLawful k c) where
    tail_len-lt : (n : ℕ) → tail_len (n % c.max_chunk_len) < c.max_encrypted_chunk_len
    tail_len-lt n = ground (
      arith,
      mod-lt n {m = c.max_chunk_len} laws.chunk_positive,
      laws.chunk_overhead,
      laws.chunk_positive,
    )

    encrypted_len-div : (n : ℕ) → encrypted_len n / c.max_encrypted_chunk_len ≡ n / c.max_chunk_len
    unfolding encrypted_len
    encrypted_len-div n =
        rw
          (
            mul-add-div_right {m = c.max_encrypted_chunk_len} (omega (arith, laws.chunk_overhead)),
            div-eq_of_lt (tail_len-lt n),
          )
          (omega arith)

    encrypted_len-mod :
        (n : ℕ) → encrypted_len n % c.max_encrypted_chunk_len ≡ tail_len (n % c.max_chunk_len)
    unfolding encrypted_len
    encrypted_len-mod n =
        mul-add-mod_self_right (n / c.max_chunk_len) c.max_encrypted_chunk_len _
        ∙ mod-eq_of_lt (tail_len-lt n)

    -- With a lawful cryptor, `get_cleartext_size` takes the file position that stands for the
    -- cleartext position `n` back to `n`, for every `n` below 2^64 and without an overflow.
    pub get_cleartext_size-encrypted_pos :
        (n : ℕ) → n < u64_limit → get_cleartext_size c (encrypted_pos n) ≡ ok n
    unfolding get_cleartext_size
    get_cleartext_size-encrypted_pos n h =
        let parts : n / c.max_chunk_len * c.max_chunk_len + n % c.max_chunk_len ≡ n =
          div-add-mod' n c.max_chunk_len in
        let rest : max (tail_len (n % c.max_chunk_len)) overhead - overhead ≡ n % c.max_chunk_len =
          ground (arith, laws.chunk_overhead) in
        let body : encrypted_pos n - c.encrypted_header_len ≡ encrypted_len n = omega arith in
        rw
          (
            sub_u64_lem (encrypted_pos n) c.encrypted_header_len (omega arith),
            sub_u64_lem c.max_encrypted_chunk_len c.max_chunk_len
                (omega (arith, laws.chunk_overhead)),
            body,
            encrypted_len-div n,
            encrypted_len-mod n,
            sub_u64_lem (max (tail_len (n % c.max_chunk_len)) overhead) overhead (omega arith),
            rest,
            mul_u64_lem (n / c.max_chunk_len) c.max_chunk_len (omega arith),
            add_u64_lem (n / c.max_chunk_len * c.max_chunk_len) (n % c.max_chunk_len) (omega arith),
          )
          (ap ok parts)

    div_mono : (m n : ℕ) → m ≤ n → m / c.max_chunk_len ≤ n / c.max_chunk_len
    div_mono m n h = elim (dec_lt (n / c.max_chunk_len) (m / c.max_chunk_len)) [
      | yes p ↦ absurd (
          omega (
            arith,
            div-add-mod' m c.max_chunk_len,
            div-add-mod' n c.max_chunk_len,
            mod-lt n {m = c.max_chunk_len} laws.chunk_positive,
            mul-le-mul_right c.max_chunk_len p,
          ))
      | no p ↦ omega arith
    ]

    same_chunk_mono :
        (m n : ℕ)
        → m ≤ n
        → m / c.max_chunk_len ≡ n / c.max_chunk_len
        → tail_len (m % c.max_chunk_len) ≤ tail_len (n % c.max_chunk_len)
    same_chunk_mono m n h e =
        let start : m / c.max_chunk_len * c.max_chunk_len ≡ n / c.max_chunk_len * c.max_chunk_len =
          ap (λ q. q * c.max_chunk_len) e in
        let le : m % c.max_chunk_len ≤ n % c.max_chunk_len =
          omega (arith, div-add-mod' m c.max_chunk_len, div-add-mod' n c.max_chunk_len) in
        ground arith

    -- Later cleartext stands later in the file.
    pub encrypted_len_mono : (m n : ℕ) → m ≤ n → encrypted_len m ≤ encrypted_len n
    unfolding encrypted_len
    encrypted_len_mono m n h = elim (dec_lt (m / c.max_chunk_len) (n / c.max_chunk_len)) [
      | yes p ↦ omega (arith, tail_len-lt m, mul-le-mul_right c.max_encrypted_chunk_len p)
      | no p ↦
          let e : m / c.max_chunk_len ≡ n / c.max_chunk_len = omega (arith, div_mono m n h) in
          omega (arith, same_chunk_mono m n h e, ap (λ q. q * c.max_encrypted_chunk_len) e)
    ]

    pub encrypted_len-le : (n : ℕ) → 2 * encrypted_len n ≤ 3 * n + 2 * c.max_encrypted_chunk_len
    unfolding encrypted_len
    encrypted_len-le n = omega (
      arith,
      div-add-mod' n c.max_chunk_len,
      tail_len-lt n,
      mul-le-mul_left (n / c.max_chunk_len) laws.chunk_overhead_small,
    )

    pub encrypted_len-zero : encrypted_len 0 ≡ 0
    unfolding encrypted_len
    encrypted_len-zero = ground (arith, laws.chunk_positive)

    -- One more full chunk in front.
    pub encrypted_len-add :
        (n : ℕ) → encrypted_len (c.max_chunk_len + n) ≡ c.max_encrypted_chunk_len + encrypted_len n
    unfolding encrypted_len
    encrypted_len-add n = rw (add-div_left n laws.chunk_positive, add-mod_left) (omega arith)

    -- A last chunk, full or not.
    pub encrypted_len_short : (n : ℕ) → 0 < n → n ≤ c.max_chunk_len → encrypted_len n ≡ n + overhead
    unfolding encrypted_len
    encrypted_len_short n pos le = elim (dec_lt n c.max_chunk_len) [
      | yes p ↦ rw (div-eq_of_lt p, mod-eq_of_lt p) (ground arith)
      | no p ↦
          let e : n ≡ c.max_chunk_len = omega arith in
          rw (e, div_self laws.chunk_positive, mod_self) (omega (arith, laws.chunk_overhead))
    ]

    -- The start of chunk number `q`.
    pub encrypted_len-mul :
        (q : ℕ) → encrypted_len (q * c.max_chunk_len) ≡ q * c.max_encrypted_chunk_len
    unfolding encrypted_len
    encrypted_len-mul q = rw (mul-div_cancel q laws.chunk_positive, mul-mod_left) (omega arith)

    pub encrypted_len-ge : (n : ℕ) → n ≤ encrypted_len n
    unfolding encrypted_len
    encrypted_len-ge n =
        let whole : n / c.max_chunk_len * c.max_chunk_len
            ≤ n / c.max_chunk_len * c.max_encrypted_chunk_len =
          mul-le-mul_left (n / c.max_chunk_len) (omega (arith, laws.chunk_overhead)) in
        ground (arith, div-add-mod' n c.max_chunk_len)

    -- `m` bytes behind the start of chunk number `q`.
    pub encrypted_len-mul-add :
        (q m : ℕ)
        → encrypted_len (q * c.max_chunk_len + m) ≡ q * c.max_encrypted_chunk_len + encrypted_len m
    unfolding encrypted_len
    encrypted_len-mul-add q m =
        rw
          (
            mul-add-div_right {m = c.max_chunk_len} laws.chunk_positive,
            mul-add-mod_self_right q c.max_chunk_len m,
          )
          (omega arith)
