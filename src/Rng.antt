-- ===== src/Rng.antt =====
-- `rand_core::OsRng`, as the bytes that the operating system is going to deliver: `try_fill_bytes`
-- takes them in order, and fails when they run out.
use cryptomator_rs.Common.{
  ℕ, ◌≤◌, ◌≡◌, List, length, take, drop, ltb, if◌then◌else◌, Result, ok, err, rng_failed, arith,
  length-take,
}

abbrev pub Rng : Type 0
Rng = List ℕ

unfoldable pub try_fill_bytes : Rng → ℕ → Result (List ℕ × Rng)
try_fill_bytes rng n = if ltb (length rng) n then err rng_failed else ok (take n rng, drop n rng)

pub try_fill_bytes_lem :
    (rng : Rng) (n : ℕ) → n ≤ length rng → try_fill_bytes rng n ≡ ok (take n rng, drop n rng)
unfolding try_fill_bytes
try_fill_bytes_lem rng n h = ground arith

pub length-try_fill_bytes :
    (rng : Rng) (n : ℕ) {out : List ℕ × Rng} → try_fill_bytes rng n ≡ ok out → length out.0 ≡ n
unfolding try_fill_bytes
length-try_fill_bytes rng n h = ground (arith, length-take n rng)
