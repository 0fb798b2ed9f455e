-- ===== src/Util/ReadExact.antt =====
-- `try_read_exact` of src/util.rs, over any reader.
pub mod Contract
use cryptomator_rs.Common.{
  ℕ, zero, suc, ◌+◌, ◌-◌, ◌≡◌, ◌==◌, List, [], ◌∷◌, ◌++◌, length, Bool, true, false, ltb,
  if◌then◌else◌, Result, ok, err, Error, IoKind, io, panic, out_of_fuel,
}

-- Whether the loop tries again after an error.
unfoldable pub is_interrupted : Error → Bool
is_interrupted (io IoKind.interrupted) = true
is_interrupted _ = false

-- The rest of a loop's outcome, behind what a round has read.
abbrev pub prepend {ℓ} :
    {S : Type ℓ} → List ℕ → Result (Bool × List ℕ) × S → Result (Bool × List ℕ) × S
prepend xs (ok (full, ys), s) = (ok (full, xs ++ ys), s)
prepend xs (err e, s) = (err e, s)

module _ {ℓ} {S : Type ℓ} (read : ℕ → S → Result (List ℕ) × S) where
  -- One round's outcome: `Ok(0)` stops, `Ok(n)` goes on behind the `n` bytes (a reader that claims
  -- more than the buffer holds makes the slice panic), an interruption goes on, an error returns.
  -- `go` is the rest of the loop on what is left of the buffer.
  unfoldable pub after_read :
      (ℕ → S → Result (Bool × List ℕ) × S) → ℕ → Result (List ℕ) × S → Result (Bool × List ℕ) × S
  after_read go n (ok [], s) = (ok (false, []), s)
  after_read go n (ok (x ∷ xs), s) =
      if ltb n (length (x ∷ xs))
      then (err panic, s)
      else prepend (x ∷ xs) (go (n - length (x ∷ xs)) s)
  after_read go n (err e, s) = if is_interrupted e then go n s else (err e, s)

  -- Whether the buffer of `n` bytes was filled, and the bytes that were read into it.
  unfoldable pub try_read_exact : ℕ → ℕ → S → Result (Bool × List ℕ) × S
  try_read_exact zero n s = (err out_of_fuel, s)
  try_read_exact (suc fuel) n s =
      let round = after_read (try_read_exact fuel) n (read n s) in
      if n == 0 then (ok (true, []), s) else round
