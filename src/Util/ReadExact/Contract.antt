-- ===== src/Util/ReadExact/Contract.antt =====
-- `try_read_exact` over every reader that keeps the contract of `std::io::Read`: short reads and
-- interruptions do not show in what it returns.
use cryptomator_rs.Common.{
  ℕ, zero, suc, ◌+◌, ◌-◌, ◌≤◌, ◌<◌, ◌≡◌, refl, sym, ◌∙◌, ap, ◌==◌, List, [], ◌∷◌, ◌++◌, length,
  take, drop, ltb, leb, Bool, false, Result, ok, err, IoKind, io, arith, length-append,
  take_of_length-le, take-append_ge, drop-append_ge, drop_of_length-le,
}
use cryptomator_rs.Util.ReadExact.{is_interrupted, after_read, try_read_exact, prepend}

module _ {S : Type 0} (read : ℕ → S → Result (List ℕ) × S) (Good : S → Type 0) (rest : S → List ℕ)
    (budget : S → ℕ) where
  -- What one call of `read` may do in a good state, where `rest` is what the reader still has and
  -- `budget` bounds the interruptions to come: it is interrupted, or it delivers the next bytes,
  -- and none only at the end.
  pub data Outcome (n : ℕ) (s : S) : Type 0 where
    retried :
        (s' : S)
        → read n s ≡ (err (io IoKind.interrupted), s')
        → Good s'
        → rest s' ≡ rest s
        → budget s' < budget s
        → Outcome n s
    delivered :
        (xs : List ℕ) (s' : S)
        → read n s ≡ (ok xs, s')
        → Good s'
        → rest s ≡ xs ++ rest s'
        → length xs ≤ n
        → (length xs ≡ 0 → rest s ≡ [])
        → budget s' ≤ budget s
        → Outcome n s

  abbrev pub Contract : Type 0
  Contract = (n : ℕ) (s : S) → 0 < n → Good s → Outcome n s

  -- What the loop has done when it returns.
  abbrev pub Filled : ℕ → S → Result (Bool × List ℕ) × S → Type 0
  Filled n s r =
      (s' : S) × (r ≡ (ok (leb n (length (rest s)), take n (rest s)), s'))
      × Good s'
      × (rest s' ≡ drop n (rest s))
      × (budget s' ≤ budget s)

  prepend-Filled :
      (n : ℕ) (s s' : S) (xs : List ℕ) (r : Result (Bool × List ℕ) × S)
      → rest s ≡ xs ++ rest s'
      → length xs ≤ n
      → budget s' ≤ budget s
      → Filled (n - length xs) s' r
      → Filled n s (prepend xs r)
  prepend-Filled n s s' xs r e l b (t, q, good, left, b') = (
    t,
    rw (q, e, take-append_ge n xs (rest s') l)
        (ap (λ full. (ok (full, xs ++ take (n - length xs) (rest s')), t))
          (ground (arith, length-append xs (rest s')))),
    good,
    rw (e, drop-append_ge n xs (rest s') l) left,
    omega arith,
  )

  retried-Filled :
      (n : ℕ) (s s' : S) (r : Result (Bool × List ℕ) × S)
      → rest s' ≡ rest s
      → budget s' < budget s
      → Filled n s' r
      → Filled n s r
  retried-Filled n s s' r e b (t, q, good, left, b') =
      (t, rw (← e) q, good, rw (← e) left, omega arith)

  -- Nothing left: the loop stops short of a buffer that is not empty.
  ended-Filled :
      (n : ℕ) (s s' : S)
      → 0 < n
      → rest s ≡ []
      → rest s' ≡ []
      → Good s'
      → budget s' ≤ budget s
      → Filled n s (ok (false, []), s')
  ended-Filled n s s' pos e e' good b = (
    s',
    rw (e, take_of_length-le {A = ℕ} n [] (omega arith)) (ground arith),
    good,
    rw (e, e', drop_of_length-le {A = ℕ} n [] (omega arith)),
    b,
  )

  -- One round, if the rest of the loop does what it should.
  after_read-Filled :
      (fuel n : ℕ) (s : S)
      → 0 < n
      → budget s + n < suc fuel
      → Outcome n s
      → ((n' : ℕ) (s' : S)
          → budget s' + n' < fuel
          → Good s'
          → Filled n' s' (try_read_exact read fuel n' s'))
      → Filled n s (after_read read (try_read_exact read fuel) n (read n s))
  unfolding after_read is_interrupted
  after_read-Filled fuel n s pos h (retried s' e good left b) ih =
      rw e (retried-Filled n s s' _ left b (ih n s' (omega arith) good))
  after_read-Filled fuel n s pos h (delivered [] s' e good left l end b) ih =
      rw e (ended-Filled n s s' pos (end refl) (sym left ∙ end refl) good b)
  after_read-Filled fuel n s pos h (delivered (x ∷ xs) s' e good left l end b) ih =
      let fits : ltb n (length (x ∷ xs)) ≡ false = ground arith in
      rw (e, fits)
        (prepend-Filled n s s' (x ∷ xs) _ left l b (ih (n - length (x ∷ xs)) s' (omega arith) good))

  -- Over every reader that keeps the contract of `Read` (it delivers the next bytes, none only at
  -- the end, or is interrupted, the latter a bounded number of times), with more fuel than the
  -- interruptions to come and the buffer's length together, `try_read_exact` returns: whether the
  -- buffer was filled, and the next bytes of the reader as far as it has them and the buffer has
  -- room. The reader is behind them and has no more interruptions to come than before.
  pub try_read_exact-Filled :
      Contract
      → (fuel n : ℕ) (s : S) → budget s + n < fuel
      → Good s
      → Filled n s (try_read_exact read fuel n s)
  unfolding try_read_exact
  try_read_exact-Filled step zero n s h good = absurd (omega arith)
  try_read_exact-Filled step (suc fuel) zero s h good =
      (s, unfold take in ground arith, good, unfold drop in refl, omega arith)
  try_read_exact-Filled step (suc fuel) (suc m) s h good =
      let more : (suc m == 0) ≡ false = ground arith in
      rw more (
        after_read-Filled fuel (suc m) s (omega arith) h (step (suc m) s (omega arith) good)
          (λ n' s' h' good'. try_read_exact-Filled step fuel n' s' h' good'))
