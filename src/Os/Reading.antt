-- ===== src/Os/Reading.antt =====
-- The operating system's file keeps the contract of a reader, unless a read fails.
use cryptomator_rs.Common.{
  ℕ, suc, ◌+◌, ◌≤◌, ◌<◌, ◌≡◌, refl, ap, ◌∙◌, List, [], ◌∷◌, ◌++◌, length, take, drop, min, ok,
  arith, length-take, length-drop, drop-drop, leb, true, Bool-cases, inl, inr, drop-length-take,
  length-eq-zero,
}
use cryptomator_rs.Os.{
  Os, ReadEvent, short, interrupted, failed, Lock, deliver, read, read_event, try_read, try_write,
  lock_for_reading, lock_for_writing,
}
use cryptomator_rs.Util.ReadExact.{try_read_exact}
use cryptomator_rs.Util.ReadExact.Contract.{
  Outcome, Contract, retried, delivered, try_read_exact-Filled,
}

-- No coming read fails. (Short reads and interruptions may come.)
abbrev pub NoFault : List ReadEvent → Type 0
NoFault [] = Unit {0}
NoFault (short k ∷ es) = NoFault es
NoFault (interrupted ∷ es) = NoFault es
NoFault (failed ∷ es) = ⊥

-- What reading leaves alone.
pub record Same (o s : Os) : Type 0 where
  pub same_bytes : s.bytes ≡ o.bytes
  pub same_lock : s.lock ≡ o.lock
  pub same_writable : s.writable ≡ o.writable
  pub same_entropy : s.entropy ≡ o.entropy

pub record Good (o s : Os) : Type 0 where
  pub same : Same o s
  pub inside : s.pos ≤ length s.bytes
  pub no_fault : NoFault s.read_events

abbrev pub rest : Os → List ℕ
rest s = drop s.pos s.bytes

abbrev pub budget : Os → ℕ
budget s = length s.read_events

deliver-Outcome :
    (o s : Os) (events : List ReadEvent) (n k : ℕ)
    → Good o s
    → NoFault events
    → 0 < k
    → k ≤ n
    → length events ≤ length s.read_events
    → read n s ≡ deliver events k s
    → Outcome read (Good o) rest budget n s
deliver-Outcome o s events n k g nf pos le fewer e =
    delivered (take k (rest s)) (deliver events k s).1 e
      (record {
        same = record {
          same_bytes = g.same.same_bytes;
          same_lock = g.same.same_lock;
          same_writable = g.same.same_writable;
          same_entropy = g.same.same_entropy;
        };
        inside = omega (arith, length-take k (rest s), length-drop s.pos s.bytes);
        no_fault = nf;
      })
      (drop-length-take k (rest s)
        ∙ ap (λ t. take k (rest s) ++ t) (drop-drop (length (take k (rest s))) s.pos s.bytes))
      (omega (arith, length-take k (rest s)))
      (λ e0. length-eq-zero (rest s) (omega (arith, length-take k (rest s)))) fewer

read_event-Outcome :
    (o s : Os) (es : List ReadEvent) (n : ℕ)
    → Good o s
    → s.read_events ≡ es
    → NoFault es
    → 0 < n
    → read n s ≡ read_event es n s
    → Outcome read (Good o) rest budget n s
unfolding read_event
read_event-Outcome o s [] n g q nf pos e =
    deliver-Outcome o s [] n n g nf pos (omega arith) (omega arith) e
read_event-Outcome o s (short k ∷ es) n g q nf pos e =
    let count : length s.read_events ≡ suc (length es) = ap length q in
    deliver-Outcome o s es n (min n (suc k)) g nf (omega arith) (omega arith) (omega arith) e
read_event-Outcome o s (interrupted ∷ es) n g q nf pos e =
    let count : length s.read_events ≡ suc (length es) = ap length q in
    retried (record s { read_events = es }) e
      (record {
        same = record {
          same_bytes = g.same.same_bytes;
          same_lock = g.same.same_lock;
          same_writable = g.same.same_writable;
          same_entropy = g.same.same_entropy;
        };
        inside = g.inside;
        no_fault = nf;
      })
      refl (omega arith)
read_event-Outcome o s (failed ∷ es) n g q nf pos e = absurd nf

pub read-Contract : (o : Os) → Contract read (Good o) rest budget
unfolding read
read-Contract o n s pos g = read_event-Outcome o s s.read_events n g refl g.no_fault pos refl

-- What `try_read_exact` does on a file whose reads do not fail: it delivers the next bytes, as far
-- as the file goes, whatever short reads and interruptions come.
pub record HasRead (n : ℕ) (s s' : Os) : Type 0 where
  pub returned :
      try_read_exact read (length s.read_events + n + 1) n s
      ≡ (ok (leb n (length (drop s.pos s.bytes)), take n (drop s.pos s.bytes)), s')
  pub same : Same s s'
  pub moved : s'.pos ≡ s.pos + length (take n (drop s.pos s.bytes))
  pub no_fault : NoFault s'.read_events

-- On a file whose position is within it and whose coming reads do not fail, `try_read_exact`
-- delivers the next bytes, up to the buffer's length and as far as the file goes, with whether they
-- fill the buffer. It moves behind them and leaves the rest of the file's state alone, whatever
-- short reads and interruptions come.
pub try_read_exact-HasRead :
    (n : ℕ) (s : Os) → s.pos ≤ length s.bytes → NoFault s.read_events → (s' : Os) × HasRead n s s'
try_read_exact-HasRead n s inside nf =
    let good : Good s s = record {
      same = record {
        same_bytes = refl;
        same_lock = refl;
        same_writable = refl;
        same_entropy = refl;
      };
      inside = inside;
      no_fault = nf;
    } in
    let (s', e, g, left, b) =
      try_read_exact-Filled read (Good s) rest budget (read-Contract s)
        (length s.read_events + n + 1) n s (omega arith) good in
    (
      s',
      record {
        returned = e;
        same = g.same;
        moved = omega (
          arith,
          ap length left,
          ap length g.same.same_bytes,
          length-take n (rest s),
          length-drop n (rest s),
          length-drop s.pos s.bytes,
          length-drop s'.pos s'.bytes,
        );
        no_fault = g.no_fault;
      },
    )

readable_of_writable : (l : Lock) → lock_for_writing l ≡ true → lock_for_reading l ≡ true
unfolding lock_for_writing lock_for_reading
readable_of_writable Lock.free e = refl
readable_of_writable Lock.shared e = refl
readable_of_writable Lock.exclusive e = e

-- A file that may be locked for writing may be locked for reading.
pub try_read-try_write :
    (s t : Os) → try_write s ≡ (ok tt, s) → t.lock ≡ s.lock → try_read t ≡ (ok tt, t)
unfolding try_read try_write
try_read-try_write s t granted same = elim (Bool-cases (lock_for_writing s.lock)) [
  | inl free ↦ rw (same, readable_of_writable s.lock free) refl
  | inr locked ↦ ground (arith, granted, locked)
]

-- Only the lock decides.
pub try_read-same : (s t : Os) → try_read s ≡ (ok tt, s) → t.lock ≡ s.lock → try_read t ≡ (ok tt, t)
unfolding try_read
try_read-same s t granted same = elim (Bool-cases (lock_for_reading s.lock)) [
  | inl free ↦ rw (same, free) refl
  | inr locked ↦ ground (arith, granted, locked)
]

pub try_write-same :
    (s t : Os) → try_write s ≡ (ok tt, s) → t.lock ≡ s.lock → try_write t ≡ (ok tt, t)
unfolding try_write
try_write-same s t granted same = elim (Bool-cases (lock_for_writing s.lock)) [
  | inl free ↦ rw (same, free) refl
  | inr locked ↦ ground (arith, granted, locked)
]
