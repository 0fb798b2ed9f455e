-- ===== src/Os/Tests.antt =====
-- The theorems on `try_read_exact`, applied to a file with a short read and an interruption.
use cryptomator_rs.Common.{refl, [], ◌∷◌, arith}
use cryptomator_rs.Os.Reading.{Good, rest, budget, read-Contract}
use cryptomator_rs.Os.{anywhere, Os, Lock, short, interrupted, read}
use cryptomator_rs.Util.ReadExact.Contract.{Filled, try_read_exact-Filled}
use cryptomator_rs.Util.ReadExact.{try_read_exact}

abbrev file : Os
file = record {
  bytes = 1 ∷ 2 ∷ 3 ∷ 4 ∷ 5 ∷ 6 ∷ [];
  pos = 1;
  read_events = short 0 ∷ interrupted ∷ short 1 ∷ [];
  lock = Lock.free;
  writable = anywhere;
  entropy = [];
}

file-Good : Good file file
file-Good = record {
  same = record { same_bytes = refl; same_lock = refl; same_writable = refl; same_entropy = refl };
  inside = omega arith;
  no_fault = tt;
}

try_read_exact-Filled_example :
    Filled read (Good file) rest budget 4 file (try_read_exact read 8 4 file)
try_read_exact-Filled_example =
    try_read_exact-Filled read (Good file) rest budget (read-Contract file) 8 4 file (omega arith)
      file-Good
