-- ===== src/Os.antt =====
-- An open file of the operating system (`std::fs::File` behind `fd_lock::RwLock`), as the state
-- that the code's calls see and change. `read_events` says how the next reads go: each call takes
-- one, and with none left a read delivers all that it can.
pub mod Reading
mod Tests
use cryptomator_rs.Common.{
  ℕ, ◌+◌, ◌-◌, ◌≤◌, ◌≡◌, List, [], ◌∷◌, ◌++◌, length, take, drop, replicate, min, Bool, Result, ok,
  err, Error, IoKind, io, if◌then◌else◌, ltb, suc,
}
use cryptomator_rs.Rng.{Rng}

pub data ReadEvent : Type 0 where
  -- delivers at most this many bytes and one more
  short : ℕ → ReadEvent
  interrupted failed : ReadEvent

-- The locks that other processes hold on the file.
pub data Lock : Type 0 where
  free shared exclusive : Lock

-- How a file was opened: only for reading, for writing at the position, or with `O_APPEND`.
pub data WriteMode : Type 0 where
  read_only anywhere at_end_only : WriteMode

pub record Os : Type 0 where
  pub bytes : List ℕ
  pub pos : ℕ
  pub read_events : List ReadEvent
  pub lock : Lock
  pub writable : WriteMode
  pub entropy : Rng

-- A computation on the file: it keeps the state on an error too.
abbrev pub M : Type 0 → Type 0
M A = Os → Result A × Os

abbrev pub pure : {A : Type 0} → A → M A
pure a s = (ok a, s)

abbrev pub fail : {A : Type 0} → Error → M A
fail e s = (err e, s)

-- How a step's outcome goes on.
abbrev pub continue : {A B : Type 0} → (A → M B) → Result A × Os → Result B × Os
continue f (ok a, s) = f a s
continue f (err e, s) = (err e, s)

infixl 5 ◌>>=◌ ◌>>◌
abbrev pub ◌>>=◌ : {A B : Type 0} → M A → (A → M B) → M B
◌>>=◌ m f s = continue f (m s)

abbrev pub ◌>>◌ : {B : Type 0} → M (Unit {0}) → M B → M B
m >> k = m >>= λ _. k

abbrev pub lift : {A : Type 0} → Result A → M A
lift r s = (r, s)

abbrev pub guard : Bool → Error → M (Unit {0})
guard b e s = if b then (ok tt, s) else (err e, s)

abbrev pub gets : {A : Type 0} → (Os → A) → M A
gets f s = (ok (f s), s)

-- The bytes that a read of `n` delivers, and the position behind them.
abbrev pub deliver : List ReadEvent → ℕ → Os → Result (List ℕ) × Os
deliver events n s =
    let out = take n (drop s.pos s.bytes) in
    (ok out, record s { pos = s.pos + length out; read_events = events })

read_event : List ReadEvent → ℕ → Os → Result (List ℕ) × Os
read_event [] n s = deliver [] n s
read_event (short k ∷ events) n s = deliver events (min n (suc k)) s
read_event (interrupted ∷ events) n s =
    (err (io IoKind.interrupted), record s { read_events = events })
read_event (failed ∷ events) n s = (err (io IoKind.other), record s { read_events = events })

-- `Read::read` with a buffer of `n` bytes.
unfoldable pub read : ℕ → M (List ℕ)
unfolding read_event
read n s = read_event s.read_events n s

-- `stream_position` and the length in the metadata.
unfoldable pub ciphertext_pos : M ℕ
ciphertext_pos = gets (λ s. s.pos)

unfoldable pub ciphertext_len : M ℕ
ciphertext_len = gets (λ s. length s.bytes)

unfoldable pub seek_to : ℕ → M (Unit {0})
seek_to n s = (ok tt, record s { pos = n })

-- Writing at a position: a gap is filled by zeros.
unfoldable pub write_at : List ℕ → ℕ → List ℕ → List ℕ
write_at bytes n new =
    take n bytes ++ (replicate (n - length bytes) 0 ++ (new ++ drop (n + length new) bytes))

abbrev pub write_as : WriteMode → List ℕ → M (Unit {0})
write_as read_only new s = (err (io IoKind.other), s)
write_as anywhere new s =
    (ok tt, record s { bytes = write_at s.bytes s.pos new; pos = s.pos + length new })
write_as at_end_only new s =
    (ok tt, record s { bytes = s.bytes ++ new; pos = length s.bytes + length new })

-- With `O_APPEND` a write goes to the end of the file, wherever it stood.
unfoldable pub write_all : List ℕ → M (Unit {0})
unfolding write_at
write_all new s = write_as s.writable new s

lock_for_reading : Lock → Bool
lock_for_reading exclusive = Bool.false
lock_for_reading _ = Bool.true

lock_for_writing : Lock → Bool
lock_for_writing free = Bool.true
lock_for_writing _ = Bool.false

unfoldable pub try_read : M (Unit {0})
unfolding lock_for_reading
try_read s = guard (lock_for_reading s.lock) (io IoKind.would_block) s

unfoldable pub try_write : M (Unit {0})
unfolding lock_for_writing
try_write s = guard (lock_for_writing s.lock) (io IoKind.would_block) s
