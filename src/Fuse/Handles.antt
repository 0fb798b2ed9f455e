-- ===== src/Fuse/Handles.antt =====
-- The parts that the handlers of src/fs/fuse.rs are made of keep the tables of handles sound.
use native.Mathlib.Decide.{dec_lt}
use cryptomator_rs.Common.{
  ℕ, suc, ◌≤◌, ◌<◌, ◌≡◌, inl, inr, List, Option, none, some, Result, ok, err, Error, arith,
  u64_limit, Bool-cases, Option-cases,
}
use cryptomator_rs.DirTree.{DirTree, get_path, insert_path}
use cryptomator_rs.Disk.Handles.{OpenFile, run_file}
use cryptomator_rs.Disk.{World, Io}
use cryptomator_rs.FileSystem.{DirEntry}
use cryptomator_rs.FilePath.{FilePath}
use cryptomator_rs.Fuse.Files.{at_handle}
use cryptomator_rs.Fuse.{
  Mount, Reply, Errno, eio, failure, is_panic, opened, created, error, Handler, reply, on_disk,
  served, with_path, with_inode, found_path, numbered, set_key, on_open, ran,
}
use cryptomator_rs.Fuse.Tables.{Sound, set_file-Table}
use cryptomator_rs.Os.{Os}

module _ (files : ℕ → Option OpenFile) (dirs : ℕ → Option (List (FilePath × DirEntry))) where
  -- A handle that a reply gives out was free.
  abbrev pub IsFree : ℕ → Type 0
  IsFree fh = (files fh ≡ none) × (dirs fh ≡ none)

  abbrev pub GivesFree : Reply → Type 0
  GivesFree (opened fh flags) = IsFree fh
  GivesFree (created a fh flags) = IsFree fh
  GivesFree _ = Unit {0}

  -- What a handler makes of a mount with these tables.
  pub record KeepsTables (next : ℕ) (out : Reply × Mount) : Type 0 where
    pub sound : Sound out.1
    pub near : out.1.next_handle ≤ suc next
    pub gives_free : GivesFree out.0

abbrev pub Keeps : Mount → Reply × Mount → Type 0
Keeps m out = KeepsTables m.open_files m.open_dirs m.next_handle out

-- A handler that does so while the numbers last.
abbrev pub Good : Handler → Type 0
Good h = (m : Mount) → Sound m → suc m.next_handle < u64_limit → Keeps m (h m)

failure-GivesFree :
    (files : ℕ → Option OpenFile) (dirs : ℕ → Option (List (FilePath × DirEntry)))
    → (code : Errno) (e : Error) → GivesFree files dirs (failure code e)
failure-GivesFree files dirs code e = elim (Bool-cases (is_panic e)) [
  | inl p ↦ rw p tt
  | inr n ↦ rw n tt
]

-- Replies that give no handle.
pub error-Good : (code : Errno) → Good (reply (error code))
error-Good code m s room = record { sound = s; near = omega arith; gives_free = tt }

served-Keeps :
    {A : Type 0} (code : Errno) (next : A → Handler) (m : Mount) (out : Result A × World)
    → ((a : A) → Good (next a))
    → Sound m
    → suc m.next_handle < u64_limit
    → Keeps m (served code next m out)
served-Keeps code next m (ok a, w) good s room = good a (record m { disk = w }) s room
served-Keeps code next m (err e, w) good s room = record {
  sound = s;
  near = omega arith;
  gives_free = failure-GivesFree m.open_files m.open_dirs code e;
}

pub on_disk-Good :
    {A : Type 0} (code : Errno) (action : Io A) (next : A → Handler)
    → ((a : A) → Good (next a))
    → Good (on_disk code action next)
unfolding on_disk
on_disk-Good code action next good m s room = served-Keeps code next m (action m.disk) good s room

found_path-Keeps :
    (next : FilePath → Handler) (m : Mount) (out : Result (Option FilePath))
    → ((path : FilePath) → Good (next path))
    → Sound m
    → suc m.next_handle < u64_limit
    → Keeps m (found_path next m out)
found_path-Keeps next m (ok (some path)) good s room = good path m s room
found_path-Keeps next m (ok none) good s room = record {
  sound = s;
  near = omega arith;
  gives_free = tt;
}
found_path-Keeps next m (err e) good s room = record {
  sound = s;
  near = omega arith;
  gives_free = tt;
}

pub with_path-Good :
    (inode : ℕ) (next : FilePath → Handler)
    → ((path : FilePath) → Good (next path))
    → Good (with_path inode next)
unfolding with_path
with_path-Good inode next good m s room =
    found_path-Keeps next m (get_path (suc m.tree.next_inode) inode m.tree) good s room

numbered-Keeps :
    (next : ℕ → Handler) (m : Mount) (out : Result (ℕ × DirTree))
    → ((inode : ℕ) → Good (next inode))
    → Sound m
    → suc m.next_handle < u64_limit
    → Keeps m (numbered next m out)
numbered-Keeps next m (ok (inode, t)) good s room = good inode (record m { tree = t }) s room
numbered-Keeps next m (err e) good s room = record {
  sound = s;
  near = omega arith;
  gives_free = tt;
}

pub with_inode-Good :
    (path : FilePath) (next : ℕ → Handler)
    → ((inode : ℕ) → Good (next inode))
    → Good (with_inode path next)
unfolding with_inode
with_inode-Good path next good m s room =
    numbered-Keeps next m (insert_path path m.tree) good s room

-- A handler that replies without a handle and changes no table.
pub plain-Good :
    (next : Handler)
    → ((m : Mount) → Sound m → Sound (next m).1)
    → ((m : Mount) → (next m).1.next_handle ≡ m.next_handle)
    → ((m : Mount) → GivesFree m.open_files m.open_dirs (next m).0)
    → Good next
plain-Good next keeps same gives m s room = record {
  sound = keeps m s;
  near = omega (arith, same m);
  gives_free = gives m;
}

pub reply-Good :
    (r : Reply)
    → ((files : ℕ → Option OpenFile) (dirs : ℕ → Option (List (FilePath × DirEntry)))
        → GivesFree files dirs r)
    → Good (reply r)
reply-Good r gives m s room = record {
  sound = s;
  near = omega arith;
  gives_free = gives m.open_files m.open_dirs;
}

-- A file that is open stays in the table, whatever came out, under replies that give no handle.
abbrev pub AtOpen : ℕ → Handler → Type 0
AtOpen fh h =
    (files : ℕ → Option OpenFile) (m : Mount)
    → Sound m
    → suc m.next_handle < u64_limit
    → fh < m.next_handle
    → m.open_dirs fh ≡ none
    → KeepsTables files m.open_dirs m.next_handle (h m)

ran-Keeps :
    {A : Type 0} (fh : ℕ) (next : A → OpenFile → Handler) (files : ℕ → Option OpenFile) (m : Mount)
    → (out : (Result A × OpenFile) × World) → ((a : A) (e : OpenFile) → AtOpen fh (next a e))
    → Sound m
    → suc m.next_handle < u64_limit
    → fh < m.next_handle
    → m.open_dirs fh ≡ none
    → KeepsTables files m.open_dirs m.next_handle (ran fh next m out)
ran-Keeps fh next files m ((ok a, e), w) good s room lt no_dir =
    good a e files (record m { open_files = set_key fh (some e) m.open_files; disk = w })
      (set_file-Table fh (some e) (λ le. absurd (omega arith)) (inr no_dir) s) room lt no_dir
ran-Keeps fh next files m ((err failed, e), w) good s room lt no_dir = record {
  sound = set_file-Table fh (some e) (λ le. absurd (omega arith)) (inr no_dir) s;
  near = omega arith;
  gives_free = failure-GivesFree files m.open_dirs eio failed;
}

pub on_open-AtOpen :
    {A : Type 0} (fh : ℕ) (e : OpenFile) (action : Os → Result A × Os)
    (next : A → OpenFile → Handler)
    → ((a : A) (e : OpenFile) → AtOpen fh (next a e))
    → AtOpen fh (on_open fh e action next)
unfolding on_open
on_open-AtOpen fh e action next good files m s room lt no_dir =
    ran-Keeps fh next files m (run_file e action m.disk) good s room lt no_dir

pub reply-AtOpen :
    (fh : ℕ) (r : Reply)
    → ((files : ℕ → Option OpenFile) (dirs : ℕ → Option (List (FilePath × DirEntry)))
        → GivesFree files dirs r)
    → AtOpen fh (reply r)
reply-AtOpen fh r gives files m s room lt no_dir = record {
  sound = s;
  near = omega arith;
  gives_free = gives files m.open_dirs;
}

-- An found file's handle has been given out, and is no directory's.
in_use :
    (fh : ℕ) (e : OpenFile) (m : Mount) → Sound m → m.open_files fh ≡ some e → fh < m.next_handle
in_use fh e m s found = elim (dec_lt fh m.next_handle) [
  | yes lt ↦ lt
  | no ge ↦ absurd (ground (arith, found, (s.unused fh (omega arith)).0))
]

not_dir :
    (fh : ℕ) (e : OpenFile) (m : Mount) → Sound m → m.open_files fh ≡ some e → m.open_dirs fh ≡ none
not_dir fh e m s found = elim (s.apart fh) [
  | inl closed ↦ absurd (ground (arith, found, closed))
  | inr no_dir ↦ no_dir
]

-- The handle that a request names, if it is that of an found file.
pub at_handle-Good :
    (fh : ℕ) (next : OpenFile → Handler)
    → ((e : OpenFile) → AtOpen fh (next e))
    → Good (at_handle fh next)
unfolding at_handle
at_handle-Good fh next good m s room = elim (Option-cases (m.open_files fh)) [
  | inl closed ↦ rw (at_handle, closed) (record { sound = s; near = omega arith; gives_free = tt })
  | inr (e, in_table) ↦
      rw (at_handle, in_table)
        (good e m.open_files m s room (in_use fh e m s in_table) (not_dir fh e m s in_table))
]
