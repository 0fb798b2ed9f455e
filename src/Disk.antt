-- ===== src/Disk.antt =====
-- The directories and files of the operating system, as `std::fs` shows them: a list of paths with
-- what stands there, and the inodes with their bytes and attributes. Open files refer to inodes, so
-- that they see each other's writes and live on when their path is removed.
pub mod Handles
pub mod ReadOnly
pub mod Inversion
pub mod Growing
pub mod Making
pub mod Creating
pub mod Removing
use cryptomator_rs.Common.{
  ℕ, zero, suc, ◌+◌, ◌==◌, List, [], ◌∷◌, ◌++◌, length, Option, none, some, Bool, true, false, not,
  ◌&&◌, if◌then◌else◌, Result, ok, err, Error, IoKind, io, panic, or_fail,
}
use cryptomator_rs.FilePath.{Name, FilePath, eq_path, strip_prefix, parent_of, join}
use cryptomator_rs.Os.{ReadEvent, Lock}
use cryptomator_rs.Primitives.{Primitives}
use cryptomator_rs.Rng.{Rng, try_fill_bytes}

-- The part of `std::fs::Metadata` besides the length; a time is `none` where the platform has none.
pub record Attr : Type 0 where
  pub mode : ℕ
  pub accessed : Option ℕ
  pub modified : Option ℕ
  pub created : Option ℕ
  pub blocks : ℕ
  pub nlink : ℕ
  pub uid : ℕ
  pub gid : ℕ
  pub rdev : ℕ
  pub blksize : ℕ

pub record Metadata : Type 0 where
  pub len : ℕ
  pub attr : Attr

pub data Node : Type 0 where
  file : ℕ → Node
  directory : ℕ → Node

pub record Inode : Type 0 where
  pub bytes : List ℕ
  pub attr : Attr

-- `dir_len` is the length that the system reports for a directory, and `fresh` what it gives a new
-- file or directory.
pub record World : Type 0 where
  pub entries : List (FilePath × Node)
  pub inodes : ℕ → Inode
  pub next_number : ℕ
  pub fresh : Attr
  pub dir_len : FilePath → ℕ
  pub entropy : Rng
  pub read_events : List ReadEvent
  pub locks : ℕ → Lock

-- A computation on the disk: what it did stays done when it fails.
abbrev pub Io : Type 0 → Type 0
Io A = World → Result A × World

abbrev pub return : {A : Type 0} → A → Io A
return value w = (ok value, w)

abbrev pub fail_with : {A : Type 0} → Error → Io A
fail_with failure w = (err failure, w)

abbrev pub resume : {A B : Type 0} → (A → Io B) → Result A × World → Result B × World
resume next (ok value, w) = next value w
resume next (err failure, w) = (err failure, w)

infixl 5 ◌>>=◌ ◌>>◌
unfoldable pub ◌>>=◌ : {A B : Type 0} → Io A → (A → Io B) → Io B
◌>>=◌ first next w = resume next (first w)

abbrev pub ◌>>◌ : {B : Type 0} → Io (Unit {0}) → Io B → Io B
first >> second = first >>= λ _. second

-- A step without input or output, and a question to the disk.
abbrev pub from : {A : Type 0} → Result A → Io A
from outcome w = (outcome, w)

abbrev pub ask : {A : Type 0} → (World → Result A) → Io A
ask f w = (f w, w)

-- What is at a path; "/" is always a directory.
unfoldable pub lookup : FilePath → List (FilePath × Node) → Option Node
lookup path [] = none
lookup path ((q, node) ∷ rest) =
    let below = lookup path rest in if eq_path path q then some node else below

unfoldable pub node_at : FilePath → World → Option Node
unfolding lookup
node_at [] w = some (directory 0)
node_at (name ∷ path) w = lookup (name ∷ path) w.entries

-- Keeps the entries whose path passes.
unfoldable pub keep : (FilePath → Bool) → List (FilePath × Node) → List (FilePath × Node)
keep test [] = []
keep test ((q, node) ∷ rest) =
    let kept = keep test rest in if test q then (q, node) ∷ kept else kept

abbrev pub put : FilePath → Node → World → World
put path node w = record w { entries = (path, node) ∷ keep (λ q. not (eq_path path q)) w.entries }

-- The inode of a number, changed.
abbrev pub set_inode : ℕ → Inode → World → World
set_inode number inode w = record w { inodes = λ n. if n == number then inode else w.inodes n }

-- A new inode of this kind, without bytes, at the path.
abbrev pub add_node : FilePath → (ℕ → Node) → World → World
add_node path kind w = put path (kind w.next_number) (
    set_inode w.next_number (record { bytes = []; attr = w.fresh })
      (record w { next_number = suc w.next_number }))

abbrev pub is_file_node : Option Node → Bool
is_file_node (some (file n)) = true
is_file_node _ = false

abbrev pub is_dir_node : Option Node → Bool
is_dir_node (some (directory n)) = true
is_dir_node _ = false

-- `Path::is_file`, `Path::is_dir` and `Path::metadata`.
abbrev pub is_file : FilePath → Io Bool
is_file path = ask (λ w. ok (is_file_node (node_at path w)))

abbrev pub is_dir : FilePath → Io Bool
is_dir path = ask (λ w. ok (is_dir_node (node_at path w)))

abbrev pub metadata_of : FilePath → Option Node → World → Result Metadata
metadata_of path none w = err (io IoKind.not_found)
metadata_of path (some (file n)) w =
    ok (record { len = length (w.inodes n).bytes; attr = (w.inodes n).attr })
metadata_of path (some (directory n)) w =
    ok (record { len = w.dir_len path; attr = (w.inodes n).attr })

abbrev pub metadata : FilePath → Io Metadata
metadata path = ask (λ w. metadata_of path (node_at path w) w)

-- `fs::read_to_string`, with the library's check of the bytes.
abbrev pub text_of : Primitives → Option Node → World → Result Name
text_of p none w = err (io IoKind.not_found)
text_of p (some (directory n)) w = err (io IoKind.other)
text_of p (some (file n)) w = or_fail (p.from_utf8 (w.inodes n).bytes) (io IoKind.invalid_data)

abbrev pub read_to_string : Primitives → FilePath → Io Name
read_to_string p path = ask (λ w. text_of p (node_at path w) w)

-- The names in a directory, in the order of the list.
unfoldable pub names_in : FilePath → List (FilePath × Node) → List Name
names_in dir [] = []
names_in dir ((q, node) ∷ rest) =
    let others = names_in dir rest in
    elim (strip_prefix dir q) [ some (name ∷ []) ↦ name ∷ others | _ ↦ others ]

abbrev pub listing : FilePath → Option Node → World → Result (List Name)
listing dir none w = err (io IoKind.not_found)
listing dir (some (file n)) w = err (io IoKind.other)
listing dir (some (directory n)) w = ok (names_in dir w.entries)

-- `Path::read_dir`, with all its entries.
abbrev pub read_dir : FilePath → Io (List Name)
read_dir dir = ask (λ w. listing dir (node_at dir w) w)

-- A new entry needs a directory to stand in.
abbrev pub in_directory : FilePath → (World → World) → Io (Unit {0})
in_directory path change w =
    if is_dir_node (node_at (parent_of path) w)
    then (ok tt, change w)
    else (err (io IoKind.not_found), w)

-- `fs::write`: the bytes become the whole file.
abbrev pub write_node : FilePath → List ℕ → Option Node → Io (Unit {0})
write_node path new none w =
    in_directory path
      (λ w. set_inode w.next_number (record { bytes = new; attr = w.fresh }) (add_node path file w))
      w
write_node path new (some (file n)) w = (ok tt, set_inode n (record (w.inodes n) { bytes = new }) w)
write_node path new (some (directory n)) w = (err (io IoKind.other), w)

unfoldable pub write : FilePath → List ℕ → Io (Unit {0})
write path new w = write_node path new (node_at path w) w

-- `fs::create_dir_all`: every directory on the way that is missing. What is there must be one.
abbrev pub create_dir : FilePath → Option Node → Io (Unit {0})
create_dir path none w = (ok tt, add_node path directory w)
create_dir path (some (directory n)) w = (ok tt, w)
create_dir path (some (file n)) w = (err (io IoKind.already_exists), w)

unfoldable pub create_dirs_from : FilePath → List Name → Io (Unit {0})
create_dirs_from made [] = return tt
create_dirs_from made (name ∷ names) = do
  λ w. create_dir (join made name) (node_at (join made name) w) w
  create_dirs_from (join made name) names

abbrev pub create_dir_all : FilePath → Io (Unit {0})
create_dir_all path = create_dirs_from [] path

abbrev pub is_below : FilePath → FilePath → Bool
is_below dir path = elim (strip_prefix dir path) [ none ↦ false | some rest ↦ true ]

abbrev pub remove_tree : FilePath → World → World
remove_tree path w = record w { entries = keep (λ q. not (is_below path q)) w.entries }

-- `fs::remove_file` and `fs::remove_dir_all`.
abbrev pub remove_file_node : FilePath → Option Node → Io (Unit {0})
remove_file_node path none w = (err (io IoKind.not_found), w)
remove_file_node path (some (file n)) w = (ok tt, remove_tree path w)
remove_file_node path (some (directory n)) w = (err (io IoKind.other), w)

unfoldable pub remove_file : FilePath → Io (Unit {0})
remove_file path w = remove_file_node path (node_at path w) w

abbrev pub remove_dir_node : FilePath → Option Node → Io (Unit {0})
remove_dir_node path none w = (err (io IoKind.not_found), w)
remove_dir_node path (some (file n)) w = (err (io IoKind.other), w)
remove_dir_node path (some (directory n)) w = (ok tt, remove_tree path w)

unfoldable pub remove_dir_all : FilePath → Io (Unit {0})
remove_dir_all path w = remove_dir_node path (node_at path w) w

-- Puts what is at and below a path under another one.
abbrev pub moved_path : FilePath → FilePath → FilePath → FilePath
moved_path old new q = elim (strip_prefix old q) [ none ↦ q | some rest ↦ new ++ rest ]

unfoldable pub move_entries : FilePath → FilePath → List (FilePath × Node) → List (FilePath × Node)
move_entries old new [] = []
move_entries old new ((q, node) ∷ rest) = (moved_path old new q, node) ∷ move_entries old new rest

abbrev pub move : FilePath → FilePath → World → World
move old new w = record w {
  entries = move_entries old new (keep (λ q. not (is_below new q)) w.entries);
}

abbrev pub is_empty_dir : FilePath → World → Bool
is_empty_dir path w = elim (names_in path w.entries) [ [] ↦ true | _ ∷ _ ↦ false ]

-- `fs::rename`, as `rename(2)`: a file replaces a file, a directory an empty directory, and a
-- directory does not move into itself.
abbrev pub rename_node : FilePath → FilePath → Option Node → Option Node → Io (Unit {0})
rename_node old new none _ w = (err (io IoKind.not_found), w)
rename_node old new (some (file n)) none w = in_directory new (move old new) w
rename_node old new (some (file n)) (some (file k)) w = (ok tt, move old new w)
rename_node old new (some (file n)) (some (directory k)) w = (err (io IoKind.other), w)
rename_node old new (some (directory n)) none w =
    if is_below old new then (err (io IoKind.other), w) else in_directory new (move old new) w
rename_node old new (some (directory n)) (some (file k)) w = (err (io IoKind.other), w)
rename_node old new (some (directory n)) (some (directory k)) w =
    if is_empty_dir new w && not (is_below old new)
    then (ok tt, move old new w)
    else (err (io IoKind.other), w)

abbrev is_there : Option Node → Bool
is_there none = false
is_there (some _) = true

-- A path that is renamed to itself stays.
unfoldable pub rename : FilePath → FilePath → Io (Unit {0})
rename old new w =
    let renamed = rename_node old new (node_at old w) (node_at new w) w in
    if eq_path old new && is_there (node_at old w) then (ok tt, w) else renamed

-- `fs::set_permissions` and `File::set_times`, which changes the times that are given.
abbrev pub number_of : Option Node → Result ℕ
number_of none = err (io IoKind.not_found)
number_of (some (file n)) = ok n
number_of (some (directory n)) = ok n

abbrev pub change_attr : (Attr → Attr) → Result ℕ → Io (Unit {0})
change_attr f (err failure) w = (err failure, w)
change_attr f (ok n) w = (ok tt, set_inode n (record (w.inodes n) { attr = f (w.inodes n).attr }) w)

unfoldable pub set_permissions : FilePath → ℕ → Io (Unit {0})
set_permissions path mode w =
    change_attr (λ a. record a { mode = mode }) (number_of (node_at path w)) w

pub record FileTimes : Type 0 where
  pub set_accessed : Option ℕ
  pub set_modified : Option ℕ

abbrev pub given : Option ℕ → Option ℕ → Option ℕ
given none old = old
given (some t) old = some t

unfoldable pub set_times : FilePath → FileTimes → Io (Unit {0})
set_times path times w =
    change_attr
      (λ a. record a {
        accessed = given times.set_accessed a.accessed;
        modified = given times.set_modified a.modified;
      })
      (number_of (node_at path w)) w

-- Bytes from the system's random numbers, for a library that panics without them.
unfoldable pub random_bytes : ℕ → Io (List ℕ)
random_bytes n w = elim (try_fill_bytes w.entropy n) [
  | ok (bytes, rng) ↦ (ok bytes, record w { entropy = rng })
  | err _ ↦ (err panic, w)
]
