-- ===== src/FilePath.antt =====
-- Paths (`std::path`), as the list of their components, and names as their bytes.
pub mod Extension
pub mod Equality
use cryptomator_rs.Common.{
  ℕ, zero, suc, ◌+◌, ◌-◌, ◌==◌, List, [], ◌∷◌, ◌++◌, length, take, drop, Option, none, some, Bool,
  true, false, ◌&&◌, ltb, if◌then◌else◌, eq_bytes,
}

abbrev pub Name : Type 0
Name = List ℕ

abbrev pub FilePath : Type 0
FilePath = List Name

-- '.' and '/'.
abbrev pub dot : ℕ
dot = 46

abbrev pub slash : ℕ
slash = 47

-- ".c9r", ".c9s", and these extensions.
abbrev pub c9r : Name
c9r = 99 ∷ 57 ∷ 114 ∷ []

abbrev pub c9s : Name
c9s = 99 ∷ 57 ∷ 115 ∷ []

abbrev pub dot_c9r : Name
dot_c9r = dot ∷ c9r

abbrev pub dot_c9s : Name
dot_c9s = dot ∷ c9s

-- "dir.c9r", "name.c9s", "contents.c9r", "symlink.c9r", "dirid.c9r" and "d".
abbrev pub dir_c9r : Name
dir_c9r = 100 ∷ 105 ∷ 114 ∷ dot_c9r

abbrev pub name_c9s : Name
name_c9s = 110 ∷ 97 ∷ 109 ∷ 101 ∷ dot_c9s

abbrev pub contents_c9r : Name
contents_c9r = 99 ∷ 111 ∷ 110 ∷ 116 ∷ 101 ∷ 110 ∷ 116 ∷ 115 ∷ dot_c9r

abbrev pub symlink_c9r : Name
symlink_c9r = 115 ∷ 121 ∷ 109 ∷ 108 ∷ 105 ∷ 110 ∷ 107 ∷ dot_c9r

abbrev pub dirid_c9r : Name
dirid_c9r = 100 ∷ 105 ∷ 114 ∷ 105 ∷ 100 ∷ dot_c9r

abbrev pub d : Name
d = 100 ∷ []

-- `join` with one name.
abbrev pub join : FilePath → Name → FilePath
join path name = path ++ (name ∷ [])

-- ".."
abbrev pub dotdot : Name
dotdot = dot ∷ dot ∷ []

-- `file_name` and `parent`; the empty path has neither, and ".." is not a file's name.
unfoldable pub file_name : FilePath → Option Name
file_name [] = none
file_name (name ∷ []) = if eq_bytes name dotdot then none else some name
file_name (name ∷ next ∷ path) = file_name (next ∷ path)

unfoldable pub parent_of : FilePath → FilePath
parent_of [] = []
parent_of (name ∷ []) = []
parent_of (name ∷ next ∷ path) = name ∷ parent_of (next ∷ path)

unfoldable pub parent : FilePath → Option FilePath
unfolding parent_of
parent [] = none
parent (name ∷ path) = some (parent_of (name ∷ path))

unfoldable pub eq_path : FilePath → FilePath → Bool
eq_path [] [] = true
eq_path (x ∷ xs) (y ∷ ys) = eq_bytes x y && eq_path xs ys
eq_path _ _ = false

-- What is left of the second path behind the first, if it is a prefix (`strip_prefix`).
unfoldable pub strip_prefix : FilePath → FilePath → Option FilePath
strip_prefix [] path = some path
strip_prefix (x ∷ xs) [] = none
strip_prefix (x ∷ xs) (y ∷ ys) =
    let rest = strip_prefix xs ys in if eq_bytes x y then rest else none

-- The bytes of a relative path (`as_os_str`).
unfoldable pub path_bytes : FilePath → Name
path_bytes [] = []
path_bytes (name ∷ []) = name
path_bytes (name ∷ next ∷ path) = name ++ (slash ∷ path_bytes (next ∷ path))

-- One byte in front of what the bytes behind it split into.
abbrev pub add_byte : ℕ → List Name → List Name
add_byte b [] = (b ∷ []) ∷ []
add_byte b (name ∷ names) = (b ∷ name) ∷ names

-- The parts between the separators.
unfoldable pub split_slash : Name → List Name
split_slash [] = [] ∷ []
split_slash (b ∷ bytes) =
    if b == slash then [] ∷ split_slash bytes else add_byte b (split_slash bytes)

-- Empty components and single dots are no components.
unfoldable pub keep_components : List Name → FilePath
keep_components [] = []
keep_components ([] ∷ names) = keep_components names
keep_components ((b ∷ bytes) ∷ names) =
    if eq_bytes (b ∷ bytes) (dot ∷ [])
    then keep_components names
    else (b ∷ bytes) ∷ keep_components names

unfoldable pub components : Name → FilePath
unfolding split_slash keep_components
components bytes = keep_components (split_slash bytes)

-- `join` with a text that may have several components; an absolute one replaces the path.
unfoldable pub join_text : FilePath → Name → FilePath
unfolding components
join_text path [] = path
join_text path (b ∷ bytes) = if b == slash then components bytes else path ++ components (b ∷ bytes)

-- The order of byte strings and of paths, as `Ord` has it: the first is smaller.
unfoldable pub lt_bytes : List ℕ → List ℕ → Bool
lt_bytes [] [] = false
lt_bytes [] (y ∷ ys) = true
lt_bytes (x ∷ xs) [] = false
lt_bytes (x ∷ xs) (y ∷ ys) =
    let rest = lt_bytes xs ys in if ltb x y then true else if x == y then rest else false

unfoldable pub lt_path : FilePath → FilePath → Bool
unfolding lt_bytes
lt_path [] [] = false
lt_path [] (y ∷ ys) = true
lt_path (x ∷ xs) [] = false
lt_path (x ∷ xs) (y ∷ ys) =
    let rest = lt_path xs ys in if lt_bytes x y then true else if eq_bytes x y then rest else false
