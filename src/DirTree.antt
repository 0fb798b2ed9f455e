-- ===== src/DirTree.antt =====
-- src/fs/fuse/dir_tree.rs: the inodes of a mounted file system. A map is a function; a name is its
-- bytes, and a path the list of its components.
pub mod Paths
pub mod Inserting
pub mod RoundTrip
pub mod Again
pub mod Through
pub mod Linking
pub mod Keeping
pub mod Changing
pub mod Removing
pub mod Renaming
mod Tests
use cryptomator_rs.Common.{
  ℕ, zero, suc, ◌+◌, ◌%◌, ◌==◌, List, [], ◌∷◌, ◌++◌, Option, none, some, if◌then◌else◌, eq_bytes,
  Result, ok, err, ◌>>=◌, or_fail, panic, out_of_fuel, u64_limit,
}

abbrev pub Name : Type 0
Name = List ℕ

pub record Node : Type 0 where
  pub name : Name
  pub parent : Option ℕ
  pub children : Name → Option ℕ

pub record DirTree : Type 0 where
  pub nodes : ℕ → Option Node
  pub next_inode : ℕ

abbrev pub no_children : Name → Option ℕ
no_children _ = none

-- `FUSE_ROOT_ID`, of the fuser crate, is the inode of the protocol's root.
abbrev pub fuse_root_id : ℕ
fuse_root_id = 1

abbrev pub set_node : ℕ → Option Node → DirTree → DirTree
set_node inode node t = record t { nodes = λ i. if i == inode then node else t.nodes i }

abbrev pub set_child : Name → Option ℕ → Node → Node
set_child name child node = record node {
  children = λ n. if eq_bytes n name then child else node.children n;
}

unfoldable pub new : DirTree
new = record {
  nodes = λ i.
      if i == fuse_root_id
      then some (record { name = []; parent = none; children = no_children })
      else none;
  next_inode = fuse_root_id + 1;
}

-- The recursion follows the parents; the `unwrap` of a missing parent panics.
unfoldable pub get_path : ℕ → ℕ → DirTree → Result (Option (List Name))
get_path zero inode t = err out_of_fuel
get_path (suc fuel) inode t = elim (t.nodes inode) [
  | none ↦ ok none
  | some node ↦ elim node.parent [
    | none ↦ ok (some [])
    | some p ↦ get_path fuel p t >>= λ found.
        or_fail found panic >>= λ path. ok (some (path ++ (node.name ∷ [])))
  ]
]

-- A new node for `name` under `inode`, with the next number.
unfoldable pub add_child : ℕ → Node → Name → DirTree → ℕ × DirTree
add_child inode node name t =
    let child : Node = record { name = name; parent = some inode; children = no_children } in
    let numbered : DirTree = record t { next_inode = (t.next_inode + 1) % u64_limit } in
    (
      t.next_inode,
      set_node t.next_inode (some child)
          (set_node inode (some (set_child name (some t.next_inode) node)) numbered),
    )

-- One round of `insert_path`: the child of that name, new if there is none.
unfoldable pub insert_component : ℕ → Name → DirTree → Result (ℕ × DirTree)
unfolding add_child
insert_component inode name t = elim (t.nodes inode) [
  | none ↦ err panic
  | some node ↦ elim (node.children name) [
    | some child ↦ ok (child, t)
    | none ↦ ok (add_child inode node name t)
  ]
]

unfoldable pub insert_from : ℕ → List Name → DirTree → Result (ℕ × DirTree)
insert_from inode [] t = ok (inode, t)
insert_from inode (name ∷ names) t = do
  (child, t') ← insert_component inode name t
  insert_from child names t'

unfoldable pub insert_path : List Name → DirTree → Result (ℕ × DirTree)
unfolding insert_from
insert_path = insert_from fuse_root_id

-- Takes the child out of its parent; nothing if there is none.
unfoldable pub take_child : ℕ → Name → DirTree → Option (ℕ × DirTree)
take_child parent name t = elim (t.nodes parent) [
  | none ↦ none
  | some node ↦ elim (node.children name) [
    | none ↦ none
    | some child ↦ some (child, set_node parent (some (set_child name none node)) t)
  ]
]

-- The two `if let`s at the end of `rename`.
abbrev pub update_node : ℕ → (Node → Node) → DirTree → DirTree
update_node inode f t = elim (t.nodes inode) [
  | none ↦ t
  | some node ↦ set_node inode (some (f node)) t
]

unfoldable pub rename : ℕ → Name → ℕ → Name → DirTree → DirTree
unfolding take_child
rename old_parent old_name new_parent new_name t = elim (take_child old_parent old_name t) [
  | none ↦ t
  | some (inode, t') ↦
      update_node new_parent (set_child new_name (some inode))
        (update_node inode (λ node. record node { name = new_name; parent = some new_parent }) t')
]

unfoldable pub remove : ℕ → Name → DirTree → DirTree
unfolding take_child
remove parent name t = elim (take_child parent name t) [
  | none ↦ t
  | some (inode, t') ↦ set_node inode none t'
]
