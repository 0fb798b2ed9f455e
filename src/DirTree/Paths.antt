-- ===== src/DirTree/Paths.antt =====
-- Which path an inode of src/fs/fuse/dir_tree.rs stands for, and that `get_path` returns it.
use cryptomator_rs.Common.{
  ℕ, zero, suc, ◌<◌, ◌≡◌, refl, sym, ap, List, [], ◌∷◌, ◌++◌, length, length-append, none, some, ok,
  arith,
}
use cryptomator_rs.DirTree.{Name, Node, DirTree, get_path}

-- The node `inode` of the tree, with its parents, spells the path.
pub data Spells (t : DirTree) : ℕ → List Name → Type 0 where
  top :
      {inode : ℕ} {path : List Name} (node : Node)
      → t.nodes inode ≡ some node
      → node.parent ≡ none
      → path ≡ []
      → Spells t inode path
  below :
      {inode : ℕ} {path : List Name} (p : ℕ) (node : Node) (up : List Name)
      → t.nodes inode ≡ some node
      → node.parent ≡ some p
      → Spells t p up
      → path ≡ up ++ (node.name ∷ [])
      → Spells t inode path

-- For an inode whose node and parents up to a root spell a path, `get_path` returns this path, with
-- more rounds than the path has components.
pub get_path_lem :
    (t : DirTree) (inode : ℕ) (path : List Name) (fuel : ℕ)
    → Spells t inode path
    → length path < fuel
    → get_path fuel inode t ≡ ok (some path)
unfolding get_path
get_path_lem t inode path zero s lt = absurd (omega arith)
get_path_lem t inode path (suc fuel) (top node found at_top e) lt =
    rw (found, get_path, at_top, e) refl
get_path_lem t inode path (suc fuel) (below p node up found has_parent s e) lt =
    rw
      (
        found,
        get_path,
        has_parent,
        get_path_lem t p up fuel s (omega (arith, ap length e, length-append up (node.name ∷ []))),
      )
      (ap (λ q. ok (some q)) (sym e))
