-- ===== src/DirTree/Removing.antt =====
-- What `remove` of src/fs/fuse/dir_tree.rs does to the paths of the inodes.
use cryptomator_rs.Common.{
  ℕ, suc, ◌<◌, ◌≡◌, refl, ◌==◌, List, [], length, none, some, false, true, ok, eq_bytes_self, arith,
}
use cryptomator_rs.DirTree.Inserting.{IsTree}
use cryptomator_rs.DirTree.Keeping.{taken_lem, take_child_lem}
use cryptomator_rs.DirTree.Linking.{none-IsTree}
use cryptomator_rs.DirTree.Paths.{get_path_lem}
use cryptomator_rs.DirTree.Through.{
  SpellsWithout, SpellsFrom, here, KeepsBut, KeepsBut-trans, Spells-without, path_below_none,
  get_path-none,
}
use cryptomator_rs.DirTree.{Name, Node, DirTree, set_node, set_child, get_path, remove}
use cryptomator_rs.DirTree.Changing.{set_child-Keeps, set_node-KeepsBut, but, node_without}

module _ (t : DirTree) (v : IsTree t) (parent : ℕ) (name : Name) (above : Node) (r : ℕ)
    (found : t.nodes parent ≡ some above) (has : above.children name ≡ some r) where
  abbrev taken_out : DirTree
  taken_out = set_node parent (some (set_child name none above)) t

  remove-eq : remove parent name t ≡ set_node r none taken_out
  unfolding remove
  remove-eq = rw (remove, take_child_lem t parent name above r found has) refl

  removed-KeepsBut : KeepsBut r t (set_node r none taken_out)
  removed-KeepsBut =
      KeepsBut-trans r t taken_out (set_node r none taken_out)
        (but r t taken_out (set_child-Keeps t parent above name none found))
        (set_node-KeepsBut r taken_out none)

  at_apart :
      (parent == r) ≡ false
      → (set_node r none taken_out).nodes parent ≡ some (set_child name none above)
  at_apart apart = let self : (parent == parent) ≡ true = ground arith in rw (apart, self) refl

  -- In a tree whose children are nodes that name their parent and their name, for the child `r` of
  -- a node under the name, where this node's path does not lead through `r`: in the tree that
  -- `remove` leaves, children again name their parent and their name, `get_path` of `r` finds
  -- nothing, the node has no child under the name, `get_path` of every inode whose path does not
  -- lead through `r` returns the path that it had, and `get_path` of every inode below `r` panics.
  pub remove_lem :
      (up : List Name)
      → SpellsWithout t r parent up
      → IsTree (remove parent name t)
        × ((fuel : ℕ) → get_path (suc fuel) r (remove parent name t) ≡ ok none)
        × ((node : Node) × ((remove parent name t).nodes parent ≡ some node)
            × (node.children name ≡ none))
        × ((inode : ℕ) (path : List Name) (fuel : ℕ)
            → SpellsWithout t r inode path
            → length path < fuel
            → get_path fuel inode (remove parent name t) ≡ ok (some path))
        × ((inode : ℕ) (rest : List Name) (fuel : ℕ)
            → SpellsFrom t r inode rest
            → length rest < fuel
            → get_path fuel inode (remove parent name t) ≡ path_below_none rest)
  remove_lem up s =
      let done = taken_lem t parent name above r v found has in
      let t' : DirTree = set_node r none taken_out in
      let gone : t'.nodes r ≡ none = ground arith in
      let (_, _, apart) = node_without t r parent up s in
      rw remove-eq (
        none-IsTree taken_out r done.is_tree done.unlinked,
        λ fuel.
            get_path-none t t' r removed-KeepsBut gone r [] (suc fuel) (here refl refl)
              (omega arith),
        (set_child name none above, at_apart apart, rw (eq_bytes_self name) refl),
        λ inode path fuel s lt.
            get_path_lem t' inode path fuel (Spells-without t t' r removed-KeepsBut inode path s)
              lt,
        λ inode rest fuel s lt. get_path-none t t' r removed-KeepsBut gone inode rest fuel s lt,
      )
