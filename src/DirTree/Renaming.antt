-- ===== src/DirTree/Renaming.antt =====
-- What `rename` of src/fs/fuse/dir_tree.rs does to the paths of the inodes.
use mathlib.Core.Path.{subst}
use cryptomator_rs.Common.{
  ℕ, ◌+◌, ◌≡◌, refl, sym, ◌∙◌, ap, ◌==◌, ==_iff, List, [], ◌∷◌, ◌++◌, length, length-append, none,
  some, true, Bool-cases, inl, inr, ok, eq_bytes_self, arith,
}
use cryptomator_rs.DirTree.Inserting.{IsTree}
use cryptomator_rs.DirTree.Keeping.{
  Taken, taken_lem, take_child_lem, update_node-found, moved-IsTree,
}
use cryptomator_rs.DirTree.Paths.{Spells, below, get_path_lem}
use cryptomator_rs.DirTree.Through.{
  SpellsWithout, SpellsFrom, through_or_not, KeepsBut, KeepsBut-trans, Spells-without, Spells-from,
}
use cryptomator_rs.DirTree.{Name, Node, DirTree, set_node, set_child, update_node, get_path, rename}
use cryptomator_rs.DirTree.Changing.{
  at_node, set_child-Keeps, Keeps-set_child, set_node-KeepsBut, KeepsBut-set_node, but,
  node_without,
}

-- Every node leads to a root.
abbrev pub IsRooted : DirTree → Type 0
IsRooted t =
    (inode : ℕ) (node : Node) → t.nodes inode ≡ some node → (path : List Name) × Spells t inode path

module _ (t : DirTree) (v : IsTree t) (old_parent : ℕ) (old_name : Name) (above : Node) (r : ℕ)
    (found : t.nodes old_parent ≡ some above) (has : above.children old_name ≡ some r)
    (new_parent : ℕ) (new_name : Name) where
  abbrev taken_out : DirTree
  taken_out = set_node old_parent (some (set_child old_name none above)) t

  done : Taken t taken_out r
  done = taken_lem t old_parent old_name above r v found has

  abbrev new_place : Node → Node
  new_place node = record node { name = new_name; parent = some new_parent }

  abbrev renamed : DirTree
  renamed = set_node r (some (new_place done.node)) taken_out

  renamed-KeepsBut : KeepsBut r t renamed × KeepsBut r renamed t
  renamed-KeepsBut = (
    KeepsBut-trans r t taken_out renamed
        (but r t taken_out (set_child-Keeps t old_parent above old_name none found))
        (set_node-KeepsBut r taken_out (some (new_place done.node))),
    KeepsBut-trans r renamed taken_out t
        (KeepsBut-set_node r taken_out (some (new_place done.node)))
        (but r taken_out t (Keeps-set_child t old_parent above old_name none found)),
  )

  rename-eq :
      rename old_parent old_name new_parent new_name t
      ≡ update_node new_parent (set_child new_name (some r)) renamed
  unfolding rename
  rename-eq =
      rw
        (
          rename,
          take_child_lem t old_parent old_name above r found has,
          update_node-found taken_out r new_place done.node done.there,
        )
        refl

  moved-eq :
      update_node new_parent (set_child new_name (some r)) (update_node r new_place taken_out)
      ≡ rename old_parent old_name new_parent new_name t
  unfolding rename
  moved-eq = rw (rename, take_child_lem t old_parent old_name above r found has) refl

  -- The tree with the child at its new place.
  record Placed (t' : DirTree) : Type 0 where
    is : rename old_parent old_name new_parent new_name t ≡ t'
    keeps : KeepsBut r t t'
    kept : KeepsBut r t' t
    node : Node
    at_r : t'.nodes r ≡ some node
    named : node.name ≡ new_name
    up : node.parent ≡ some new_parent
    parent_node : Node
    at_parent : t'.nodes new_parent ≡ some parent_node
    linked : parent_node.children new_name ≡ some r

  placed : (path : List Name) → SpellsWithout t r new_parent path → (t' : DirTree) × Placed t'
  placed path s =
      let (node, at_new, other) = node_without t r new_parent path s in
      let (node', there, _, _) = renamed-KeepsBut.0 new_parent node other at_new in
      let t' : DirTree = set_node new_parent (some (set_child new_name (some r) node')) renamed in
      let (n, at_r, named, up) =
        set_child-Keeps renamed new_parent node' new_name (some r) there r (new_place done.node)
          (let self : (r == r) ≡ true = ground arith in rw self refl) in
      (
        t',
        record {
          is =
              rename-eq
              ∙ update_node-found renamed new_parent (set_child new_name (some r)) node' there;
          keeps =
              KeepsBut-trans r t renamed t' renamed-KeepsBut.0 (
                but r renamed t'
                  (set_child-Keeps renamed new_parent node' new_name (some r) there));
          kept =
              KeepsBut-trans r t' renamed t
                (but r t' renamed
                  (Keeps-set_child renamed new_parent node' new_name (some r) there))
                renamed-KeepsBut.1;
          node = n;
          at_r = at_r;
          named = named;
          up = up;
          parent_node = set_child new_name (some r) node';
          at_parent =
              at_node renamed new_parent node' new_name (some r) there new_parent (ground arith);
          linked = rw (eq_bytes_self new_name) refl;
        },
      )

  -- The moved child spells the new path.
  Placed-Spells :
      (t' : DirTree) (path : List Name)
      → Placed t'
      → SpellsWithout t r new_parent path
      → Spells t' r (path ++ (new_name ∷ []))
  Placed-Spells t' path p s =
      below new_parent p.node path p.at_r p.up (Spells-without t t' r p.keeps new_parent path s)
        (ap (λ name. path ++ (name ∷ [])) (sym p.named))

  Placed-IsRooted :
      (t' : DirTree) (path : List Name)
      → Placed t'
      → SpellsWithout t r new_parent path
      → IsRooted t
      → IsRooted t'
  Placed-IsRooted t' path p s rooted inode node e = elim (Bool-cases (inode == r)) [
    | inl same ↦
        let q : inode ≡ r = (==_iff inode r).0 same in
        (path ++ (new_name ∷ []), rw q (Placed-Spells t' path p s))
    | inr other ↦
        let (n, at_old, _, _) = p.kept inode node other e in
        let (old, spelled) = rooted inode n at_old in
        elim (through_or_not t r inode old spelled) [
          | inl without ↦ (old, Spells-without t t' r p.keeps inode old without)
          | inr (rest, from) ↦ (
            (path ++ (new_name ∷ [])) ++ rest,
            Spells-from t t' r p.keeps (path ++ (new_name ∷ [])) (Placed-Spells t' path p s) inode
                rest from,
          )
        ]
  ]

  -- In a tree whose children are nodes that name their parent and their name, and whose nodes all
  -- lead to a root, for the child `r` of a node under the old name, and a new parent whose path
  -- does not lead through `r`: in the tree that `rename` leaves, children again name their parent
  -- and their name, all nodes again lead to a root, `r` is the new parent's child under the new
  -- name, `get_path` of `r` and of every inode below it returns the new parent's path, the new name
  -- and then the names below `r`, and `get_path` of every other inode that spells a path returns
  -- the path that it had.
  pub rename_lem :
      (path : List Name)
      → IsRooted t
      → SpellsWithout t r new_parent path
      → (t' : DirTree) × (rename old_parent old_name new_parent new_name t ≡ t')
        × IsTree t'
        × IsRooted t'
        × ((node : Node) × (t'.nodes new_parent ≡ some node) × (node.children new_name ≡ some r))
        × ((inode : ℕ) (rest : List Name)
            → SpellsFrom t r inode rest
            → get_path (length path + length rest + 2) inode t'
              ≡ ok (some ((path ++ (new_name ∷ [])) ++ rest)))
        × ((inode : ℕ) (old : List Name)
            → SpellsWithout t r inode old
            → get_path (length old + 1) inode t' ≡ ok (some old))
  rename_lem path rooted s =
      let (t', p) = placed path s in
      let q : List Name = path ++ (new_name ∷ []) in
      (
        t',
        p.is,
        subst IsTree (moved-eq ∙ p.is) (moved-IsTree t taken_out r new_parent new_name done),
        Placed-IsRooted t' path p s rooted,
        (p.parent_node, p.at_parent, p.linked),
        λ inode rest from.
            get_path_lem t' inode (q ++ rest) (length path + length rest + 2)
              (Spells-from t t' r p.keeps q (Placed-Spells t' path p s) inode rest from)
              (omega (arith, length-append q rest, length-append path (new_name ∷ []))),
        λ inode old without.
            get_path_lem t' inode old (length old + 1)
              (Spells-without t t' r p.keeps inode old without) (omega arith),
      )
