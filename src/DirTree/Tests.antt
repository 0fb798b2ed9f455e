-- ===== src/DirTree/Tests.antt =====
-- The inode tree of src/fs/fuse/dir_tree.rs on small paths.
use mathlib.Core.Path.{subst}
use cryptomator_rs.Common.{
  suc, ◌∙◌, none, false, ◌==◌, ==_iff, Bool-cases, inl, inr, length, eq_bytes_self, if◌then◌else◌,
  sym, ℕ, ◌≤◌, List, ◌+◌, ◌<◌, ◌≡◌, refl, [], ◌∷◌, some, ok, err, panic, arith, u64_limit, Result,
  eq_bytes,
}
use cryptomator_rs.DirTree.Again.{insert_path_again}
use cryptomator_rs.DirTree.Inserting.{IsTree}
use cryptomator_rs.DirTree.Removing.{remove_lem}
use cryptomator_rs.DirTree.Renaming.{IsRooted, rename_lem}
use cryptomator_rs.DirTree.Through.{SpellsWithout, top_without, SpellsFrom, path_below_none}
use cryptomator_rs.DirTree.Paths.{Spells, top, below}
use cryptomator_rs.DirTree.RoundTrip.{get_path-insert_path, new-IsTree}
use cryptomator_rs.DirTree.{
  DirTree, Name, Node, no_children, fuse_root_id, new, add_child, insert_component, insert_from,
  insert_path, get_path, rename, remove,
}

abbrev docs : Name
docs = 100 ∷ []

abbrev notes : Name
notes = 110 ∷ []

room : new.next_inode + 2 < u64_limit
unfolding new
room = omega arith

get_path-insert_path_example :
    (inode : ℕ) × (t' : DirTree) × (insert_path (docs ∷ notes ∷ []) new ≡ ok (inode, t'))
    × (get_path 3 inode t' ≡ ok (some (docs ∷ notes ∷ [])))
    × IsTree t'
    × Spells t' fuse_root_id []
get_path-insert_path_example =
    get_path-insert_path (docs ∷ notes ∷ []) new new-IsTree.0 new-IsTree.1 room

insert_path_again_example :
    (inode : ℕ) × (t' : DirTree) × (insert_path (docs ∷ notes ∷ []) new ≡ ok (inode, t'))
    × (insert_path (docs ∷ notes ∷ []) t' ≡ ok (inode, t'))
    × ((i : ℕ) (path : List Name) → Spells new i path → Spells t' i path)
    × (new.next_inode ≤ t'.next_inode)
insert_path_again_example = insert_path_again (docs ∷ notes ∷ []) new new-IsTree.0 new-IsTree.1 room

-- `docs` is inode 2, and `notes` in it is inode 3.
abbrev tree_of : Result (ℕ × DirTree) → DirTree
tree_of (ok r) = r.1
tree_of (err e) = new

abbrev docs_and_notes : DirTree
docs_and_notes = tree_of (insert_path (docs ∷ notes ∷ []) new)

docs_and_notes-IsTree : IsTree docs_and_notes
unfolding insert_path insert_from insert_component add_child new
docs_and_notes-IsTree =
    let (inode, t', e, spelled, is_tree, rest) =
      get_path-insert_path (docs ∷ notes ∷ []) new new-IsTree.0 new-IsTree.1 room in
    subst (λ r. IsTree (tree_of r)) (sym e) is_tree

abbrev root_node : Node
root_node = record {
  name = [];
  parent = none;
  children = λ n. if eq_bytes n docs then some 2 else none;
}

abbrev docs_node : Node
docs_node = record {
  name = docs;
  parent = some 1;
  children = λ n. if eq_bytes n notes then some 3 else none;
}

abbrev notes_node : Node
notes_node = record { name = notes; parent = some 2; children = no_children }

root_test : docs_and_notes.nodes 1 ≡ some root_node
unfolding insert_path insert_from insert_component add_child new
root_test = refl

docs_test : docs_and_notes.nodes 2 ≡ some docs_node
unfolding insert_path insert_from insert_component add_child new
docs_test = refl

notes_test : docs_and_notes.nodes 3 ≡ some notes_node
unfolding insert_path insert_from insert_component add_child new eq_bytes
notes_test = refl

nowhere_else :
    (inode : ℕ)
    → (inode == 1) ≡ false
    → (inode == 2) ≡ false
    → (inode == 3) ≡ false
    → docs_and_notes.nodes inode ≡ none
unfolding insert_path insert_from insert_component add_child new eq_bytes
nowhere_else inode not_root not_docs not_notes = rw (not_root, not_docs, not_notes) refl

root_spelled : Spells docs_and_notes 1 []
root_spelled = top root_node root_test refl refl

docs_spelled : Spells docs_and_notes 2 (docs ∷ [])
docs_spelled = below 1 docs_node [] docs_test refl root_spelled refl

notes_spelled : Spells docs_and_notes 3 (docs ∷ notes ∷ [])
notes_spelled = below 2 notes_node (docs ∷ []) notes_test refl docs_spelled refl

docs_and_notes-IsRooted : IsRooted docs_and_notes
docs_and_notes-IsRooted inode node e = elim (Bool-cases (inode == 1)) [
  | inl same ↦ ([], rw ((==_iff inode 1).0 same) root_spelled)
  | inr not_root ↦ elim (Bool-cases (inode == 2)) [
    | inl same ↦ (docs ∷ [], rw ((==_iff inode 2).0 same) docs_spelled)
    | inr not_docs ↦ elim (Bool-cases (inode == 3)) [
      | inl same ↦ (docs ∷ notes ∷ [], rw ((==_iff inode 3).0 same) notes_spelled)
      | inr not_notes ↦
          let nothing : none ≡ some node =
            sym (nowhere_else inode not_root not_docs not_notes) ∙ e in
          absurd (cc)
    ]
  ]
]

root_without_docs : SpellsWithout docs_and_notes 2 1 []
root_without_docs = top_without root_node refl root_test refl refl

rename_example :
    (t' : DirTree) × (rename 1 docs 1 notes docs_and_notes ≡ t')
    × IsTree t'
    × IsRooted t'
    × ((node : Node) × (t'.nodes 1 ≡ some node) × (node.children notes ≡ some 2))
    × ((inode : ℕ) (rest : List Name)
        → SpellsFrom docs_and_notes 2 inode rest
        → get_path (0 + length rest + 2) inode t' ≡ ok (some (notes ∷ rest)))
    × ((inode : ℕ) (old : List Name)
        → SpellsWithout docs_and_notes 2 inode old
        → get_path (length old + 1) inode t' ≡ ok (some old))
rename_example =
    rename_lem docs_and_notes docs_and_notes-IsTree 1 docs root_node 2 root_test
      (rw (eq_bytes_self docs) refl) 1 notes [] docs_and_notes-IsRooted root_without_docs

remove_example :
    IsTree (remove 1 docs docs_and_notes)
    × ((fuel : ℕ) → get_path (suc fuel) 2 (remove 1 docs docs_and_notes) ≡ ok none)
    × ((node : Node) × ((remove 1 docs docs_and_notes).nodes 1 ≡ some node)
        × (node.children docs ≡ none))
    × ((inode : ℕ) (path : List Name) (fuel : ℕ)
        → SpellsWithout docs_and_notes 2 inode path
        → length path < fuel
        → get_path fuel inode (remove 1 docs docs_and_notes) ≡ ok (some path))
    × ((inode : ℕ) (rest : List Name) (fuel : ℕ)
        → SpellsFrom docs_and_notes 2 inode rest
        → length rest < fuel
        → get_path fuel inode (remove 1 docs docs_and_notes) ≡ path_below_none rest)
remove_example =
    remove_lem docs_and_notes docs_and_notes-IsTree 1 docs root_node 2 root_test
      (rw (eq_bytes_self docs) refl) [] root_without_docs

-- Renaming moves what is below, too.
rename_test : get_path 4 3 (rename 1 docs 1 notes docs_and_notes) ≡ ok (some (notes ∷ notes ∷ []))
unfolding insert_path insert_from insert_component add_child new get_path rename eq_bytes
rename_test = refl

-- Removing an inode that has children leaves these behind, and their `get_path` panics.
remove_test : get_path 4 3 (remove 1 docs docs_and_notes) ≡ err panic
unfolding insert_path insert_from insert_component add_child new get_path remove eq_bytes
remove_test = refl
