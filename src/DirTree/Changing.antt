-- ===== src/DirTree/Changing.antt =====
-- Changes of single nodes of the tree of src/fs/fuse/dir_tree.rs that keep names and parents.
use cryptomator_rs.Common.{
  ℕ, ◌≡◌, refl, sym, ◌∙◌, ap, ◌==◌, ==_iff, List, Option, some, false, true, Bool-cases, inl, inr,
}
use cryptomator_rs.DirTree.Inserting.{Keeps}
use cryptomator_rs.DirTree.Linking.{node_of_some}
use cryptomator_rs.DirTree.Through.{SpellsWithout, top_without, below_without, KeepsBut}
use cryptomator_rs.DirTree.{Name, Node, DirTree, set_node, set_child}

-- Another map of children is no other name or parent.
module _ (t : DirTree) (i : ℕ) (node : Node) (name : Name) (child : Option ℕ)
    (found : t.nodes i ≡ some node) where
  abbrev with_child : DirTree
  with_child = set_node i (some (set_child name child node)) t

  pub at_node :
      (inode : ℕ) → (inode == i) ≡ true → with_child.nodes inode ≡ some (set_child name child node)
  at_node inode same = rw same refl

  at_other : (inode : ℕ) → (inode == i) ≡ false → with_child.nodes inode ≡ t.nodes inode
  at_other inode far = rw far refl

  pub set_child-Keeps : Keeps t with_child
  set_child-Keeps inode n e = elim (Bool-cases (inode == i)) [
    | inl same ↦
        let q : node ≡ n =
          node_of_some node n (sym found ∙ ap t.nodes (sym ((==_iff inode i).0 same)) ∙ e) in
        (set_child name child node, at_node inode same, ap (λ m. m.name) q, ap (λ m. m.parent) q)
    | inr far ↦ (n, at_other inode far ∙ e, refl, refl)
  ]

  pub Keeps-set_child : Keeps with_child t
  Keeps-set_child inode n e = elim (Bool-cases (inode == i)) [
    | inl same ↦
        let q : set_child name child node ≡ n =
          node_of_some (set_child name child node) n (sym (at_node inode same) ∙ e) in
        (
          node,
          ap t.nodes ((==_iff inode i).0 same) ∙ found,
          ap (λ m. m.name) q,
          ap (λ m. m.parent) q,
        )
    | inr far ↦ (n, sym (at_other inode far) ∙ e, refl, refl)
  ]

pub set_node-KeepsBut : (r : ℕ) (t : DirTree) (new : Option Node) → KeepsBut r t (set_node r new t)
set_node-KeepsBut r t new inode n other e = (n, rw other e, refl, refl)

pub KeepsBut-set_node : (r : ℕ) (t : DirTree) (new : Option Node) → KeepsBut r (set_node r new t) t
KeepsBut-set_node r t new inode n other e =
    let here : (set_node r new t).nodes inode ≡ t.nodes inode = rw other refl in
    (n, sym here ∙ e, refl, refl)

pub but : (r : ℕ) (t t' : DirTree) → Keeps t t' → KeepsBut r t t'
but r t t' keeps inode node other found = keeps inode node found

pub node_without :
    (t : DirTree) (r inode : ℕ) (path : List Name)
    → SpellsWithout t r inode path
    → (node : Node) × (t.nodes inode ≡ some node) × ((inode == r) ≡ false)
node_without t r inode path (top_without node other found at_top e) = (node, found, other)
node_without t r inode path (below_without p node up other found has_parent s e) =
    (node, found, other)
