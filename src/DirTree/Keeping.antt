-- ===== src/DirTree/Keeping.antt =====
-- The steps of `rename` and `remove` of src/fs/fuse/dir_tree.rs, on a tree whose children are nodes
-- that name their parent.
use cryptomator_rs.Common.{
  ℕ, ◌≡◌, refl, sym, ◌∙◌, ap, ◌==◌, ==_iff, none, some, true, false, Bool-cases, Option-cases, inl,
  inr, eq_bytes, eq_bytes→eq, eq_bytes_self, arith,
}
use cryptomator_rs.DirTree.Inserting.{IsTree}
use cryptomator_rs.DirTree.{Name, Node, DirTree, set_node, set_child, take_child, update_node}
use cryptomator_rs.DirTree.Linking.{
  IsChild, IsUnlinked, node_of_some, child_of_some, at_changed, at_other, kept-IsChild,
  children-IsTree, renamed-IsTree,
}

-- Taking a child out leaves the tree well-formed, and the child in it without a link.
pub record Taken (t t' : DirTree) (r : ℕ) : Type 0 where
  pub is_tree : IsTree t'
  pub unlinked : IsUnlinked t' r
  pub node : Node
  pub there : t'.nodes r ≡ some node

old_child :
    (above : Node) (name nm : Name) (c : ℕ)
    → (set_child name none above).children nm ≡ some c
    → (eq_bytes nm name ≡ false) × (above.children nm ≡ some c)
old_child above name nm c e = elim (Bool-cases (eq_bytes nm name)) [
  | inl same ↦ absurd (ground (arith, same))
  | inr other ↦ (other, ground (arith, other))
]

-- A child has one parent and one name.
only_link :
    (t : DirTree) (parent i : ℕ) (name nm : Name) (r c : ℕ)
    → IsChild t parent name r
    → IsChild t i nm c
    → (c == r) ≡ true
    → (i ≡ parent) × (nm ≡ name)
only_link t parent i name nm r c (child, at_r, up, named) (other, at_c, up', named') same =
    let q : other ≡ child =
      node_of_some other child (sym at_c ∙ ap t.nodes ((==_iff c r).0 same) ∙ at_r) in
    (
      child_of_some i parent (sym up' ∙ ap (λ m. m.parent) q ∙ up),
      sym named' ∙ ap (λ m. m.name) q ∙ named,
    )

pub taken_lem :
    (t : DirTree) (parent : ℕ) (name : Name) (above : Node) (r : ℕ)
    → IsTree t
    → t.nodes parent ≡ some above
    → above.children name ≡ some r
    → Taken t (set_node parent (some (set_child name none above)) t) r
taken_lem t parent name above r v found has =
    let new : Node = set_child name none above in
    let linked : IsChild t parent name r = v.linked parent above name r found has in
    let (kept, at_r, _, _) =
      kept-IsChild t parent above new v found refl refl parent name r linked in
    record {
      is_tree =
          children-IsTree t parent above new v found refl refl
            (λ nm c e. v.linked parent above nm c found (old_child above name nm c e).1);
      unlinked = λ i n nm c e listed. elim (Bool-cases (c == r)) [
        | inr other ↦ other
        | inl same ↦ elim (Bool-cases (i == parent)) [
          | inl here ↦
              let q : new ≡ n =
                node_of_some new n (sym (at_changed t parent above new v found i here) ∙ e) in
              let (far, was) = old_child above name nm c (ap (λ m. m.children nm) q ∙ listed) in
              let (_, is) =
                only_link t parent parent name nm r c linked (v.linked parent above nm c found was)
                  same in
              absurd (ground (arith, far, ap (λ x. eq_bytes x name) is, eq_bytes_self name))
          | inr away ↦
              let (at_parent, _) =
                only_link t parent i name nm r c linked
                  (v.linked i n nm c (sym (at_other t parent above new v found i away) ∙ e) listed)
                  same in
              absurd (ground (arith, away, at_parent))
        ]
      ];
      node = kept;
      there = at_r;
    }

pub take_child_lem :
    (t : DirTree) (parent : ℕ) (name : Name) (above : Node) (r : ℕ)
    → t.nodes parent ≡ some above
    → above.children name ≡ some r
    → take_child parent name t ≡ some (r, set_node parent (some (set_child name none above)) t)
unfolding take_child
take_child_lem t parent name above r found has = rw (take_child, found, has) refl

-- A tree whose child at the new place is there, or who has no such place.
pub placed-IsTree :
    (t : DirTree) (parent r : ℕ) (name : Name)
    → IsTree t
    → IsChild t parent name r
    → IsTree (update_node parent (set_child name (some r)) t)
placed-IsTree t parent r name v child = elim (Option-cases (t.nodes parent)) [
  | inl missing ↦ rw (update_node, missing) v
  | inr (above, found) ↦
      let new : Node = set_child name (some r) above in
      rw (update_node, found)
        (children-IsTree t parent above new v found refl refl (λ nm c e.
          elim (Bool-cases (eq_bytes nm name)) [
            | inl same ↦
                let (n, at_r, up, named) = child in
                let q : r ≡ c = ground (arith, same) in
                (n, ap t.nodes (sym q) ∙ at_r, up, named ∙ sym (eq_bytes→eq nm name same))
            | inr other ↦ v.linked parent above nm c found (ground (arith, other))
          ]))
]

pub update_node-found :
    (t : DirTree) (inode : ℕ) (f : Node → Node) (node : Node)
    → t.nodes inode ≡ some node
    → update_node inode f t ≡ set_node inode (some (f node)) t
update_node-found t inode f node found = rw (update_node, found) refl

-- The child taken out gets its new name and place.
pub moved-IsTree :
    (t t' : DirTree) (r parent : ℕ) (name : Name)
    → Taken t t' r
    → IsTree (
        update_node parent
          (set_child name (some r))
          (update_node r (λ node. record node { name = name; parent = some parent }) t'))
moved-IsTree t t' r parent name done =
    let node : Node = record done.node { name = name; parent = some parent } in
    rw
      (update_node-found t' r (λ node. record node { name = name; parent = some parent }) done.node
        done.there)
      (placed-IsTree (set_node r (some node) t') parent r name
        (renamed-IsTree t' r done.node node done.is_tree done.there (λ nm. refl) done.unlinked)
        (node, at_changed t' r done.node node done.is_tree done.there r (ground arith), refl, refl))
