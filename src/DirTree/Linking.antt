-- ===== src/DirTree/Linking.antt =====
-- Changes of single nodes of the tree of src/fs/fuse/dir_tree.rs that keep it well-formed.
use cryptomator_rs.Common.{
  ℕ, ◌≡◌, refl, sym, ◌∙◌, ap, ◌==◌, ==_iff, none, some, true, false, Bool-cases, inl, inr, arith,
}
use cryptomator_rs.DirTree.Inserting.{IsTree}
use cryptomator_rs.DirTree.{Name, Node, DirTree, set_node}

-- The child of an inode under a name.
abbrev pub IsChild : DirTree → ℕ → Name → ℕ → Type 0
IsChild t inode name c =
    (child : Node) × (t.nodes c ≡ some child) × (child.parent ≡ some inode) × (child.name ≡ name)

-- No node has the inode as a child.
abbrev pub IsUnlinked : DirTree → ℕ → Type 0
IsUnlinked t r =
    (i : ℕ) (node : Node) (name : Name) (c : ℕ)
    → t.nodes i ≡ some node
    → node.children name ≡ some c
    → (c == r) ≡ false

pub node_of_some : (a b : Node) → some a ≡ some b → a ≡ b
node_of_some a b e = cc

pub child_of_some : (a b : ℕ) → some a ≡ some b → a ≡ b
child_of_some a b e = cc

module _ (t : DirTree) (inode : ℕ) (node new : Node) (v : IsTree t)
    (found : t.nodes inode ≡ some node) where
  abbrev pub changed : DirTree
  changed = set_node inode (some new) t

  pub at_changed : (i : ℕ) → (i == inode) ≡ true → changed.nodes i ≡ some new
  at_changed i same = rw same refl

  pub at_other : (i : ℕ) → (i == inode) ≡ false → changed.nodes i ≡ t.nodes i
  at_other i other = rw other refl

  at_inode : (i : ℕ) → (i == inode) ≡ true → t.nodes i ≡ some node
  at_inode i same = ap t.nodes ((==_iff i inode).0 same) ∙ found

  -- With the old name and parent, whatever was a child is one.
  pub kept-IsChild :
      new.parent ≡ node.parent
      → new.name ≡ node.name
      → (i : ℕ) (name : Name) (c : ℕ) → IsChild t i name c
      → IsChild changed i name c
  kept-IsChild same_parent same_name i name c (child, at_c, up, named) =
      elim (Bool-cases (c == inode)) [
        | inl same ↦
            let q : node ≡ child = node_of_some node child (sym (at_inode c same) ∙ at_c) in
            (
              new,
              at_changed c same,
              same_parent ∙ ap (λ n. n.parent) q ∙ up,
              same_name ∙ ap (λ n. n.name) q ∙ named,
            )
        | inr other ↦ (child, at_other c other ∙ at_c, up, named)
      ]

  -- A change of the children only.
  pub children-IsTree :
      new.parent ≡ node.parent
      → new.name ≡ node.name
      → ((name : Name) (c : ℕ) → new.children name ≡ some c → IsChild t inode name c)
      → IsTree changed
  children-IsTree same_parent same_name own = record {
    linked = λ i n name c e has. elim (Bool-cases (i == inode)) [
      | inl same ↦
          let q : new ≡ n = node_of_some new n (sym (at_changed i same) ∙ e) in
          let (child, at_c, up, named) =
            kept-IsChild same_parent same_name inode name c
              (own name c (ap (λ m. m.children name) q ∙ has)) in
          (child, at_c, up ∙ ap some (sym ((==_iff i inode).0 same)), named)
      | inr other ↦
          kept-IsChild same_parent same_name i name c
            (v.linked i n name c (sym (at_other i other) ∙ e) has)
    ];
    numbered = λ i n e. elim (Bool-cases (i == inode)) [
      | inl same ↦ v.numbered i node (at_inode i same)
      | inr other ↦ v.numbered i n (sym (at_other i other) ∙ e)
    ];
  }

  -- Another name and parent, where no node has the inode as a child.
  pub renamed-IsTree :
      ((name : Name) → new.children name ≡ node.children name) → IsUnlinked t inode → IsTree changed
  renamed-IsTree same_children free =
      let child : (i : ℕ) (n : Node) (name : Name) (c : ℕ)
          → t.nodes i ≡ some n
          → n.children name ≡ some c
          → IsChild changed i name c =
        λ i n name c e has.
          let (old, at_c, up, named) = v.linked i n name c e has in
          (old, at_other c (free i n name c e has) ∙ at_c, up, named) in
      record {
        linked = λ i n name c e has. elim (Bool-cases (i == inode)) [
          | inl same ↦
              let q : new ≡ n = node_of_some new n (sym (at_changed i same) ∙ e) in
              child i node name c (at_inode i same)
                (sym (same_children name) ∙ ap (λ m. m.children name) q ∙ has)
          | inr other ↦ child i n name c (sym (at_other i other) ∙ e) has
        ];
        numbered = λ i n e. elim (Bool-cases (i == inode)) [
          | inl same ↦ v.numbered i node (at_inode i same)
          | inr other ↦ v.numbered i n (sym (at_other i other) ∙ e)
        ];
      }

-- Removing such a node.
pub none-IsTree : (t : DirTree) (r : ℕ) → IsTree t → IsUnlinked t r → IsTree (set_node r none t)
none-IsTree t r v free =
    let there : (i : ℕ) (n : Node) → (set_node r none t).nodes i ≡ some n → t.nodes i ≡ some n =
      λ i n e. elim (Bool-cases (i == r)) [
        | inl same ↦ absurd (ground (arith, same))
        | inr other ↦ ground (arith, other)
      ] in
    record {
      linked = λ i n name c e has.
          let (child, at_c, up, named) = v.linked i n name c (there i n e) has in
          (child, rw (free i n name c (there i n e) has) at_c, up, named);
      numbered = λ i n e. v.numbered i n (there i n e);
    }
