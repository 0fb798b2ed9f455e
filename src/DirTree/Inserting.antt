-- ===== src/DirTree/Inserting.antt =====
-- `insert_path` of src/fs/fuse/dir_tree.rs gives an inode whose path is the one inserted, and
-- changes no other inode's path.
use native.Mathlib.Nat.{mod-eq_of_lt}
use cryptomator_rs.Common.{
  ℕ, ◌+◌, ◌%◌, ◌<◌, ◌≤◌, ◌≡◌, refl, sym, ◌∙◌, ap, ◌==◌, ==_iff, List, [], ◌∷◌, ◌++◌, none, some,
  true, false, Bool-cases, inl, inr, eq_bytes, eq_bytes→eq, eq_bytes_self, arith, u64_limit,
}
use cryptomator_rs.DirTree.Paths.{Spells, top, below}
use cryptomator_rs.DirTree.{Name, Node, DirTree, no_children, set_child, add_child}

-- Every child is a node that names its parent, and no number is used before its time.
pub record IsTree (t : DirTree) : Type 0 where
  pub linked :
      (inode : ℕ) (node : Node) (name : Name) (c : ℕ)
      → t.nodes inode ≡ some node
      → node.children name ≡ some c
      → (child : Node) × (t.nodes c ≡ some child)
        × (child.parent ≡ some inode)
        × (child.name ≡ name)
  pub numbered : (inode : ℕ) (node : Node) → t.nodes inode ≡ some node → inode < t.next_inode

-- The nodes of the first tree are in the second, with their names and parents.
abbrev pub Keeps : DirTree → DirTree → Type 0
Keeps t t' =
    (inode : ℕ) (node : Node)
    → t.nodes inode ≡ some node
    → (node' : Node) × (t'.nodes inode ≡ some node')
      × (node'.name ≡ node.name)
      × (node'.parent ≡ node.parent)

-- The children of the first tree are children in the second.
abbrev pub KeepsChildren : DirTree → DirTree → Type 0
KeepsChildren t t' =
    (inode : ℕ) (node : Node) (name : Name) (c : ℕ)
    → t.nodes inode ≡ some node
    → node.children name ≡ some c
    → (node' : Node) × (t'.nodes inode ≡ some node') × (node'.children name ≡ some c)

-- Down the names from an inode, child by child.
abbrev pub Reaches : DirTree → ℕ → List Name → ℕ → Type 0
Reaches t inode [] c = inode ≡ c
Reaches t inode (name ∷ names) c =
    (node : Node) × (k : ℕ) × (t.nodes inode ≡ some node)
    × (node.children name ≡ some k)
    × Reaches t k names c

pub Reaches-KeepsChildren :
    (t t' : DirTree) (inode : ℕ) (names : List Name) (c : ℕ)
    → KeepsChildren t t'
    → Reaches t inode names c
    → Reaches t' inode names c
Reaches-KeepsChildren t t' inode [] c keeps r = r
Reaches-KeepsChildren t t' inode (name ∷ names) c keeps (node, k, found, has, r) =
    let (node', found', has') = keeps inode node name k found has in
    (node', k, found', has', Reaches-KeepsChildren t t' k names c keeps r)

pub Spells-Keeps :
    (t t' : DirTree) (inode : ℕ) (path : List Name)
    → Keeps t t'
    → Spells t inode path
    → Spells t' inode path
Spells-Keeps t t' inode path keeps (top node found at_top e) =
    let (node', found', same_name, same_parent) = keeps inode node found in
    top node' found' (same_parent ∙ at_top) e
Spells-Keeps t t' inode path keeps (below p node up found has_parent s e) =
    let (node', found', same_name, same_parent) = keeps inode node found in
    below p node' up found' (same_parent ∙ has_parent) (Spells-Keeps t t' p up keeps s)
      (e ∙ ap (λ n. up ++ (n ∷ [])) (sym same_name))

module _ (t : DirTree) (v : IsTree t) (inode : ℕ) (node : Node) (name : Name)
    (found : t.nodes inode ≡ some node) where
  -- The tree with the new child.
  abbrev pub grown : DirTree
  grown = (add_child inode node name t).1

  -- What stands where in it.
  pub at_new :
      grown.nodes t.next_inode
      ≡ some (record { name = name; parent = some inode; children = no_children })
  unfolding add_child
  at_new = let here : (t.next_inode == t.next_inode) ≡ true = ground arith in rw here refl

  at_parent : grown.nodes inode ≡ some (set_child name (some t.next_inode) node)
  unfolding add_child
  at_parent =
      let other : (inode == t.next_inode) ≡ false = ground (arith, v.numbered inode node found) in
      let here : (inode == inode) ≡ true = ground arith in rw (other, here) refl

  at_other :
      (i : ℕ) → (i == t.next_inode) ≡ false → (i == inode) ≡ false → grown.nodes i ≡ t.nodes i
  unfolding add_child
  at_other i other far = rw (other, far) refl

  only_node : (i : ℕ) (n : Node) → (i == inode) ≡ true → t.nodes i ≡ some n → node ≡ n
  only_node i n same e =
      let q : some node ≡ some n = sym found ∙ ap t.nodes (sym ((==_iff i inode).0 same)) ∙ e in cc

  pub add_child-Keeps : Keeps t grown
  add_child-Keeps i n e = elim (Bool-cases (i == t.next_inode)) [
    | inl here ↦ absurd (ground (arith, v.numbered i n e))
    | inr other ↦ elim (Bool-cases (i == inode)) [
      | inl same ↦ (
        set_child name (some t.next_inode) node,
        ap grown.nodes ((==_iff i inode).0 same) ∙ at_parent,
        ap (λ m. m.name) (only_node i n same e),
        ap (λ m. m.parent) (only_node i n same e),
      )
      | inr far ↦ (n, at_other i other far ∙ e, refl, refl)
    ]
  ]

  -- A child under a name that was free takes no other's place.
  pub grown-KeepsChildren : node.children name ≡ none → KeepsChildren t grown
  grown-KeepsChildren free i n nm c e has = elim (Bool-cases (i == t.next_inode)) [
    | inl here ↦ absurd (ground (arith, v.numbered i n e))
    | inr other ↦ elim (Bool-cases (i == inode)) [
      | inl same ↦
          let old : node.children nm ≡ some c =
            ap (λ m. m.children nm) (only_node i n same e) ∙ has in
          (
            set_child name (some t.next_inode) node,
            ap grown.nodes ((==_iff i inode).0 same) ∙ at_parent,
            elim (Bool-cases (eq_bytes nm name)) [
              | inl taken ↦
                  let both : none ≡ some c =
                    sym free ∙ ap node.children (sym (eq_bytes→eq nm name taken)) ∙ old in
                  absurd (cc)
              | inr far ↦ rw far old
            ],
          )
      | inr far ↦ (n, at_other i other far ∙ e, has)
    ]
  ]

  -- The new child is under its name.
  pub grown-Reaches : Reaches grown inode (name ∷ []) t.next_inode
  grown-Reaches = (
    set_child name (some t.next_inode) node,
    t.next_inode,
    at_parent,
    rw (eq_bytes_self name) refl,
    refl,
  )

  -- An old child is still there.
  kept_child :
      (i : ℕ) (n : Node) (nm : Name) (c : ℕ)
      → t.nodes i ≡ some n
      → n.children nm ≡ some c
      → (child : Node) × (grown.nodes c ≡ some child) × (child.parent ≡ some i) × (child.name ≡ nm)
  kept_child i n nm c e has =
      let (child, at_c, up, named) = v.linked i n nm c e has in
      let (child', at_c', same_name, same_parent) = add_child-Keeps c child at_c in
      (child', at_c', same_parent ∙ up, same_name ∙ named)

  -- The children of the node that has grown: the new one, and the old ones.
  grown_child :
      (nm : Name) (c : ℕ)
      → (set_child name (some t.next_inode) node).children nm ≡ some c
      → (child : Node) × (grown.nodes c ≡ some child)
        × (child.parent ≡ some inode)
        × (child.name ≡ nm)
  grown_child nm c has = elim (Bool-cases (eq_bytes nm name)) [
    | inl same ↦
        let q : t.next_inode ≡ c = ground arith in
        (
          record { name = name; parent = some inode; children = no_children },
          ap grown.nodes (sym q) ∙ at_new,
          refl,
          sym (eq_bytes→eq nm name same),
        )
    | inr far ↦ kept_child inode node nm c found (ground arith)
  ]

  grown-linked :
      (i : ℕ) (n : Node) (nm : Name) (c : ℕ)
      → grown.nodes i ≡ some n
      → n.children nm ≡ some c
      → (child : Node) × (grown.nodes c ≡ some child) × (child.parent ≡ some i) × (child.name ≡ nm)
  grown-linked i n nm c e has = elim (Bool-cases (i == t.next_inode)) [
    | inl here ↦
        let q : some n
            ≡ some (record { name = name; parent = some inode; children = no_children }) =
          sym e ∙ ap grown.nodes ((==_iff i t.next_inode).0 here) ∙ at_new in
        let same : n ≡ record { name = name; parent = some inode; children = no_children } = cc in
        let nothing : none ≡ some c = ap (λ m. m.children nm) (sym same) ∙ has in absurd (cc)
    | inr other ↦ elim (Bool-cases (i == inode)) [
      | inl here ↦
          let at_i : i ≡ inode = (==_iff i inode).0 here in
          let q : some n ≡ some (set_child name (some t.next_inode) node) =
            sym e ∙ ap grown.nodes at_i ∙ at_parent in
          let same : n ≡ set_child name (some t.next_inode) node = cc in
          let (child, at_c, up, named) =
            grown_child nm c (ap (λ m. m.children nm) (sym same) ∙ has) in
          (child, at_c, up ∙ ap some (sym at_i), named)
      | inr far ↦ kept_child i n nm c (sym (at_other i other far) ∙ e) has
    ]
  ]

  pub grown-IsTree : t.next_inode + 1 < u64_limit → IsTree grown
  unfolding add_child
  grown-IsTree room =
      let next : (t.next_inode + 1) % u64_limit ≡ t.next_inode + 1 = mod-eq_of_lt room in
      record {
        linked = grown-linked;
        numbered = λ i n e. elim (Bool-cases (i == t.next_inode)) [
          | inl here ↦ ground (arith, next)
          | inr other ↦ elim (Bool-cases (i == inode)) [
            | inl same ↦ ground (arith, next, v.numbered inode node found)
            | inr far ↦ omega (arith, next, v.numbered i n (sym (at_other i other far) ∙ e))
          ]
        ];
      }

-- What a round has done: the tree is still one, all that it had is kept, at most one number is
-- used up, and the inode spells the longer path.
pub record Inserted (t t' : DirTree) (count inode : ℕ) (path : List Name) : Type 0 where
  pub is_tree : IsTree t'
  pub keeps : Keeps t t'
  pub keeps_children : KeepsChildren t t'
  pub more : t.next_inode ≤ t'.next_inode
  pub used : t'.next_inode ≤ t.next_inode + count
  pub spells : Spells t' inode path
