-- ===== src/DirTree/RoundTrip.antt =====
-- `get_path` behind `insert_path` of src/fs/fuse/dir_tree.rs.
use mathlib.Core.Path.{subst}
use native.Mathlib.Nat.{mod-eq_of_lt}
use cryptomator_rs.Common.{
  ℕ, ◌+◌, ◌%◌, ◌<◌, ◌≡◌, refl, sym, ◌∙◌, ap, List, [], ◌∷◌, ◌++◌, length, none, some, Option-cases,
  inl, inr, Bool-cases, ok, arith, u64_limit, append_assoc, append-nil, ◌==◌,
}
use cryptomator_rs.DirTree.Inserting.{
  IsTree, Keeps, Spells-Keeps, Reaches, Inserted, grown, grown-KeepsChildren, grown-Reaches,
  add_child-Keeps, grown-IsTree, at_new,
}
use cryptomator_rs.DirTree.Paths.{Spells, top, below, get_path_lem}
use cryptomator_rs.DirTree.{
  Name, Node, DirTree, no_children, fuse_root_id, new, add_child, insert_component, insert_from,
  insert_path, get_path,
}

Spells-node :
    (t : DirTree) (inode : ℕ) (path : List Name)
    → Spells t inode path
    → (node : Node) × (t.nodes inode ≡ some node)
Spells-node t inode path (top node found at_top e) = (node, found)
Spells-node t inode path (below p node up found has_parent s e) = (node, found)

Keeps-self : (t : DirTree) → Keeps t t
Keeps-self t i n e = (n, e, refl, refl)

Keeps-trans : (t t' t'' : DirTree) → Keeps t t' → Keeps t' t'' → Keeps t t''
Keeps-trans t t' t'' keeps keeps' i n e =
    let (n', e', name, parent) = keeps i n e in
    let (n'', e'', name', parent') = keeps' i n' e' in (n'', e'', name' ∙ name, parent' ∙ parent)

module _ (t : DirTree) (v : IsTree t) (inode : ℕ) (path : List Name) (s : Spells t inode path)
    (name : Name) where
  -- A child that is there already.
  present_child :
      (node : Node) (c : ℕ)
      → t.nodes inode ≡ some node
      → node.children name ≡ some c
      → (insert_component inode name t ≡ ok (c, t)) × Inserted t t 1 c (path ++ (name ∷ []))
  unfolding insert_component
  present_child node c found has =
      let (child, at_c, up, named) = v.linked inode node name c found has in
      (
        rw (found, insert_component, has) refl,
        record {
          is_tree = v;
          keeps = Keeps-self t;
          keeps_children = λ i n nm k e h. (n, e, h);
          more = omega arith;
          used = omega arith;
          spells = below inode child path at_c up s (ap (λ n. path ++ (n ∷ [])) (sym named));
        },
      )

  new_child :
      (node : Node) (found : t.nodes inode ≡ some node)
      → node.children name ≡ none
      → t.next_inode + 1 < u64_limit
      → (insert_component inode name t ≡ ok (add_child inode node name t))
        × Inserted t (grown t v inode node name found) 1 t.next_inode (path ++ (name ∷ []))
  unfolding insert_component add_child
  new_child node found has room =
      let next : (t.next_inode + 1) % u64_limit ≡ t.next_inode + 1 = mod-eq_of_lt room in
      let t' : DirTree = grown t v inode node name found in
      (
        rw (found, insert_component, has) refl,
        record {
          is_tree = grown-IsTree t v inode node name found room;
          keeps = add_child-Keeps t v inode node name found;
          keeps_children = grown-KeepsChildren t v inode node name found has;
          more = omega (arith, next);
          used = omega (arith, next);
          spells =
              below inode (record { name = name; parent = some inode; children = no_children }) path
                (at_new t v inode node name found) refl
                (Spells-Keeps t t' inode path (add_child-Keeps t v inode node name found) s) refl;
        },
      )

  insert_component_lem :
      t.next_inode + 1 < u64_limit
      → (c : ℕ) × (t' : DirTree) × (insert_component inode name t ≡ ok (c, t'))
        × Inserted t t' 1 c (path ++ (name ∷ []))
        × Reaches t' inode (name ∷ []) c
  unfolding add_child
  insert_component_lem room =
      let (node, found) = Spells-node t inode path s in
      elim (Option-cases (node.children name)) [
        | inr (c, has) ↦
            let (e, done) = present_child node c found has in
            (c, t, e, done, (node, c, found, has, refl))
        | inl has ↦
            let (e, done) = new_child node found has room in
            (
              t.next_inode,
              grown t v inode node name found,
              e,
              done,
              grown-Reaches t v inode node name found,
            )
      ]

pub insert_from_lem :
    (names : List Name) (t : DirTree) (inode : ℕ) (path : List Name)
    → IsTree t
    → Spells t inode path
    → t.next_inode + length names < u64_limit
    → (c : ℕ) × (t' : DirTree) × (insert_from inode names t ≡ ok (c, t'))
      × Inserted t t' (length names) c (path ++ names)
      × Reaches t' inode names c
unfolding insert_from
insert_from_lem [] t inode path v s room = (
  inode,
  t,
  refl,
  record {
    is_tree = v;
    keeps = Keeps-self t;
    keeps_children = λ i n nm k e h. (n, e, h);
    more = omega arith;
    used = omega arith;
    spells = rw (append-nil path) s;
  },
  refl,
)
insert_from_lem (name ∷ names) t inode path v s room =
    let (c, t', e, done, (node, k, found, has, at_c)) =
      insert_component_lem t v inode path s name (omega arith) in
    let (c', t'', e', done', r) =
      insert_from_lem names t' c (path ++ (name ∷ [])) done.is_tree done.spells
        (omega (arith, done.used)) in
    (
      c',
      t'',
      rw e e',
      record {
        is_tree = done'.is_tree;
        keeps = Keeps-trans t t' t'' done.keeps done'.keeps;
        keeps_children = λ i n nm k f h.
            (let (n', f', h') = done.keeps_children i n nm k f h in
              done'.keeps_children i n' nm k f' h');
        more = omega (arith, done.more, done'.more);
        used = omega (arith, done.used, done'.used);
        spells = subst (Spells t'' c') (append_assoc path (name ∷ []) names) done'.spells;
      },
      (let (node', found', has') = done'.keeps_children inode node name k found has in
          (node', k, found', has', subst (λ x. Reaches t'' x names c') (sym at_c) r)),
    )

-- In a well-formed tree whose root spells the empty path and whose numbers do not run out,
-- `insert_path` does not panic and gives an inode whose `get_path` returns the inserted path,
-- within as many rounds as the path has components and one more. The tree is again well-formed,
-- with a root that spells the empty path.
pub get_path-insert_path :
    (names : List Name) (t : DirTree)
    → IsTree t
    → Spells t fuse_root_id []
    → t.next_inode + length names < u64_limit
    → (inode : ℕ) × (t' : DirTree) × (insert_path names t ≡ ok (inode, t'))
      × (get_path (length names + 1) inode t' ≡ ok (some names))
      × IsTree t'
      × Spells t' fuse_root_id []
unfolding insert_path
get_path-insert_path names t v s room =
    let (inode, t', e, done, _) = insert_from_lem names t fuse_root_id [] v s room in
    (
      inode,
      t',
      e,
      get_path_lem t' inode names (length names + 1) done.spells (omega arith),
      done.is_tree,
      Spells-Keeps t t' fuse_root_id [] done.keeps s,
    )

-- In a well-formed tree whose root spells the empty path and whose numbers do not run out,
-- `insert_path` does not panic, and every inode that spells a path has this as its `get_path`
-- before and after.
pub get_path-insert_path_other :
    (names : List Name) (t : DirTree) (i : ℕ) (path : List Name)
    → IsTree t
    → Spells t fuse_root_id []
    → t.next_inode + length names < u64_limit
    → Spells t i path
    → (inode : ℕ) × (t' : DirTree) × (insert_path names t ≡ ok (inode, t'))
      × (get_path (length path + 1) i t ≡ ok (some path))
      × (get_path (length path + 1) i t' ≡ ok (some path))
unfolding insert_path
get_path-insert_path_other names t i path v s room spelled =
    let (inode, t', e, done, _) = insert_from_lem names t fuse_root_id [] v s room in
    (
      inode,
      t',
      e,
      get_path_lem t i path (length path + 1) spelled (omega arith),
      get_path_lem t' i path (length path + 1) (Spells-Keeps t t' i path done.keeps spelled)
          (omega arith),
    )

-- The only node of a new tree has no children.
new_no_children :
    (inode : ℕ) (node : Node) (name : Name)
    → new.nodes inode ≡ some node
    → node.children name ≡ none
unfolding new
new_no_children inode node name e = elim (Bool-cases (inode == fuse_root_id)) [
  | inl here ↦
      let q : some (record { name = []; parent = none; children = no_children }) ≡ some node =
        ground (arith, e, here) in
      let same : record { name = []; parent = none; children = no_children } ≡ node = cc in
      ap (λ m. m.children name) (sym same)
  | inr other ↦ absurd (ground (arith, e, other))
]

-- A new tree is well-formed, and its root spells the empty path.
pub new-IsTree : IsTree new × Spells new fuse_root_id []
unfolding new
new-IsTree = (
  record {
    linked = λ inode node name c e has.
        (let nothing : none ≡ some c = sym (new_no_children inode node name e) ∙ has in
          absurd (cc));
    numbered = λ inode node e. ground arith;
  },
  top (record { name = []; parent = none; children = no_children }) refl refl refl,
)
