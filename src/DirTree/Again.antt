-- ===== src/DirTree/Again.antt =====
-- Inserting a path of src/fs/fuse/dir_tree.rs that is there.
use cryptomator_rs.Common.{
  ℕ, zero, suc, ◌+◌, ◌≤◌, ◌<◌, ◌≡◌, refl, sym, ◌∙◌, ap, List, [], ◌∷◌, ◌++◌, length, length-append,
  Option, none, some, Result, ok, or_fail, panic, >>=-eq-ok, ◌>>=◌, Option-cases, inl, inr, arith,
  u64_limit,
}
use cryptomator_rs.DirTree.Inserting.{IsTree, Spells-Keeps, Reaches}
use cryptomator_rs.DirTree.Paths.{Spells, top, below, get_path_lem}
use cryptomator_rs.DirTree.RoundTrip.{insert_from_lem}
use cryptomator_rs.DirTree.{
  Name, Node, DirTree, fuse_root_id, insert_component, insert_from, insert_path, get_path,
}

insert_component-Reaches :
    (t : DirTree) (inode : ℕ) (node : Node) (name : Name) (c : ℕ)
    → t.nodes inode ≡ some node
    → node.children name ≡ some c
    → insert_component inode name t ≡ ok (c, t)
unfolding insert_component
insert_component-Reaches t inode node name c found has = rw (found, insert_component, has) refl

-- Names that lead to an inode are found, and nothing is added.
insert_from-Reaches :
    (names : List Name) (t : DirTree) (inode c : ℕ)
    → Reaches t inode names c
    → insert_from inode names t ≡ ok (c, t)
unfolding insert_from
insert_from-Reaches [] t inode c same = ap (λ x. ok (x, t)) same
insert_from-Reaches (name ∷ names) t inode c (node, k, found, has, r) =
    rw (insert_component-Reaches t inode node name k found has) (insert_from-Reaches names t k c r)

-- In a well-formed tree whose root spells the empty path and whose numbers do not run out,
-- `insert_path` succeeds, inserting the same path again gives the same inode and leaves the tree as
-- it is, every inode that spelled a path still spells it, and the next number does not go down.
pub insert_path_again :
    (names : List Name) (t : DirTree)
    → IsTree t
    → Spells t fuse_root_id []
    → t.next_inode + length names < u64_limit
    → (inode : ℕ) × (t' : DirTree) × (insert_path names t ≡ ok (inode, t'))
      × (insert_path names t' ≡ ok (inode, t'))
      × ((i : ℕ) (path : List Name) → Spells t i path → Spells t' i path)
      × (t.next_inode ≤ t'.next_inode)
unfolding insert_path
insert_path_again names t v s room =
    let (inode, t', e, done, r) = insert_from_lem names t fuse_root_id [] v s room in
    (
      inode,
      t',
      e,
      insert_from-Reaches names t' fuse_root_id inode r,
      λ i path spelled. Spells-Keeps t t' i path done.keeps spelled,
      done.more,
    )

-- One step of `get_path`.
get_path-below :
    (fuel inode p : ℕ) (t : DirTree) (node : Node)
    → t.nodes inode ≡ some node
    → node.parent ≡ some p
    → get_path (suc fuel) inode t ≡ (
        get_path fuel p t >>= λ found.
        or_fail found panic >>= λ path. ok (some (path ++ (node.name ∷ []))))
unfolding get_path
get_path-below fuel inode p t node found has_parent = rw (found, get_path, has_parent) refl

some_path :
    (a b : List Name) → ◌≡◌ {A = Result (Option (List Name))} (ok (some a)) (ok (some b)) → a ≡ b
some_path a b e = cc

some_of_or_fail : (o : Option (List Name)) {a : List Name} → or_fail o panic ≡ ok a → o ≡ some a
some_of_or_fail none e = cc
some_of_or_fail (some x) e = cc

-- What `get_path` returns is what the inode spells, in fewer steps than rounds.
pub get_path-Spells :
    (fuel inode : ℕ) (t : DirTree) (path : List Name)
    → get_path fuel inode t ≡ ok (some path)
    → Spells t inode path × (length path < fuel)
unfolding get_path
get_path-Spells zero inode t path e = absurd (cc)
get_path-Spells (suc fuel) inode t path e = elim (Option-cases (t.nodes inode)) [
  | inl missing ↦ absurd (ground (arith, missing))
  | inr (node, found) ↦ elim (Option-cases node.parent) [
    | inl at_top ↦
        let empty : [] ≡ path = some_path [] path (
          sym (get_path_lem t inode [] (suc fuel) (top node found at_top refl) (omega arith))
          ∙ e) in
        (top node found at_top (sym empty), omega (arith, ap length empty))
    | inr (p, has_parent) ↦
        let (o, first, e1) =
          >>=-eq-ok (get_path fuel p t) _
            (sym (get_path-below fuel inode p t node found has_parent) ∙ e) in
        let (up, there, e2) = >>=-eq-ok (or_fail o panic) _ e1 in
        let (s, fewer) = get_path-Spells fuel p t up (first ∙ ap ok (some_of_or_fail o there)) in
        let same : up ++ (node.name ∷ []) ≡ path = some_path _ path e2 in
        (
          below p node up found has_parent s (sym same),
          omega (arith, fewer, ap length same, length-append up (node.name ∷ [])),
        )
  ]
]
