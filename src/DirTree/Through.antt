-- ===== src/DirTree/Through.antt =====
-- Paths of src/fs/fuse/dir_tree.rs that lead through an inode, and paths that do not.
use cryptomator_rs.Common.{
  ℕ, zero, suc, ◌<◌, ◌≡◌, refl, sym, ◌∙◌, ap, ◌==◌, ==_iff, List, [], ◌∷◌, ◌++◌, length,
  length-append, append-nil, append_assoc, Option, none, some, ◌⊎◌, false, Bool-cases, inl, inr,
  Result, ok, err, panic, or_fail, ◌>>=◌, arith,
}
use cryptomator_rs.DirTree.Paths.{Spells, top, below}
use cryptomator_rs.DirTree.{Name, Node, DirTree, get_path}

-- The inode spells the path, and neither it nor one of its parents is `r`.
pub data SpellsWithout (t : DirTree) (r : ℕ) : ℕ → List Name → Type 0 where
  top_without :
      {inode : ℕ} {path : List Name} (node : Node)
      → (inode == r) ≡ false
      → t.nodes inode ≡ some node
      → node.parent ≡ none
      → path ≡ []
      → SpellsWithout t r inode path
  below_without :
      {inode : ℕ} {path : List Name} (p : ℕ) (node : Node) (up : List Name)
      → (inode == r) ≡ false
      → t.nodes inode ≡ some node
      → node.parent ≡ some p
      → SpellsWithout t r p up
      → path ≡ up ++ (node.name ∷ [])
      → SpellsWithout t r inode path

-- The inode is `r` or below it, and the names from `r` on are these.
pub data SpellsFrom (t : DirTree) (r : ℕ) : ℕ → List Name → Type 0 where
  here : {inode : ℕ} {rest : List Name} → inode ≡ r → rest ≡ [] → SpellsFrom t r inode rest
  under :
      {inode : ℕ} {rest : List Name} (p : ℕ) (node : Node) (up : List Name)
      → (inode == r) ≡ false
      → t.nodes inode ≡ some node
      → node.parent ≡ some p
      → SpellsFrom t r p up
      → rest ≡ up ++ (node.name ∷ [])
      → SpellsFrom t r inode rest

-- Every inode leads to one of the two.
pub through_or_not :
    (t : DirTree) (r inode : ℕ) (path : List Name)
    → Spells t inode path
    → SpellsWithout t r inode path ⊎ ((rest : List Name) × SpellsFrom t r inode rest)
through_or_not t r inode path (top node found at_top e) = elim (Bool-cases (inode == r)) [
  | inl same ↦ inr ([], here ((==_iff inode r).0 same) refl)
  | inr other ↦ inl (top_without node other found at_top e)
]
through_or_not t r inode path (below p node up found has_parent s e) =
    elim (Bool-cases (inode == r)) [
      | inl same ↦ inr ([], here ((==_iff inode r).0 same) refl)
      | inr other ↦ elim (through_or_not t r p up s) [
        | inl without ↦ inl (below_without p node up other found has_parent without e)
        | inr (rest, from) ↦
            inr (rest ++ (node.name ∷ []), under p node rest other found has_parent from refl)
      ]
    ]

-- The nodes of the first tree, but for `r`, are in the second, with their names and parents.
abbrev pub KeepsBut : ℕ → DirTree → DirTree → Type 0
KeepsBut r t t' =
    (inode : ℕ) (node : Node)
    → (inode == r) ≡ false
    → t.nodes inode ≡ some node
    → (node' : Node) × (t'.nodes inode ≡ some node')
      × (node'.name ≡ node.name)
      × (node'.parent ≡ node.parent)

pub KeepsBut-trans : (r : ℕ) (a b c : DirTree) → KeepsBut r a b → KeepsBut r b c → KeepsBut r a c
KeepsBut-trans r a b c ab bc inode node other found =
    let (n, at_b, name_b, parent_b) = ab inode node other found in
    let (n', at_c, name_c, parent_c) = bc inode n other at_b in
    (n', at_c, name_c ∙ name_b, parent_c ∙ parent_b)

module _ (t t' : DirTree) (r : ℕ) (keeps : KeepsBut r t t') where
  pub Spells-without :
      (inode : ℕ) (path : List Name) → SpellsWithout t r inode path → Spells t' inode path
  Spells-without inode path (top_without node other found at_top e) =
      let (node', there, _, same_parent) = keeps inode node other found in
      top node' there (same_parent ∙ at_top) e
  Spells-without inode path (below_without p node up other found has_parent s e) =
      let (node', there, same_name, same_parent) = keeps inode node other found in
      below p node' up there (same_parent ∙ has_parent) (Spells-without p up s)
        (e ∙ ap (λ name. up ++ (name ∷ [])) (sym same_name))

  -- With a path for `r`, all that is below it follows.
  pub Spells-from :
      (q : List Name)
      → Spells t' r q
      → (inode : ℕ) (rest : List Name) → SpellsFrom t r inode rest
      → Spells t' inode (q ++ rest)
  Spells-from q at_r inode rest (here same e) = rw (same, e, append-nil q) at_r
  Spells-from q at_r inode rest (under p node up other found has_parent s e) =
      let (node', there, same_name, same_parent) = keeps inode node other found in
      below p node' (q ++ up) there (same_parent ∙ has_parent) (Spells-from q at_r p up s) (
        ap (λ x. q ++ x) (e ∙ ap (λ name. up ++ (name ∷ [])) (sym same_name))
        ∙ sym (append_assoc q up (node'.name ∷ [])))

-- What `get_path` gives for an inode these names below one that is not there: at that inode it finds
-- nothing, and below it panics.
abbrev pub path_below_none : List Name → Result (Option (List Name))
path_below_none [] = ok none
path_below_none (name ∷ names) = err panic

one_lower :
    (up : List Name) (name : Name)
    → (path_below_none up >>= λ found.
        or_fail found panic >>= λ path. ok (some (path ++ (name ∷ []))))
      ≡ path_below_none (up ++ (name ∷ []))
one_lower [] name = refl
one_lower (x ∷ up) name = refl

pub get_path-none :
    (t t' : DirTree) (r : ℕ)
    → KeepsBut r t t'
    → t'.nodes r ≡ none
    → (inode : ℕ) (rest : List Name) (fuel : ℕ) → SpellsFrom t r inode rest
    → length rest < fuel
    → get_path fuel inode t' ≡ path_below_none rest
unfolding get_path
get_path-none t t' r keeps gone inode rest zero s lt = absurd (omega arith)
get_path-none t t' r keeps gone inode rest (suc fuel) (here same e) lt =
    rw (same, e, get_path, gone) refl
get_path-none t t' r keeps gone inode rest (suc fuel) (under p node up other found has_parent s e)
      lt =
    let (node', there, same_name, same_parent) = keeps inode node other found in
    let has_parent' : node'.parent ≡ some p = same_parent ∙ has_parent in
    rw
      (
        there,
        get_path,
        has_parent',
        get_path-none t t' r keeps gone p up fuel s
            (omega (arith, ap length e, length-append up (node.name ∷ []))),
      )
      (one_lower up node'.name
        ∙ ap (λ name. path_below_none (up ++ (name ∷ []))) same_name
        ∙ ap path_below_none (sym e))
