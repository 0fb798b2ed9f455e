-- ===== src/Disk/Growing.antt =====
-- What making files and directories leaves of a disk: all that there was.
use cryptomator_rs.Common.{
  ℕ, ◌≤◌, ◌<◌, ◌≡◌, refl, sym, ◌∙◌, ap, ◌==◌, List, [], ◌∷◌, length, none, some, false, not,
  Bool-cases, inl, inr, arith,
}
use cryptomator_rs.Disk.{World, Node, Inode, file, lookup, node_at, keep, put, set_inode, add_node}
use cryptomator_rs.FilePath.Equality.{eq_path_self, eq_path→eq}
use cryptomator_rs.FilePath.{FilePath, eq_path}

pub node_at-eq-lookup :
    (path : FilePath) (w : World) → 0 < length path → node_at path w ≡ lookup path w.entries
unfolding node_at
node_at-eq-lookup [] w h = absurd (omega arith)
node_at-eq-lookup (name ∷ path) w h = refl

-- What is missing is not the root.
pub length-pos-of_none : (path : FilePath) (w : World) → node_at path w ≡ none → 0 < length path
unfolding node_at
length-pos-of_none [] w e = absurd (cc)
length-pos-of_none (name ∷ path) w e = omega arith

lookup-keep :
    (path q : FilePath) (entries : List (FilePath × Node))
    → eq_path q path ≡ false
    → lookup q (keep (λ x. not (eq_path path x)) entries) ≡ lookup q entries
unfolding lookup keep
lookup-keep path q [] other = refl
lookup-keep path q ((x, node) ∷ rest) other = elim (Bool-cases (eq_path path x)) [
  | inl same ↦
      let e : eq_path q x ≡ false = ap (eq_path q) (sym (eq_path→eq path x same)) ∙ other in
      rw (same, e) (lookup-keep path q rest other)
  | inr far ↦ rw (far, lookup-keep path q rest other) refl
]

pub node_at-put :
    (path : FilePath) (node : Node) (w : World)
    → 0 < length path
    → node_at path (put path node w) ≡ some node
unfolding lookup
node_at-put path node w h =
    node_at-eq-lookup path (put path node w) h ∙ rw (lookup, eq_path_self path) refl

pub node_at-put_other :
    (path q : FilePath) (node : Node) (w : World)
    → eq_path q path ≡ false
    → node_at q (put path node w) ≡ node_at q w
unfolding node_at lookup
node_at-put_other path [] node w other = refl
node_at-put_other path (x ∷ q) node w other = rw other (lookup-keep path (x ∷ q) w.entries other)

-- What stands where is a matter of the entries alone.
pub node_at-same :
    (path : FilePath) (w w' : World) → w'.entries ≡ w.entries → node_at path w' ≡ node_at path w
unfolding node_at
node_at-same [] w w' same = refl
node_at-same (name ∷ path) w w' same = ap (lookup (name ∷ path)) same

pub node_at-add_node :
    (path : FilePath) (kind : ℕ → Node) (w : World)
    → 0 < length path
    → node_at path (add_node path kind w) ≡ some (kind w.next_number)
node_at-add_node path kind w h =
    node_at-same path (put path (kind w.next_number) w) (add_node path kind w) refl
    ∙ node_at-put path (kind w.next_number) w h

pub node_at-add_node_other :
    (path q : FilePath) (kind : ℕ → Node) (w : World)
    → eq_path q path ≡ false
    → node_at q (add_node path kind w) ≡ node_at q w
node_at-add_node_other path q kind w other =
    node_at-same q (put path (kind w.next_number) w) (add_node path kind w) refl
    ∙ node_at-put_other path q (kind w.next_number) w other

-- Every number of a file has been given out.
abbrev pub Numbered : World → Type 0
Numbered w = (path : FilePath) (n : ℕ) → node_at path w ≡ some (file n) → n < w.next_number

-- The second disk has every file and directory of the first, and its files have their bytes.
pub record Grows (w w' : World) : Type 0 where
  pub kept :
      (path : FilePath) (node : Node) → node_at path w ≡ some node → node_at path w' ≡ some node
  pub same_bytes : (n : ℕ) → n < w.next_number → (w'.inodes n).bytes ≡ (w.inodes n).bytes
  pub more : w.next_number ≤ w'.next_number
  pub numbered : Numbered w → Numbered w'

pub Grows-self : (w : World) → Grows w w
Grows-self w = record {
  kept = λ path node e. e;
  same_bytes = λ n h. refl;
  more = omega arith;
  numbered = λ v. v;
}

pub Grows-trans : (w w' w'' : World) → Grows w w' → Grows w' w'' → Grows w w''
Grows-trans w w' w'' g g' = record {
  kept = λ path node e. g'.kept path node (g.kept path node e);
  same_bytes = λ n h. g'.same_bytes n (omega (arith, g.more)) ∙ g.same_bytes n h;
  more = omega (arith, g.more, g'.more);
  numbered = λ v. g'.numbered (g.numbered v);
}

module _ (path : FilePath) (kind : ℕ → Node) (w : World) (empty : node_at path w ≡ none)
    (room : 0 < length path) where
  -- What is at another path is not the new node.
  there-is-other : (q : FilePath) (node : Node) → node_at q w ≡ some node → eq_path q path ≡ false
  there-is-other q node e = elim (Bool-cases (eq_path q path)) [
    | inl same ↦
        let both : some node ≡ none =
          sym e ∙ ap (λ x. node_at x w) (eq_path→eq q path same) ∙ empty in
        absurd (cc)
    | inr other ↦ other
  ]

  new-Numbered :
      ((n m : ℕ) → kind n ≡ file m → n ≡ m) → Numbered w → Numbered (add_node path kind w)
  new-Numbered inj v q n e = elim (Bool-cases (eq_path q path)) [
    | inl same ↦
        let at_new : some (kind w.next_number) ≡ some (file n) =
          sym (node_at-add_node path kind w room)
          ∙ ap (λ x. node_at x (add_node path kind w)) (sym (eq_path→eq q path same))
          ∙ e in
        let is : kind w.next_number ≡ file n = cc in omega (arith, inj w.next_number n is)
    | inr other ↦
        let old : node_at q w ≡ some (file n) =
          sym (node_at-add_node_other path q kind w other) ∙ e in
        omega (arith, v q n old)
  ]

  pub add_node-Grows : ((n m : ℕ) → kind n ≡ file m → n ≡ m) → Grows w (add_node path kind w)
  add_node-Grows inj = record {
    kept = λ q node e. node_at-add_node_other path q kind w (there-is-other q node e) ∙ e;
    same_bytes = λ n h. (let other : (n == w.next_number) ≡ false = ground arith in rw other refl);
    more = omega arith;
    numbered = new-Numbered inj;
  }

-- A change of an inode that keeps its bytes, or of one whose number is new.
pub set_inode-Grows :
    (n : ℕ) (inode : Inode) (w : World)
    → inode.bytes ≡ (w.inodes n).bytes
    → Grows w (set_inode n inode w)
set_inode-Grows n inode w same = record {
  kept = λ path node e. node_at-same path w (set_inode n inode w) refl ∙ e;
  same_bytes = λ m h. elim (Bool-cases (m == n)) [
    | inl here ↦ ground (arith, same)
    | inr other ↦ rw other refl
  ];
  more = omega arith;
  numbered = λ v path m e. v path m (sym (node_at-same path w (set_inode n inode w) refl) ∙ e);
}

-- A change of an inode that the first disk does not have.
pub Grows-set_inode :
    (n : ℕ) (inode : Inode) (w w' : World)
    → Grows w w'
    → w.next_number ≤ n
    → Grows w (set_inode n inode w')
Grows-set_inode n inode w w' g fresh = record {
  kept = λ path node e. node_at-same path w' (set_inode n inode w') refl ∙ g.kept path node e;
  same_bytes = λ m h. (let other : (m == n) ≡ false = ground arith in rw other (g.same_bytes m h));
  more = g.more;
  numbered = λ v path m e.
      g.numbered v path m (sym (node_at-same path w' (set_inode n inode w') refl) ∙ e);
}

-- A change of nothing that this is about.
pub same-Grows :
    (w w' : World)
    → w'.entries ≡ w.entries
    → w'.inodes ≡ w.inodes
    → w'.next_number ≡ w.next_number
    → Grows w w'
same-Grows w w' entries inodes number = record {
  kept = λ path node e. node_at-same path w w' entries ∙ e;
  same_bytes = λ n h. ap (λ f. (f n).bytes) inodes;
  more = omega (arith, number);
  numbered =
      λ v path n e. omega (arith, number, v path n (sym (node_at-same path w w' entries) ∙ e));
}
