-- ===== src/Disk/Removing.antt =====
-- What is left when a file or a directory is removed with all below it.
use cryptomator_rs.Common.{
  ℕ, ◌≡◌, refl, sym, ◌∙◌, ap, List, [], ◌∷◌, length, ◌<◌, Option, none, some, Bool, true, false,
  not, Bool-cases, inl, inr, ok, err, IoKind, io, arith, eq_bytes_self,
}
use cryptomator_rs.Disk.Making.{is_dir_node-eq}
use cryptomator_rs.Disk.{
  World, Node, file, directory, lookup, node_at, keep, is_below, is_file_node, is_dir_node,
  remove_tree, remove_file, remove_dir_all,
}
use cryptomator_rs.FilePath.Equality.{eq_path→eq}
use cryptomator_rs.FilePath.{FilePath, eq_path, strip_prefix}

lookup-keep_in :
    (test : FilePath → Bool) (q : FilePath) (entries : List (FilePath × Node))
    → test q ≡ true
    → lookup q (keep test entries) ≡ lookup q entries
unfolding lookup keep
lookup-keep_in test q [] passes = refl
lookup-keep_in test q ((x, node) ∷ rest) passes = elim (Bool-cases (test x)) [
  | inl stays ↦ rw (stays, lookup-keep_in test q rest passes) refl
  | inr goes ↦ elim (Bool-cases (eq_path q x)) [
    | inl same ↦
        let both : true ≡ false = sym passes ∙ ap test (eq_path→eq q x same) ∙ goes in absurd (cc)
    | inr other ↦ rw (goes, other) (lookup-keep_in test q rest passes)
  ]
]

lookup-keep_out :
    (test : FilePath → Bool) (q : FilePath) (entries : List (FilePath × Node))
    → test q ≡ false
    → lookup q (keep test entries) ≡ none
unfolding lookup keep
lookup-keep_out test q [] fails = refl
lookup-keep_out test q ((x, node) ∷ rest) fails = elim (Bool-cases (test x)) [
  | inl stays ↦ elim (Bool-cases (eq_path q x)) [
    | inl same ↦
        let both : true ≡ false = sym stays ∙ ap test (sym (eq_path→eq q x same)) ∙ fails in
        absurd (cc)
    | inr other ↦ rw (stays, other) (lookup-keep_out test q rest fails)
  ]
  | inr goes ↦ rw goes (lookup-keep_out test q rest fails)
]

strip_prefix_self : (path : FilePath) → strip_prefix path path ≡ some []
unfolding strip_prefix
strip_prefix_self [] = refl
strip_prefix_self (x ∷ path) = rw (eq_bytes_self x) (strip_prefix_self path)

pub is_below_self : (path : FilePath) → is_below path path ≡ true
is_below_self path = rw (is_below, strip_prefix_self path) refl

-- Nothing is at or below the path.
pub node_at-remove_tree :
    (path q : FilePath) (w : World)
    → 0 < length path
    → is_below path q ≡ true
    → node_at q (remove_tree path w) ≡ none
unfolding node_at strip_prefix
node_at-remove_tree [] q w room below = absurd (omega arith)
node_at-remove_tree (x ∷ path) [] w room below = absurd (cc)
node_at-remove_tree (x ∷ path) (y ∷ q) w room below =
    lookup-keep_out (λ z. not (is_below (x ∷ path) z)) (y ∷ q) w.entries (ap not below)

-- Everything else is as it was.
pub node_at-remove_tree_other :
    (path q : FilePath) (w : World)
    → is_below path q ≡ false
    → node_at q (remove_tree path w) ≡ node_at q w
unfolding node_at
node_at-remove_tree_other path [] w other = refl
node_at-remove_tree_other path (y ∷ q) w other =
    lookup-keep_in (λ z. not (is_below path z)) (y ∷ q) w.entries (ap not other)

is_file_node-eq : (o : Option Node) → is_file_node o ≡ true → (n : ℕ) × (o ≡ some (file n))
is_file_node-eq none e = absurd (cc)
is_file_node-eq (some (file n)) e = (n, refl)
is_file_node-eq (some (directory n)) e = absurd (cc)

pub remove_file_lem :
    (path : FilePath) (w : World)
    → is_file_node (node_at path w) ≡ true
    → remove_file path w ≡ (ok tt, remove_tree path w)
unfolding remove_file
remove_file_lem path w is =
    let (n, e) = is_file_node-eq (node_at path w) is in rw (e, remove_file) refl

-- A directory goes with all that is in it.
pub remove_dir_all_lem :
    (path : FilePath) (w : World)
    → is_dir_node (node_at path w) ≡ true
    → remove_dir_all path w ≡ (ok tt, remove_tree path w)
unfolding remove_dir_all
remove_dir_all_lem path w is =
    let (n, e) = is_dir_node-eq (node_at path w) is in rw (e, remove_dir_all) refl

pub remove_dir_all-none :
    (path : FilePath) (w : World)
    → node_at path w ≡ none
    → remove_dir_all path w ≡ (err (io IoKind.not_found), w)
unfolding remove_dir_all
remove_dir_all-none path w e = rw (e, remove_dir_all) refl
