-- ===== src/FilePath/Equality.antt =====
-- Comparing paths.
use cryptomator_rs.Common.{
  ◌+◌, ◌≡◌, ◌≢◌, refl, ap, ap₂, [], ◌∷◌, length, true, false, Bool-cases, inl, inr, eq_bytes,
  eq_bytes_self, eq_bytes→eq, arith, length-append,
}
use cryptomator_rs.FilePath.{Name, FilePath, eq_path, join}

pub eq_path_self : (path : FilePath) → eq_path path path ≡ true
unfolding eq_path
eq_path_self [] = refl
eq_path_self (x ∷ xs) = rw (eq_bytes_self x, eq_path_self xs) refl

pub eq_path→eq : (path q : FilePath) → eq_path path q ≡ true → path ≡ q
unfolding eq_path
eq_path→eq [] [] h = refl
eq_path→eq (x ∷ xs) (y ∷ ys) h =
    ap₂ ◌∷◌ (eq_bytes→eq x y (ground arith)) (eq_path→eq xs ys (ground arith))
eq_path→eq [] (y ∷ ys) h = cc
eq_path→eq (x ∷ xs) [] h = cc

pub eq_path-length : (path q : FilePath) → length path ≢ length q → eq_path path q ≡ false
eq_path-length path q h = elim (Bool-cases (eq_path path q)) [
  | inl same ↦ absurd (h (ap length (eq_path→eq path q same)))
  | inr other ↦ other
]

-- Two different names in one directory.
pub eq_path-join :
    (path : FilePath) (x y : Name)
    → eq_bytes x y ≡ false
    → eq_path (join path x) (join path y) ≡ false
unfolding eq_path
eq_path-join [] x y h = rw h refl
eq_path-join (z ∷ path) x y h = rw (eq_bytes_self z, eq_path-join path x y h) refl

pub length-join : (path : FilePath) (name : Name) → length (join path name) ≡ length path + 1
length-join path name = omega (arith, length-append {0} path (name ∷ []))
