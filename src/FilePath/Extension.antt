-- ===== src/FilePath/Extension.antt =====
-- `file_stem` and `extension` of `std::path`: what stands before and behind the last dot, unless
-- that dot begins the name.
use cryptomator_rs.Common.{
  ℕ, ◌≡◌, refl, ◌==◌, [], ◌∷◌, ◌++◌, Option, none, some, false, if◌then◌else◌, eq_bytes,
}
use cryptomator_rs.FilePath.{Name, dot, dotdot}

-- The text before and behind its last dot.
unfoldable pub split_dot : Name → Option (Name × Name)
split_dot [] = none
split_dot (b ∷ bytes) = elim (split_dot bytes) [
  | some (before, behind) ↦ some (b ∷ before, behind)
  | none ↦ if b == dot then some ([], bytes) else none
]

-- ".." has neither, and a dot at the front only begins a hidden name.
abbrev stem_of : Name → Option (Name × Name) → Name × Option Name
stem_of name none = (name, none)
stem_of name (some ([], behind)) = (name, none)
stem_of name (some (b ∷ before, behind)) = (b ∷ before, some behind)

unfoldable pub split_name : Name → Name × Option Name
unfolding split_dot
split_name name = if eq_bytes name dotdot then (name, none) else stem_of name (split_dot name)

abbrev pub file_stem : Name → Name
file_stem name = (split_name name).0

abbrev pub extension : Name → Option Name
extension name = (split_name name).1

-- No byte is a dot.
abbrev pub NoDot : Name → Type 0
NoDot [] = Unit {0}
NoDot (b ∷ bytes) = ((b == dot) ≡ false) × NoDot bytes

split_dot-none : (behind : Name) → NoDot behind → split_dot behind ≡ none
unfolding split_dot
split_dot-none [] n = refl
split_dot-none (b ∷ bytes) n = rw (split_dot-none bytes n.1, n.0) refl

split_dot-last :
    (stem behind : Name) → NoDot behind → split_dot (stem ++ (dot ∷ behind)) ≡ some (stem, behind)
unfolding split_dot
split_dot-last [] behind n = rw (split_dot-none behind n) refl
split_dot-last (b ∷ stem) behind n = rw (split_dot-last stem behind n) refl

-- A stem that is not empty and an extension without a dot that is not empty are told apart.
pub split_name_lem :
    (b : ℕ) (stem : Name) (x : ℕ) (behind : Name)
    → ((b == dot) ≡ false)
    → NoDot (x ∷ behind)
    → split_name (b ∷ (stem ++ (dot ∷ x ∷ behind))) ≡ (b ∷ stem, some (x ∷ behind))
unfolding split_name eq_bytes
split_name_lem b stem x behind first n = rw (first, split_dot-last (b ∷ stem) (x ∷ behind) n) refl
