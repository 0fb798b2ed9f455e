-- ===== src/Common/Words.antt =====
-- `to_be_bytes`: a word as big-endian bytes.
use Prim.Native.Nat.{ℕ, zero, suc, ◌/◌, ◌%◌, ◌^◌, ◌<◌}
use mathlib.Core.Path.{◌≡◌, refl}
use mathlib.Core.List.{List, [], ◌∷◌, ◌++◌}
use native.Mathlib.Nat.{pow-suc}
use native.Mathlib.Omega.{arith}
use cryptomator_rs.Common.Lists.{length, length-append}

-- The bytes of `n % 256 ^ width`, the most significant first.
unfoldable pub to_be_bytes : ℕ → ℕ → List ℕ
to_be_bytes zero n = []
to_be_bytes (suc width) n = to_be_bytes width (n / 256) ++ (n % 256) ∷ []

pub length-to_be_bytes : (width n : ℕ) → length (to_be_bytes width n) ≡ width
unfolding to_be_bytes
length-to_be_bytes zero n = refl
length-to_be_bytes (suc width) n = omega (
  arith,
  length-append (to_be_bytes width (n / 256)) ((n % 256) ∷ []),
  length-to_be_bytes width (n / 256),
)

-- Two byte strings split at one place.
pub append-injective {ℓ} :
    {A : Type ℓ} (xs ys us vs : List A)
    → length xs ≡ length us
    → xs ++ ys ≡ us ++ vs
    → (xs ≡ us) × (ys ≡ vs)
append-injective [] ys [] vs h e = (refl, e)
append-injective [] ys (u ∷ us) vs h e = absurd (omega arith)
append-injective (x ∷ xs) ys [] vs h e = absurd (omega arith)
append-injective (x ∷ xs) ys (u ∷ us) vs h e =
    let r : (xs ≡ us) × (ys ≡ vs) = append-injective xs ys us vs (omega arith) (cc) in (cc, r.1)

-- A word that fits is determined by its bytes.
pub to_be_bytes-injective :
    (width n m : ℕ)
    → n < 256 ^ width
    → m < 256 ^ width
    → to_be_bytes width n ≡ to_be_bytes width m
    → n ≡ m
unfolding to_be_bytes
to_be_bytes-injective zero n m hn hm e = omega arith
to_be_bytes-injective (suc width) n m hn hm e =
    let parts : (to_be_bytes width (n / 256) ≡ to_be_bytes width (m / 256))
        × ((n % 256) ∷ [] ≡ (m % 256) ∷ []) =
      append-injective _ _ _ _ (omega (arith, length-to_be_bytes width)) e in
    let high : n / 256 ≡ m / 256 =
      to_be_bytes-injective width (n / 256) (m / 256) (omega (arith, pow-suc 256 width))
        (omega (arith, pow-suc 256 width)) parts.0 in
    let low : n % 256 ≡ m % 256 = ground (arith, parts.1) in omega arith
