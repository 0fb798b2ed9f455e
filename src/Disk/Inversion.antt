-- ===== src/Disk/Inversion.antt =====
-- A chain of computations on the disk that succeeds has succeeded in its first step.
use cryptomator_rs.Common.{◌≡◌, refl, Result, ok, err, Option, none, some, Error, or_fail}
use cryptomator_rs.Disk.{World, Io, resume, ◌>>=◌}

resume-eq-ok :
    {A B : Type 0} (next : A → Io B) (out : Result A × World) {b : B} {w' : World}
    → resume next out ≡ (ok b, w')
    → (a : A) × (u : World) × (out ≡ (ok a, u)) × (next a u ≡ (ok b, w'))
resume-eq-ok next (ok a, u) e = (a, u, refl, e)
resume-eq-ok next (err failure, u) e = cc

pub >>=-eq-ok :
    {A B : Type 0} (first : Io A) (next : A → Io B) (w : World) {b : B} {w' : World}
    → (first >>= next) w ≡ (ok b, w')
    → (a : A) × (u : World) × (first w ≡ (ok a, u)) × (next a u ≡ (ok b, w'))
unfolding ◌>>=◌
>>=-eq-ok first next w e = resume-eq-ok next (first w) e

pub or_fail-eq-ok :
    {A : Type 0} (o : Option A) (failure : Error) {a : A} → or_fail o failure ≡ ok a → o ≡ some a
or_fail-eq-ok none failure e = cc
or_fail-eq-ok (some x) failure e = cc
