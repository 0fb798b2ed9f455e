-- ===== src/Disk/ReadOnly.antt =====
-- Computations on the disk that leave it as it was.
use cryptomator_rs.Common.{◌≡◌, ◌∙◌, Bool, true, false, if◌then◌else◌, Result, ok, err}
use cryptomator_rs.Disk.{World, Io, resume, ◌>>=◌}

abbrev pub ReadOnly : {A : Type 0} → Io A → Type 0
ReadOnly m = (w : World) → (m w).1 ≡ w

resume-same :
    {A B : Type 0} (next : A → Io B) (out : Result A × World) (w : World)
    → ((a : A) → ReadOnly (next a))
    → out.1 ≡ w
    → (resume next out).1 ≡ w
resume-same next (ok a, u) w same e = same a u ∙ e
resume-same next (err failure, u) w same e = e

pub >>=-ReadOnly :
    {A B : Type 0} (first : Io A) (next : A → Io B)
    → ReadOnly first
    → ((a : A) → ReadOnly (next a))
    → ReadOnly (first >>= next)
unfolding ◌>>=◌
>>=-ReadOnly first next same then_same w = resume-same next (first w) w then_same (same w)

pub if-ReadOnly :
    {A : Type 0} (b : Bool) (x y : Io A) → ReadOnly x → ReadOnly y → ReadOnly (if b then x else y)
if-ReadOnly true x y first second = first
if-ReadOnly false x y first second = second
