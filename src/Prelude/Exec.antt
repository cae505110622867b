-- ===== src/Prelude/Exec.antt =====
-- Stateful fallible code: a function of the state to a result and the state it leaves, which a
-- failure keeps.
use digital_objects_network.Prelude.Outcome.{Result, ok, err}
use mathlib.Core.Bool.{Bool, true, false}

abbrev pub Exec : Type 0 → Type 0 → Type 0 → Type 0
Exec S F A = S → Result F A × S

abbrev pub pure : {S F A : Type 0} → A → Exec S F A
pure a s = (ok a, s)

abbrev pub fail : {S F A : Type 0} → F → Exec S F A
fail e s = (err e, s)

-- `?` on the left of a continuation.
abbrev pub continue : {S F A B : Type 0} → Result F A → (A → Exec S F B) → Exec S F B
continue (ok a) f s = f a s
continue (err e) f s = (err e, s)

infixl 5 ◌>>=◌ ◌>>◌
abbrev pub ◌>>=◌ : {S F A B : Type 0} → Exec S F A → (A → Exec S F B) → Exec S F B
◌>>=◌ m f s = continue (m s).0 f (m s).1

abbrev pub ◌>>◌ : {S F B : Type 0} → Exec S F (Unit {0}) → Exec S F B → Exec S F B
m >> k = m >>= λ _. k

-- A pure result.
abbrev pub lift : {S F A : Type 0} → Result F A → Exec S F A
lift r s = (r, s)

-- `if bad { return Err(e) }`
abbrev pub ensure : {S F : Type 0} → Bool → F → Exec S F (Unit {0})
ensure true e s = (ok tt, s)
ensure false e s = (err e, s)
