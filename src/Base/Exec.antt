-- ===== src/Base/Exec.antt =====
-- Methods that change a state and may fail. What was changed before a failure stays changed, so the
-- state comes back beside the error too.
use mathlib.Core.Bool.{Bool, true, false}
use csi_sanlock_lvm.Base.Status.{Result, ok, err, Code}

abbrev pub Exec : Type 0 → Type 0 → Type 0
Exec S A = S → Result A × S

module _ {S A : Type 0} where
  abbrev pub pure : A → Exec S A
  pure a s = (ok a, s)

  abbrev pub raise : Code → Exec S A
  raise c s = (err c, s)

  abbrev pub lift : Result A → Exec S A
  lift r s = (r, s)

  -- The result of an action, whether it failed or not: for `if err != nil`.
  abbrev pub attempt : Exec S A → Exec S (Result A)
  attempt m s = let (r, s') = m s in (ok r, s')

-- An action, and what is done with its result unless it failed.
module _ {S A B : Type 0} where
  abbrev pub resume : (A → Exec S B) → Result A → Exec S B
  resume next (err code) after = (err code, after)
  resume next (ok value) after = next value after

  infixl 10 ◌>>=◌ ◌>>◌
  abbrev pub ◌>>=◌ : Exec S A → (A → Exec S B) → Exec S B
  ◌>>=◌ action next before = let (outcome, after) = action before in resume next outcome after

  abbrev pub ◌>>◌ : Exec S A → Exec S B → Exec S B
  first >> second = first >>= λ ignored. second

module _ {S : Type 0} where
  abbrev pub check : Bool → Code → Exec S (Unit {0})
  check true c s = (ok tt, s)
  check false c s = (err c, s)
