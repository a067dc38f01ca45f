-- ===== src/Base/Decimal.antt =====
-- Numbers as decimal text.
use Prim.Native.Nat.{ℕ, zero, suc, ◌+◌, ◌/◌, ◌%◌}
use mathlib.Core.List.{[], ◌∷◌, ◌++◌}
use csi_sanlock_lvm.Base.Tests.{ltb, if◌then◌else◌}
use csi_sanlock_lvm.Base.Text.{Bytes}

-- The digits of strconv.Itoa, on fuel.
unfoldable pub itoa : ℕ → ℕ → Bytes
itoa zero n = []
itoa (suc f) n =
    let rest = itoa f (n / 10) in if ltb n 10 then (b'0' + n) ∷ [] else rest ++ (b'0' + n % 10) ∷ []
