-- ===== src/Driver/NodeId.antt =====
-- Node ids as text (`nodeIDToString` and `nodeIDFromString` of pkg/driverd/controllerserver.go).
use csi_sanlock_lvm.Base.{
  itoa, ℕ, zero, suc, ◌^◌, ◌+◌, ◌-◌, ◌*◌, ◌≤◌, ◌≡◌, refl, [], ◌∷◌, Bytes, Option, none, some, ltb,
  ◌==◌, ◌||◌, if◌then◌else◌, Result, ok, err, unknown, all_below, all_below_sound, arith, Bool,
  true, false,
}
use csi_sanlock_lvm.Base.Int.{ℤ, pos, negsuc}

-- A uint16 has at most five digits.
unfoldable pub node_id_to_string : ℕ → Bytes
unfolding itoa
node_id_to_string node_id = itoa 5 node_id

-- The digits of strconv.Atoi behind a sign: `none` for a byte that is no digit.
unfoldable pub digits : ℕ → Bytes → Option ℕ
digits n [] = some n
digits n (c ∷ s) = if ltb c b'0' || ltb b'9' c then none else digits (n * 10 + (c - b'0')) s

-- The number of some digits.
unfoldable pub unsigned : Bytes → Option ℕ
unfolding digits
unsigned [] = none
unsigned (c ∷ s) = digits 0 (c ∷ s)

-- The integer of an amount, unless it is out of the range of int.
unfoldable pub in_range : Bool → Option ℕ → Option ℤ
in_range negative none = none
in_range false (some n) = if ltb n (2 ^ 63) then some (pos n) else none
in_range true (some zero) = some (pos 0)
in_range true (some (suc n)) = if ltb n (2 ^ 63) then some (negsuc n) else none

-- strconv.Atoi.
unfoldable pub atoi : Bytes → Option ℤ
unfolding unsigned in_range
atoi [] = none
atoi (c ∷ s) =
    if c == b'+'
    then in_range false (unsigned s)
    else if c == b'-'
    then in_range true (unsigned s)
    else in_range false (unsigned (c ∷ s))

unfoldable pub node_id_from_string : Bytes → Result ℕ
unfolding atoi
node_id_from_string node = elim (atoi node) [
  | none ↦ err unknown
  | some (negsuc n) ↦ err unknown
  | some (pos n) ↦ if ltb 2000 n then err unknown else ok n
]

abbrev reads_back : ℕ → Bool
reads_back n = elim (node_id_from_string (node_id_to_string n)) [ ok m ↦ m == n | err _ ↦ false ]

round_trip_table : all_below reads_back 2001 ≡ true
unfolding all_below node_id_from_string node_id_to_string
round_trip_table = refl

-- Every node id from 0 to 2000 is read back from its text.
pub node_id_from_string-node_id_to_string :
    (n : ℕ) → n ≤ 2000 → node_id_from_string (node_id_to_string n) ≡ ok n
node_id_from_string-node_id_to_string n h =
    let t = all_below_sound reads_back 2001 n (omega arith) round_trip_table in ground arith

-- An accepted node id is never above 2000.
pub node_id_from_string-le : (s : Bytes) (n : ℕ) → node_id_from_string s ≡ ok n → n ≤ 2000
unfolding node_id_from_string
node_id_from_string-le s n h = ground arith
