-- ===== src/Lvmctrld/Errors.antt =====
-- How a failed LVM command becomes an error (`parseLvmError` of pkg/lvmctrld/lvmctrldserver.go).
use csi_sanlock_lvm.Base.{
  ◌≡◌, refl, [], ◌∷◌, ◌++◌, Bytes, codes, ◌||◌, if◌then◌else◌, Result, ok, err, unknown,
  already_exists, permission_denied, not_found, out_of_range,
}
use csi_sanlock_lvm.Base.Int.{ℤ, pos, eqb_ℤ}
use csi_sanlock_lvm.Lvmctrld.Pattern.{
  Pattern, once, many, literal, plus, is_space, is_digit, no_quote, no_space, no_newline, match,
  match_lines, matches_text,
}

-- `^\s*` and a text.
abbrev line : Pattern → Pattern
line p = many is_space ∷ p

abbrev pub lv_locked_re : Pattern
lv_locked_re = line (literal (codes "LV locked by other host"))

abbrev pub lv_exists : Pattern
lv_exists = line (
    literal (codes "Logical Volume \"")
    ++ plus no_quote
    ++ literal (codes "\" already exists in volume group"))

abbrev pub lv_not_found_first : Pattern
lv_not_found_first =
    line
      (literal (codes "Failed to find logical volume \"") ++ plus no_quote ++ literal (codes "\""))

abbrev pub lv_not_found_second : Pattern
lv_not_found_second = line (
    literal (codes "Logical volume ")
    ++ plus no_space
    ++ literal (codes " not found in volume group ")
    ++ plus no_space
    ++ once no_newline ∷ [])

abbrev pub vg_not_found : Pattern
vg_not_found =
    line (literal (codes "Volume group \"") ++ plus no_quote ++ literal (codes "\" not found"))

abbrev pub lv_no_space : Pattern
lv_no_space = line (
    literal (codes "Volume group \"")
    ++ plus no_quote
    ++ literal (codes "\" has insufficient free space"))

abbrev pub lv_no_extents : Pattern
lv_no_extents = line (
    literal (codes "Insufficient free space: ")
    ++ plus is_digit
    ++ literal (codes " extents needed, but only ")
    ++ plus is_digit
    ++ literal (codes " available"))

abbrev pub lv_size_matches : Pattern
lv_size_matches = line (
    literal (codes "New size (")
    ++ plus is_digit
    ++ literal (codes " extents) matches existing size (")
    ++ plus is_digit
    ++ literal (codes " extents)"))

-- What stderr says, in the order of the code. `ok` is the nil error.
unfoldable pub classify : Bytes → Result (Unit {0})
classify stderr =
    if matches_text lv_exists stderr
    then err already_exists
    else if matches_text lv_locked_re stderr
    then err permission_denied
    else if matches_text vg_not_found stderr
    then err not_found
    else if matches_text lv_not_found_first stderr || matches_text lv_not_found_second stderr
    then err not_found
    else if matches_text lv_no_space stderr || matches_text lv_no_extents stderr
    then err out_of_range
    else if matches_text lv_size_matches stderr
    then ok tt
    else err unknown

unfoldable pub parse_lvm_error : ℤ → Bytes → Result (Unit {0})
parse_lvm_error code stderr =
    if eqb_ℤ code (pos 0)
    then ok tt
    else if eqb_ℤ code (pos 5)
    then classify stderr
    else err unknown

locked_message :
    parse_lvm_error (pos 5) (codes "  LV locked by other host: vg00/lv\n") ≡ err permission_denied
unfolding parse_lvm_error classify matches_text match match_lines
locked_message = refl
