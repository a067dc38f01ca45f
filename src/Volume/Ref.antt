-- ===== src/Volume/Ref.antt =====
-- References to logical volumes (pkg/driverd/volumeref.go).
use csi_sanlock_lvm.Base.{
  ℕ, List, [], ◌∷◌, ◌++◌, map, Bytes, codes, ◌==◌, if◌then◌else◌, Result, ok, err, unknown,
}

pub record VolumeRef : Type 0 where
  pub lv_name : Bytes
  pub vg_name : Bytes

pub data LogVolType : Type 0 where
  volume snapshot temporary : LogVolType

abbrev pub volume_lv_prefix : Bytes
volume_lv_prefix = codes "csl-v-"

abbrev pub snapshot_lv_prefix : Bytes
snapshot_lv_prefix = codes "csl-s-"

abbrev pub temp_lv_prefix : Bytes
temp_lv_prefix = codes "csl-t-"

abbrev pub vol_type_to_prefix : LogVolType → Bytes
vol_type_to_prefix LogVolType.volume = volume_lv_prefix
vol_type_to_prefix LogVolType.snapshot = snapshot_lv_prefix
vol_type_to_prefix LogVolType.temporary = temp_lv_prefix

-- strings.ReplaceAll(s, "/", "_").
unfoldable pub replace_slash : Bytes → Bytes
replace_slash s = map (λ b. if b == b'/' then b'_' else b) s

-- `digest` is the unpadded base64 of the SHA-256 of its argument.
unfoldable pub ref_from_vg_type_name : (Bytes → Bytes) → Bytes → LogVolType → Bytes → VolumeRef
ref_from_vg_type_name digest vg t name = record {
  lv_name = vol_type_to_prefix t ++ replace_slash (digest name);
  vg_name = vg;
}

-- Puts a byte in front of the first of some parts.
unfoldable pub cons_part : ℕ → List Bytes → List Bytes
cons_part b [] = (b ∷ []) ∷ []
cons_part b (p ∷ ps) = (b ∷ p) ∷ ps

-- strings.Split by a separator of one byte.
unfoldable pub split : Bytes → ℕ → List Bytes
unfolding cons_part
split [] sep = [] ∷ []
split (b ∷ s) sep = let rest = split s sep in if b == sep then [] ∷ rest else cons_part b rest

-- The reference of two tokens, in either order of fields as the code gives them.
unfoldable pub ref_of_tokens : List Bytes → Result VolumeRef
ref_of_tokens (lv ∷ vg ∷ []) = ok (record { lv_name = lv; vg_name = vg })
ref_of_tokens _ = err unknown

unfoldable pub ref_from_id : Bytes → Result VolumeRef
unfolding ref_of_tokens
ref_from_id volume_id = ref_of_tokens (split volume_id b'@')

unfoldable pub id : VolumeRef → Bytes
id v = v.lv_name ++ b'@' ∷ v.vg_name

unfoldable pub vg_lv : VolumeRef → Bytes
vg_lv v = v.vg_name ++ b'/' ∷ v.lv_name

unfoldable pub dev_path : VolumeRef → Bytes
dev_path v = codes "/dev/" ++ v.vg_name ++ b'/' ∷ v.lv_name
