-- ===== src/Driver/Capability.antt =====
-- Volume capabilities of the CSI protocol, and what the driver reads off them (`getAccessType` of
-- pkg/driverd/nodeserver.go, `reduceVolumeCapabilities` of pkg/driverd/controllerserver.go).
use csi_sanlock_lvm.Base.{
  ◌≡◌, refl, inl, inr, Bool-cases, List, [], ◌∷◌, Bytes, bytes_eq, Option, none, some, Bool, true,
  false, ◌&&◌, if◌then◌else◌, Result, ok, err, invalid_argument, arith, All,
}

pub data AccessMode : Type 0 where
  mode_unknown single_node_writer single_node_reader_only : AccessMode
  multi_node_reader_only multi_node_single_writer multi_node_multi_writer : AccessMode
  single_node_single_writer single_node_multi_writer : AccessMode

pub record MountVolume : Type 0 where
  pub fs_type : Bytes
  pub mount_flags : List Bytes
  pub volume_mount_group : Bytes

-- The oneof field `access_type`.
pub data AccessType : Type 0 where
  no_access_type block_volume : AccessType
  mount_volume : MountVolume → AccessType

-- `access_mode` is set: `AccessMode.Mode` of a missing one is a panic.
pub record VolumeCapability : Type 0 where
  pub access_mode : AccessMode
  pub access_type : AccessType

pub data VolumeAccessType : Type 0 where
  mount_access_type block_access_type : VolumeAccessType

unfoldable pub get_access_type : VolumeCapability → Result VolumeAccessType
get_access_type c = elim c.access_type [
  | AccessType.no_access_type ↦ err invalid_argument
  | AccessType.block_volume ↦ ok VolumeAccessType.block_access_type
  | AccessType.mount_volume _ ↦ ok VolumeAccessType.mount_access_type
]

-- The keys of `volCapAccessModeCompat`.
unfoldable pub is_supported : AccessMode → Bool
is_supported AccessMode.single_node_multi_writer = true
is_supported AccessMode.single_node_reader_only = true
is_supported AccessMode.single_node_single_writer = true
is_supported AccessMode.single_node_writer = true
is_supported _ = false

-- `volCapAccessModeCompat[m][n]` is there.
unfoldable pub compat : AccessMode → AccessMode → Bool
compat AccessMode.single_node_multi_writer AccessMode.single_node_multi_writer = true
compat AccessMode.single_node_multi_writer AccessMode.single_node_single_writer = true
compat AccessMode.single_node_multi_writer AccessMode.single_node_writer = true
compat AccessMode.single_node_reader_only AccessMode.single_node_reader_only = true
compat AccessMode.single_node_single_writer AccessMode.single_node_multi_writer = true
compat AccessMode.single_node_single_writer AccessMode.single_node_writer = true
compat AccessMode.single_node_writer AccessMode.single_node_multi_writer = true
compat AccessMode.single_node_writer AccessMode.single_node_single_writer = true
compat AccessMode.single_node_writer AccessMode.single_node_writer = true
compat _ _ = false

unfoldable pub list_eq : List Bytes → List Bytes → Bool
list_eq [] [] = true
list_eq [] (y ∷ ys) = false
list_eq (x ∷ xs) [] = false
list_eq (x ∷ xs) (y ∷ ys) = bytes_eq x y && list_eq xs ys

abbrev mount_eq : MountVolume → MountVolume → Bool
mount_eq m n =
    bytes_eq m.fs_type n.fs_type
    && list_eq m.mount_flags n.mount_flags
    && bytes_eq m.volume_mount_group n.volume_mount_group

-- reflect.DeepEqual of the access types.
unfoldable pub deep_equal : AccessType → AccessType → Bool
deep_equal AccessType.no_access_type AccessType.no_access_type = true
deep_equal AccessType.block_volume AccessType.block_volume = true
deep_equal (AccessType.mount_volume m) (AccessType.mount_volume n) = mount_eq m n
deep_equal _ _ = false

-- The access mode of the aggregate and of the current capability.
unfoldable pub reduce_mode : AccessMode → AccessMode → Result AccessMode
reduce_mode agg curr =
    if compat agg curr
    then ok agg
    else if is_supported curr && compat curr agg
    then ok curr
    else err invalid_argument

-- The loop, from the second capability on.
unfoldable pub reduce_from : VolumeCapability → List VolumeCapability → Result VolumeCapability
reduce_from agg [] = ok agg
reduce_from agg (c ∷ cs) = elim (reduce_mode agg.access_mode c.access_mode) [
  | err e ↦ err e
  | ok m ↦
      if deep_equal agg.access_type c.access_type
      then reduce_from (record { access_mode = m; access_type = agg.access_type }) cs
      else err invalid_argument
]

-- No capability gives the nil pointer.
unfoldable pub reduce_volume_capabilities : List VolumeCapability → Result (Option VolumeCapability)
reduce_volume_capabilities [] = ok none
reduce_volume_capabilities (c ∷ cs) =
    if is_supported c.access_mode
    then elim (reduce_from c cs) [ ok a ↦ ok (some a) | err e ↦ err e ]
    else err invalid_argument

-- Two modes combine to one of the two, and to a mode of the table if the first is in the table.
pub reduce_mode-is_supported :
    (m n k : AccessMode) → is_supported m ≡ true → reduce_mode m n ≡ ok k → is_supported k ≡ true
unfolding reduce_mode
reduce_mode-is_supported m n k s h = ground arith

reduce_from_sound :
    (agg : VolumeCapability) (cs : List VolumeCapability) (c : VolumeCapability)
    → is_supported agg.access_mode ≡ true
    → reduce_from agg cs ≡ ok c
    → (is_supported c.access_mode ≡ true)
      × (c.access_type ≡ agg.access_type)
      × All (λ d. deep_equal agg.access_type d.access_type ≡ true) cs
unfolding reduce_from
reduce_from_sound agg [] c s h = ground arith
reduce_from_sound agg (d ∷ cs) c s h =
    go (reduce_mode agg.access_mode d.access_mode) refl h (λ a. reduce_from_sound a cs c)
  where
    go :
        (r : Result AccessMode)
        → reduce_mode agg.access_mode d.access_mode ≡ r
        → elim r as (λ _. Result VolumeCapability) [
          | err e ↦ err e
          | ok m ↦
              if deep_equal agg.access_type d.access_type
              then reduce_from (record { access_mode = m; access_type = agg.access_type }) cs
              else err invalid_argument
        ]
          ≡ ok c
        → ((a : VolumeCapability)
            → is_supported a.access_mode ≡ true
            → reduce_from a cs ≡ ok c
            → (is_supported c.access_mode ≡ true)
              × (c.access_type ≡ a.access_type)
              × All (λ d. deep_equal a.access_type d.access_type ≡ true) cs)
        → (is_supported c.access_mode ≡ true)
          × (c.access_type ≡ agg.access_type)
          × All (λ d. deep_equal agg.access_type d.access_type ≡ true) (d ∷ cs)
    go (err e) q k rec = ground arith
    go (ok m) q k rec = elim (Bool-cases (deep_equal agg.access_type d.access_type)) [
      | inl t ↦
          let rest =
            rec (record { access_mode = m; access_type = agg.access_type })
              (reduce_mode-is_supported agg.access_mode d.access_mode m s q) (ground arith) in
          (rest.0, rest.1, (t, rest.2))
      | inr f ↦ ground arith
    ]

-- Capabilities that are combined to one have equal access types, the result has the first one's
-- access type, and its access mode is one that the driver supports.
pub reduce_volume_capabilities_sound :
    (c a : VolumeCapability) (cs : List VolumeCapability)
    → reduce_volume_capabilities (c ∷ cs) ≡ ok (some a)
    → (is_supported a.access_mode ≡ true)
      × (a.access_type ≡ c.access_type)
      × All (λ d. deep_equal c.access_type d.access_type ≡ true) cs
unfolding reduce_volume_capabilities
reduce_volume_capabilities_sound c a cs h = elim (Bool-cases (is_supported c.access_mode)) [
  | inl s ↦ reduce_from_sound c cs a s (ground arith)
  | inr f ↦ ground arith
]

-- Two equal capabilities combine to themselves unless their mode is unsupported or is
-- SINGLE_NODE_SINGLE_WRITER, whose row of the table lacks the mode itself.
pub reduce_mode_same :
    (m : AccessMode)
    → reduce_mode m m ≡ elim m [
      | single_node_writer ↦ ok single_node_writer
      | single_node_reader_only ↦ ok single_node_reader_only
      | single_node_multi_writer ↦ ok single_node_multi_writer
      | _ ↦ err invalid_argument
    ]
unfolding reduce_mode compat is_supported
reduce_mode_same m = ground arith
