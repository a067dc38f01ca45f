-- ===== src/Driver/Controller/CreateLaws.antt =====
-- The size of a new volume in CreateVolume (pkg/driverd/controllerserver.go).
use csi_sanlock_lvm.Base.{
  ℕ, ◌+◌, ◌-◌, ◌*◌, ◌/◌, ◌%◌, ◌^◌, ◌≤◌, ◌<◌, ◌≡◌, ◌⊎◌, inl, inr, sym, subst, some, ok, err, Result,
  invalid_argument, arith, ltb, ◌&&◌, Bool-cases, false,
}
use csi_sanlock_lvm.Base.Int.{pos, uint64}
use csi_sanlock_lvm.Driver.Controller.Create.{CapacityRange, volume_size}

abbrev pub of_range : ℕ → ℕ → CapacityRange
of_range required limit = record { required_bytes = pos required; limit_bytes = pos limit }

-- What the size is, by the required bytes and the limit, where 0 is none.
abbrev pub IsSizeFor : ℕ → ℕ → Result ℕ → Type 0
IsSizeFor required limit (ok size) =
    (size % 512 ≡ 0)
    × (((0 < required)
          × (required ≤ size)
          × (size < required + 512)
          × ((limit ≡ 0) ⊎ (size ≤ limit)))
        ⊎ ((required ≡ 0) × (511 ≤ limit) × (size ≤ limit) × (limit < size + 1023))
        ⊎ ((required ≡ 0) × (0 < limit) × (limit < 511) × (2 ^ 63 ≤ size)))
IsSizeFor required limit (err _) =
    ((required ≡ 0) × (limit ≡ 0)) ⊎ ((0 < required) × (0 < limit) × (limit < required + 511))

-- For required bytes and a limit that an int64 holds, the size is a multiple of 512. With required bytes it is the
-- first one from these on, and not above a limit that is given. With a limit alone, of at least 511 bytes, it is
-- at most the limit and above the limit less 1023, but of a smaller limit it is at least 2 ^ 63. There is no size
-- only if neither is given, or the limit is less than 511 bytes above the required ones.
pub volume_size-IsSizeFor :
    (required limit : ℕ)
    → required < 2 ^ 63
    → limit < 2 ^ 63
    → IsSizeFor required limit (volume_size (some (of_range required limit)))
unfolding volume_size uint64
volume_size-IsSizeFor required limit hr hl = elim (Bool-cases (ltb 0 required)) [
  | inl wanted ↦
      let size : ℕ = (required % 2 ^ 64 + 511) % 2 ^ 64 / 512 * 512 in
      elim (Bool-cases (ltb 0 limit && ltb (limit % 2 ^ 64) size)) [
        | inl over ↦
            by_value (err invalid_argument) (ground arith)
              (inr (ground arith, ground arith, ground arith))
        | inr fits ↦
            by_value (ok size) (ground arith)
              (omega arith, inl (ground arith, omega arith, omega arith, below size fits))
      ]
  | inr none_wanted ↦ elim (Bool-cases (ltb 0 limit)) [
    | inl limited ↦
        let size : ℕ = (limit % 2 ^ 64 + 2 ^ 64 - 511) % 2 ^ 64 / 512 * 512 in
        by_value (ok size) (ground arith) (
          omega arith,
          inr (elim (Bool-cases (ltb limit 511)) [
            | inl small ↦ inr (ground arith, ground arith, ground arith, ground arith)
            | inr large ↦ inl (ground arith, ground arith, ground arith, ground arith)
          ]),
        )
    | inr unlimited ↦
        by_value (err invalid_argument) (ground arith) (inl (ground arith, ground arith))
  ]
]
  where
    by_value :
        (r : Result ℕ)
        → volume_size (some (of_range required limit)) ≡ r
        → IsSizeFor required limit r
        → IsSizeFor required limit (volume_size (some (of_range required limit)))
    by_value r e h = subst (IsSizeFor required limit) (sym e) h

    below :
        (size : ℕ)
        → (ltb 0 limit && ltb (limit % 2 ^ 64) size) ≡ false
        → (limit ≡ 0) ⊎ (size ≤ limit)
    below size fits = elim (Bool-cases (ltb 0 limit)) [
      | inl limited ↦ inr (ground arith)
      | inr unlimited ↦ inl (ground arith)
    ]
