-- ===== src/Driver/Node/Laws.antt =====
-- What the calls of the node service leave locked.
use csi_sanlock_lvm.Base.{
  Result-cases, ◌≡◌, refl, Bytes, bytes_eq, bytes_eq_refl, Option, true, false, ◌&&◌, ◌||◌,
  if◌then◌else◌, ok, err, Code, arith, inl, inr, sym, ◌∙◌, ◌⊎◌, ap,
}
use csi_sanlock_lvm.Volume.Ref.{VolumeRef, vg_lv}
use csi_sanlock_lvm.Lvmctrld.{LvmCtrld}
use csi_sanlock_lvm.Driver.Capability.{VolumeCapability, VolumeAccessType, AccessType}
use csi_sanlock_lvm.Driver.FileSystem.{Host}
use csi_sanlock_lvm.Driver.Lock.{Locker, default_lock_op, lock_volume}
use csi_sanlock_lvm.Driver.Lock.Laws.{held, is_ok, held-lock_volume, held-unlock_volume}
use csi_sanlock_lvm.Driver.Node.{
  StageRequest, volume_fs, stage_locked, unstage_mount, stage_at, stage_arguments,
  node_stage_volume, node_unstage_volume, parse_id,
}

ok_injective {ℓ} : {A : Type ℓ} (a b : A) → ok a ≡ ok b → a ≡ b
ok_injective a b e = cc

stage_arguments-vol :
    (req : StageRequest) (vol : VolumeRef) (capability : VolumeCapability) (t : VolumeAccessType)
    (gid : Option _)
    → stage_arguments req ≡ ok (vol, (capability, (t, gid)))
    → parse_id req.volume_id ≡ ok vol
unfolding stage_arguments
stage_arguments-vol req vol capability t gid e = ground arith

module _ {W : Type 0} (client : LvmCtrld W) (host : Host W) where
  volume_fs-locks :
      (vol : VolumeRef) (s : Locker W) → (volume_fs client host vol s).1.locks ≡ s.locks
  unfolding volume_fs
  volume_fs-locks vol s = ground arith

  stage_locked-locks :
      (vol : VolumeRef) (path : Bytes) (access : AccessType) (t : VolumeAccessType) (gid : Option _)
      → (s : Locker W) → (stage_locked client host vol path access t gid s).1.locks ≡ s.locks
  unfolding stage_locked
  stage_locked-locks vol path access t gid s = ground (arith, volume_fs-locks vol s)

  held-stage_at :
      (vol : VolumeRef) (path : Bytes) (access : AccessType) (t : VolumeAccessType) (gid : Option _)
      (s : Locker W) (j o : Bytes)
      → held (stage_at client host vol path access t gid s).1.locks j o ≡ (
          (is_ok (lock_volume client vol default_lock_op s).0
            && bytes_eq (vg_lv vol) j
            && bytes_eq default_lock_op o)
          || held s.locks j o)
  unfolding stage_at
  held-stage_at vol path access t gid s j o = ground (
    arith,
    held-lock_volume client vol default_lock_op s j o,
    stage_locked-locks vol path access t gid (lock_volume client vol default_lock_op s).1,
  )

  stage_at-locked :
      (vol : VolumeRef) (path : Bytes) (access : AccessType) (t : VolumeAccessType) (gid : Option _)
      (s : Locker W)
      → (stage_at client host vol path access t gid s).0 ≡ ok tt
      → is_ok (lock_volume client vol default_lock_op s).0 ≡ true
  unfolding stage_at
  stage_at-locked vol path access t gid s h = ground arith

  stage_accepted :
      (req : StageRequest) (vol : VolumeRef) (capability : VolumeCapability) (t : VolumeAccessType)
      (gid : Option _) (s : Locker W)
      → stage_arguments req ≡ ok (vol, (capability, (t, gid)))
      → node_stage_volume client host req s
        ≡ stage_at client host vol req.staging_target_path capability.access_type t gid s
  unfolding node_stage_volume stage_at
  stage_accepted req vol capability t gid s e = rw (node_stage_volume, e) refl

  stage_cases :
      (req : StageRequest) (vol : VolumeRef) (s : Locker W)
      → parse_id req.volume_id ≡ ok vol
      → ((access : AccessType) × (t : VolumeAccessType) × (gid : Option _) × (node_stage_volume
              client host req s
            ≡ stage_at client host vol req.staging_target_path access t gid s))
        ⊎ ((e : Code) × (node_stage_volume client host req s ≡ (err e, s)))
  unfolding node_stage_volume
  stage_cases req vol s p = elim (Result-cases (stage_arguments req)) [
    | inl ((vol', (capability, (t, gid))), e) ↦ inl (
      capability.access_type,
      t,
      gid,
      stage_accepted req vol capability t gid s (
          e
          ∙ ap (λ v. ok (v, (capability, (t, gid))))
              (ok_injective vol' vol (sym (stage_arguments-vol req vol' capability t gid e) ∙ p))),
    )
    | inr (e, q) ↦ inr (e, rw (node_stage_volume, q) refl)
  ]

  -- A volume that NodeStageVolume reports as staged is held by the staging operation.
  pub node_stage_volume-held :
      (req : StageRequest) (vol : VolumeRef) (s : Locker W)
      → parse_id req.volume_id ≡ ok vol
      → (node_stage_volume client host req s).0 ≡ ok tt
      → held (node_stage_volume client host req s).1.locks (vg_lv vol) default_lock_op ≡ true
  node_stage_volume-held req vol s p h = elim (stage_cases req vol s p) [
    | inl (access, t, gid, e) ↦ rw e (
        ground (
          arith,
          held-stage_at vol req.staging_target_path access t gid s (vg_lv vol) default_lock_op,
          stage_at-locked vol req.staging_target_path access t gid s (sym (ap (λ r. r.0) e) ∙ h),
          bytes_eq_refl (vg_lv vol),
          bytes_eq_refl default_lock_op,
        ))
    | inr (c, e) ↦ ground arith
  ]

  -- NodeStageVolume takes no other volume and no other operation's hold, whether it succeeds or not,
  -- and takes none away.
  pub node_stage_volume-others :
      (req : StageRequest) (vol : VolumeRef) (s : Locker W) (j o : Bytes)
      → parse_id req.volume_id ≡ ok vol
      → (bytes_eq (vg_lv vol) j && bytes_eq default_lock_op o) ≡ false
      → held (node_stage_volume client host req s).1.locks j o ≡ held s.locks j o
  node_stage_volume-others req vol s j o p n = elim (stage_cases req vol s p) [
    | inl (access, t, gid, e) ↦
        rw e (ground (arith, held-stage_at vol req.staging_target_path access t gid s j o))
    | inr (c, e) ↦ rw e refl
  ]

  unstage_mount-locks :
      (vol : VolumeRef) (path : Bytes) (s : Locker W)
      → (unstage_mount client host vol path s).1.locks ≡ s.locks
  unfolding unstage_mount
  unstage_mount-locks vol path s = ground (arith, volume_fs-locks vol s)

  -- A volume that NodeUnstageVolume reports as unstaged is no longer held by the staging operation,
  -- and who else holds what stays the same.
  pub node_unstage_volume-released :
      (volume_id path : Bytes) (vol : VolumeRef) (s : Locker W) (j o : Bytes)
      → parse_id volume_id ≡ ok vol
      → (node_unstage_volume client host volume_id path s).0 ≡ ok tt
      → held (node_unstage_volume client host volume_id path s).1.locks j o
        ≡ (if bytes_eq (vg_lv vol) j && bytes_eq default_lock_op o then false else held s.locks j o)
  unfolding node_unstage_volume
  node_unstage_volume-released volume_id path vol s j o p h = ground (
    arith,
    unstage_mount-locks vol path s,
    held-unlock_volume client vol default_lock_op (unstage_mount client host vol path s).1 j o,
  )
