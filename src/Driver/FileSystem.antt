-- ===== src/Driver/FileSystem.antt =====
-- File systems (pkg/driverd/filesystem.go). The host's mounts, files and programs are parameters:
-- the mount library, the package os and `fsadm` are not code of the repository.
use csi_sanlock_lvm.Base.{
  ◌⊎◌, inl, inr, ℕ, List, [], ◌∷◌, Bytes, codes, bytes_eq, Option, none, some, Bool, true, false,
  if◌then◌else◌, Result, ok, err, internal, unknown, panicked, Code,
}
use csi_sanlock_lvm.Base.Int.{ℤ, pos, eqb_ℤ}
use csi_sanlock_lvm.Base.Exec.{Exec, pure, raise, ◌>>◌}
use csi_sanlock_lvm.Driver.Capability.{VolumeAccessType}

abbrev pub block_access_fs_name : Bytes
block_access_fs_name = codes "$raw"

-- The two implementations of the interface `FileSystem`.
pub data FileSystem : Type 0 where
  raw_file_system : FileSystem
  file_system : Bytes → FileSystem

pub data MountPointAction : Type 0 where
  require_existing create_file create_directory : MountPointAction

-- The sentinel os.ErrNotExist itself, another error of which os.IsNotExist holds, or neither.
pub data PathError : Type 0 where
  sentinel_not_exist path_not_exist other_error : PathError

-- What statfs(2) tells of a file system. The block size is not negative.
pub record Statfs : Type 0 where
  pub bsize : ℕ
  pub blocks : ℕ
  pub bfree : ℕ
  pub bavail : ℕ
  pub files : ℕ
  pub ffree : ℕ

pub record Host (W : Type 0) : Type 0 where
  pub is_likely_not_mount_point : Bytes → W → (Bool × Option PathError) × W
  pub mount : Bytes → Bytes → Bytes → List Bytes → Exec W (Unit {0})
  pub unmount : Bytes → Exec W (Unit {0})
  pub open_file : Bytes → ℕ → Exec W (Unit {0})
  pub close_file : Bytes → Exec W (Unit {0})
  pub mkdir_all : Bytes → ℕ → Exec W (Unit {0})
  pub remove_all : Bytes → Exec W (Unit {0})
  pub chown_group : Bytes → ℤ → Exec W (Unit {0})
  pub chmod : Bytes → ℕ → Exec W (Unit {0})
  pub statfs : Bytes → W → (PathError ⊎ Statfs) × W
  -- The exit code of a program that failed.
  pub run : Bytes → List Bytes → W → Option ℤ × W

unfoldable pub new_file_system : Bytes → FileSystem
new_file_system fs =
    if bytes_eq fs block_access_fs_name
    then FileSystem.raw_file_system
    else FileSystem.file_system fs

unfoldable pub accepts : FileSystem → VolumeAccessType → Bool
accepts FileSystem.raw_file_system VolumeAccessType.block_access_type = true
accepts FileSystem.raw_file_system VolumeAccessType.mount_access_type = false
accepts (FileSystem.file_system _) VolumeAccessType.block_access_type = false
accepts (FileSystem.file_system _) VolumeAccessType.mount_access_type = true

abbrev pub is_not_exist : PathError → Bool
is_not_exist PathError.other_error = false
is_not_exist _ = true

-- `err != nil && err == os.ErrNotExist`.
abbrev is_sentinel : Option PathError → Bool
is_sentinel (some PathError.sentinel_not_exist) = true
is_sentinel _ = false

-- An error under another status code. A panic is none.
abbrev recode {ℓ} : {A : Type ℓ} → Code → Result A → Result A
recode c (ok a) = ok a
recode c (err Code.panicked) = err panicked
recode c (err _) = err c

abbrev pub wrap : {S A : Type 0} → Code → Exec S A → Exec S A
wrap c m s = let (r, s') = m s in (recode c r, s')

-- An error that is returned as it is has no status code.
abbrev plain : {S A : Type 0} → Exec S A → Exec S A
plain m = wrap unknown m

abbrev bind_flags : Bool → List Bytes
bind_flags read_only = if read_only then codes "bind" ∷ codes "ro" ∷ [] else codes "bind" ∷ []

module _ {W : Type 0} (host : Host W) where
  unfoldable pub grant_group_access : Bytes → ℤ → Exec W (Unit {0})
  grant_group_access path group_id =
      plain (host.chown_group path group_id) >> plain (host.chmod path 504)

  -- What mountFs does about a mount point that is missing.
  unfoldable pub make_mount_point : MountPointAction → Bytes → Exec W (Unit {0})
  make_mount_point MountPointAction.require_existing _ = raise internal
  make_mount_point MountPointAction.create_file mount_point =
      wrap internal (host.open_file mount_point 416) >> plain (host.close_file mount_point)
  make_mount_point MountPointAction.create_directory mount_point =
      wrap internal (host.mkdir_all mount_point 488)

  unfoldable pub mount_fs :
      Bytes → Bytes → Bytes → List Bytes → MountPointAction → Exec W (Unit {0})
  mount_fs source mount_point fs_name flags action w =
      let mount_it : Exec W (Unit {0}) =
        wrap internal (host.mount source mount_point fs_name flags) in
      let (test, w') = host.is_likely_not_mount_point mount_point w in
      elim test.1 [
        | none ↦ if test.0 then mount_it w' else (ok tt, w')
        | some e ↦
            if is_not_exist e
            then (make_mount_point action mount_point >> mount_it) w'
            else (err internal, w')
      ]

  unfoldable pub umount_fs : Bytes → Bool → Exec W (Unit {0})
  umount_fs target_path delete_mount_point w =
      let (test, w') = host.is_likely_not_mount_point target_path w in
      let unmounted : Exec W (Unit {0}) =
        if test.0 then pure tt else wrap internal (host.unmount target_path) in
      let deleted : Exec W (Unit {0}) =
        if delete_mount_point then wrap internal (host.remove_all target_path) else pure tt in
      if is_sentinel test.1 then (ok tt, w') else (unmounted >> deleted) w'

  unfoldable pub make : FileSystem → Bytes → Exec W (Unit {0})
  make FileSystem.raw_file_system device w = (ok tt, w)
  make (FileSystem.file_system fs) device w =
      let (made, w') = host.run (codes "mkfs") (codes "-t" ∷ fs ∷ device ∷ []) w in
      elim made [ none ↦ (ok tt, w') | some _ ↦ (err internal, w') ]

  unfoldable pub grow : FileSystem → Bytes → Exec W (Unit {0})
  grow FileSystem.raw_file_system device w = (ok tt, w)
  grow (FileSystem.file_system _) device w =
      let (checked, w') = host.run (codes "fsadm") (codes "check" ∷ device ∷ []) w in
      let (resized, w'') = host.run (codes "fsadm") (codes "resize" ∷ device ∷ []) w' in
      let answer : Result (Unit {0}) × W = elim resized [
        | none ↦ (ok tt, w'')
        | some _ ↦ (err internal, w'')
      ] in
      elim checked [
        | none ↦ answer
        | some code ↦ if eqb_ℤ code (pos 3) then answer else (err internal, w')
      ]

  unfoldable pub raw_stage : Bytes → Option ℤ → Exec W (Unit {0})
  raw_stage device none = pure tt
  raw_stage device (some gid) = wrap internal (grant_group_access device gid)

  unfoldable pub stage : FileSystem → Bytes → Bytes → List Bytes → Option ℤ → Exec W (Unit {0})
  unfolding raw_stage
  stage FileSystem.raw_file_system device stage_point flags gid = raw_stage device gid
  stage (FileSystem.file_system fs) device stage_point flags none =
      mount_fs device stage_point fs flags MountPointAction.require_existing
  stage (FileSystem.file_system fs) device stage_point flags (some gid) =
      mount_fs device stage_point fs flags MountPointAction.require_existing
      >> wrap internal (grant_group_access stage_point gid)

  unfoldable pub unstage : FileSystem → Bytes → Exec W (Unit {0})
  unstage FileSystem.raw_file_system mount_point = pure tt
  unstage (FileSystem.file_system _) mount_point = umount_fs mount_point false

  unfoldable pub raw_publish : Bytes → Bytes → Bool → Exec W (Unit {0})
  raw_publish device mount_point read_only =
      mount_fs device mount_point [] (bind_flags read_only) MountPointAction.create_file

  unfoldable pub publish : FileSystem → Bytes → Bytes → Bytes → Bool → Exec W (Unit {0})
  unfolding raw_publish
  publish FileSystem.raw_file_system device stage_point mount_point read_only =
      raw_publish device mount_point read_only
  publish (FileSystem.file_system _) device stage_point mount_point read_only =
      mount_fs stage_point mount_point [] (bind_flags read_only) MountPointAction.create_directory

  -- The same code in both implementations.
  unfoldable pub unpublish : FileSystem → Bytes → Exec W (Unit {0})
  unpublish fs mount_point = umount_fs mount_point true

  -- A raw volume has no numbers, and no error.
  unfoldable pub stat : FileSystem → Bytes → Exec W (PathError ⊎ Option Statfs)
  stat FileSystem.raw_file_system mount_point w = (ok (inr none), w)
  stat (FileSystem.file_system _) mount_point w =
      let (found, w') = host.statfs mount_point w in
      elim found [ inl e ↦ (ok (inl e), w') | inr numbers ↦ (ok (inr (some numbers)), w') ]
