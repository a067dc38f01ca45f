-- ===== src/Driver/Node/Stats.antt =====
-- NodeGetVolumeStats, NodeGetInfo, NodeGetCapabilities and NewNodeServer of the node service
-- (pkg/driverd/nodeserver.go).
use csi_sanlock_lvm.Base.{
  le-scaled, inl, inr, ◌∙◌, ap, ℕ, ◌+◌, ◌-◌, ◌*◌, ◌%◌, ◌^◌, ◌≤◌, ◌<◌, ◌≡◌, refl, List, [], ◌∷◌,
  Bytes, codes, itoa, not, Option, none, some, if◌then◌else◌, invalid_argument, internal, not_found,
  arith,
}
use csi_sanlock_lvm.Base.Int.{ℤ, pos, int64_of}
use csi_sanlock_lvm.Base.Exec.{Exec, pure, raise, lift, check, ◌>>=◌, ◌>>◌}
use csi_sanlock_lvm.Volume.Pattern.{volume_id_re}
use csi_sanlock_lvm.Lvmctrld.{LvmCtrld}
use csi_sanlock_lvm.Driver.Fetch.{fetch}
use csi_sanlock_lvm.Driver.FileSystem.{Host, Statfs, PathError, is_not_exist, wrap}
use csi_sanlock_lvm.Driver.FileSystem
use csi_sanlock_lvm.Driver.Node.{is_empty, parse_id, fs_of}

pub data UsageUnit : Type 0 where
  in_bytes in_inodes : UsageUnit

-- A field that the code does not set is 0.
pub record VolumeUsage : Type 0 where
  pub available : ℤ
  pub total : ℤ
  pub used : ℤ
  pub unit : UsageUnit

-- The difference of two uint64 as int64, before a product is taken of it.
abbrev minus : ℕ → ℕ → ℕ
minus a b = a + 2 ^ 64 - b % 2 ^ 64

-- The products of int64 wrap around.
unfoldable pub usage_of : Statfs → List VolumeUsage
usage_of stat =
    record {
      available = int64_of (stat.bavail * stat.bsize);
      total = int64_of (stat.blocks * stat.bsize);
      used = int64_of (minus stat.blocks stat.bfree * stat.bsize);
      unit = UsageUnit.in_bytes;
    }
    ∷ (record {
      available = int64_of stat.ffree;
      total = int64_of stat.files;
      used = int64_of (minus stat.files stat.ffree);
      unit = UsageUnit.in_inodes;
    })
    ∷ []

-- Without numbers of the file system, the size of the logical volume.
unfoldable pub usage_or_size : ℕ → Option Statfs → List VolumeUsage
unfolding usage_of
usage_or_size size none =
    record { available = pos 0; total = int64_of size; used = pos 0; unit = UsageUnit.in_bytes }
    ∷ []
usage_or_size size (some stat) = usage_of stat

module _ {W : Type 0} (client : LvmCtrld W) (host : Host W) where
  unfoldable pub node_get_volume_stats : Bytes → Bytes → Exec W (List VolumeUsage)
  unfolding usage_or_size
  node_get_volume_stats volume_id volume_path = do
    check (not (is_empty volume_path)) invalid_argument
    check (not (is_empty volume_id)) invalid_argument
    check (volume_id_re volume_id) not_found
    vol ← lift (parse_id volume_id)
    lv ← fetch client vol
    fs ← lift (fs_of lv)
    stat ← FileSystem.stat host fs volume_path
    elim stat [
      | inl e ↦ raise (if is_not_exist e then not_found else internal)
      | inr found ↦ pure (usage_or_size lv.lv_size found)
    ]

pub data NodeCapability : Type 0 where
  stage_unstage_volume expand_volume volume_mount_group get_volume_stats : NodeCapability

-- The order in which the code lists a map's keys is not fixed.
unfoldable pub node_capabilities : List NodeCapability
node_capabilities =
    NodeCapability.stage_unstage_volume ∷ NodeCapability.expand_volume
    ∷ NodeCapability.volume_mount_group ∷ NodeCapability.get_volume_stats ∷ []

abbrev pub topology_key_node : Bytes
topology_key_node = codes "csi-sanlock-lvm/topology"

-- The id and the topology's segments.
unfoldable pub node_get_info : ℕ → Bytes × List (Bytes × Bytes)
unfolding itoa
node_get_info node_id = let id = itoa 5 node_id in (id, (topology_key_node, id) ∷ [])

int64_of-small : (n k : ℕ) → n < 2 ^ 63 → int64_of (n + 2 ^ 64 * k) ≡ pos n
unfolding int64_of
int64_of-small n k h = ground arith

le-product : (a b : ℕ) → 0 < b → a ≤ a * b
le-product a b h = grind arith

-- What is left is a difference that does not wrap around.
minus-product :
    (a b s : ℕ) → b ≤ a → 0 < s → a * s < 2 ^ 63 → minus a b * s ≡ (a - b) * s + 2 ^ 64 * s
minus-product a b s h hs small =
    let small_a : a < 2 ^ 63 = omega (arith, le-product a s hs) in
    let apart : minus a b ≡ a - b + 2 ^ 64 = omega arith in ap (λ m. m * s) apart ∙ omega arith

-- A file system that has nothing free beyond its blocks and inodes, and whose size fits into an int64, is
-- reported by its numbers as they are: the products and differences do not wrap around.
pub usage_of-small :
    (stat : Statfs)
    → 0 < stat.bsize
    → stat.bfree ≤ stat.blocks
    → stat.bavail ≤ stat.bfree
    → stat.blocks * stat.bsize < 2 ^ 63
    → stat.ffree ≤ stat.files
    → stat.files < 2 ^ 63
    → usage_of stat
      ≡ record {
        available = pos (stat.bavail * stat.bsize);
        total = pos (stat.blocks * stat.bsize);
        used = pos ((stat.blocks - stat.bfree) * stat.bsize);
        unit = UsageUnit.in_bytes;
      }
        ∷ (record {
          available = pos stat.ffree;
          total = pos stat.files;
          used = pos (stat.files - stat.ffree);
          unit = UsageUnit.in_inodes;
        })
        ∷ []
unfolding usage_of
usage_of-small stat hs hf ha hb hi hn =
    let free = le-scaled stat.bavail stat.blocks stat.bsize (omega arith) in
    let rest = le-scaled (stat.blocks - stat.bfree) stat.blocks stat.bsize (omega arith) in
    rw
      (
        minus-product stat.blocks stat.bfree stat.bsize hf hs hb,
        int64_of-small ((stat.blocks - stat.bfree) * stat.bsize) stat.bsize (omega arith),
        same (stat.bavail * stat.bsize) (omega arith),
        same (stat.blocks * stat.bsize) hb,
        same stat.ffree (omega arith),
        same stat.files hn,
        apart,
        int64_of-small (stat.files - stat.ffree) 1 (omega arith),
      )
      refl
  where
    same : (n : ℕ) → n < 2 ^ 63 → int64_of n ≡ pos n
    same n h = ap int64_of (omega arith) ∙ int64_of-small n 0 h

    apart : minus stat.files stat.ffree ≡ stat.files - stat.ffree + 2 ^ 64 * 1
    apart = omega arith
