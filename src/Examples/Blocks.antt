-- ===== src/Examples/Blocks.antt =====
-- An allocator of eight blocks.
use csi_sanlock_lvm.Base.{ℕ, ◌≤◌, ◌<◌, ◌≡◌, some, ok, arith}
use csi_sanlock_lvm.Base.Int.{pos}
use csi_sanlock_lvm.Allocator.Heap.{Nodes, shl1, alloc_root, free_root, new_allocator_by_size}
use csi_sanlock_lvm.Allocator.Tree.{whole, room, give}
use csi_sanlock_lvm.Allocator.Root.{
  IsAllocator, Allocated, RootFreed, alloc_root-Allocated, free_root_lem, free_root-alloc_root,
}
use csi_sanlock_lvm.Allocator.Create.{new_allocator_by_size-IsAllocator}

eight :
    (nodes : Nodes) × (new_allocator_by_size (pos (shl1 3)) ≡ ok nodes) × IsAllocator 3 whole nodes
eight = new_allocator_by_size-IsAllocator 3 (omega arith)

fits : 3 ≤ room 3 whole
unfolding room shl1
fits = omega arith

few : room 3 whole < 9
unfolding room shl1
few = omega arith

after : Allocated 3 whole (eight.0) 3
after = alloc_root-Allocated 3 whole (eight.0) 3 (eight.2) (omega arith) fits

new_allocator_by_size-IsAllocator_example :
    (nodes : Nodes) × (new_allocator_by_size (pos (shl1 3)) ≡ ok nodes) × IsAllocator 3 whole nodes
new_allocator_by_size-IsAllocator_example = new_allocator_by_size-IsAllocator 3 (omega arith)

alloc_root-Allocated_example : Allocated 3 whole (eight.0) 3
alloc_root-Allocated_example = alloc_root-Allocated 3 whole (eight.0) 3 (eight.2) (omega arith) fits

free_root_lem_example : RootFreed 3 after.result 0 (give 3 after.tree 0)
free_root_lem_example = free_root_lem 3 after.tree after.result 0 after.well_formed (omega arith)

free_root-alloc_root_example :
    (a : ℕ) × (middle : Nodes) × (result : Nodes) × (alloc_root (eight.0) (pos 3)
      ≡ some (ok (pos a), middle))
    × (free_root middle (pos a) ≡ some (ok tt, result))
    × IsAllocator 3 whole result
free_root-alloc_root_example = free_root-alloc_root 3 whole (eight.0) 3 (eight.2) (omega arith) fits
