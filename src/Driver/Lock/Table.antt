-- ===== src/Driver/Lock/Table.antt =====
-- The map `locks` from volumes to the set of operations that hold them.
use csi_sanlock_lvm.Base.{
  ◌≡◌, refl, List, [], ◌∷◌, Bytes, bytes_eq, bytes_eq_iff, Option, none, some, Bool, true, false,
  ◌||◌, if◌then◌else◌, arith,
}

abbrev pub Locks : Type 0
Locks = List (Bytes × List Bytes)

-- `vl.locks[key]`.
unfoldable pub ops_of : Bytes → Locks → Option (List Bytes)
ops_of k [] = none
ops_of k ((j, ops) ∷ m) = if bytes_eq j k then some ops else ops_of k m

-- `vl.locks[key] = ops`.
unfoldable pub put : Bytes → List Bytes → Locks → Locks
put k ops [] = (k, ops) ∷ []
put k ops ((j, old) ∷ m) = if bytes_eq j k then (k, ops) ∷ m else (j, old) ∷ put k ops m

-- `delete(vl.locks, key)`.
unfoldable pub delete_key : Bytes → Locks → Locks
delete_key k [] = []
delete_key k ((j, ops) ∷ m) =
    let rest = delete_key k m in if bytes_eq j k then rest else (j, ops) ∷ rest

unfoldable pub mem : Bytes → List Bytes → Bool
mem op [] = false
mem op (o ∷ ops) = bytes_eq o op || mem op ops

-- `m[op] = struct{}{}`.
unfoldable pub insert_op : Bytes → List Bytes → List Bytes
insert_op op ops = if mem op ops then ops else op ∷ ops

-- `delete(m, op)`.
unfoldable pub remove_op : Bytes → List Bytes → List Bytes
remove_op op [] = []
remove_op op (o ∷ ops) = let rest = remove_op op ops in if bytes_eq o op then rest else o ∷ rest

pub ops_of-put :
    (k j : Bytes) (ops : List Bytes) (m : Locks)
    → ops_of j (put k ops m) ≡ (if bytes_eq k j then some ops else ops_of j m)
unfolding ops_of put
ops_of-put k j ops [] = refl
ops_of-put k j ops ((i, old) ∷ m) =
    ground (arith, ops_of-put k j ops m, bytes_eq_iff i k, bytes_eq_iff k j, bytes_eq_iff i j)

pub ops_of-delete_key :
    (k j : Bytes) (m : Locks)
    → ops_of j (delete_key k m) ≡ (if bytes_eq k j then none else ops_of j m)
unfolding ops_of delete_key
ops_of-delete_key k j [] = ground arith
ops_of-delete_key k j ((i, old) ∷ m) =
    ground (arith, ops_of-delete_key k j m, bytes_eq_iff i k, bytes_eq_iff k j, bytes_eq_iff i j)

pub mem-insert_op :
    (op o : Bytes) (ops : List Bytes) → mem o (insert_op op ops) ≡ (bytes_eq op o || mem o ops)
unfolding insert_op mem
mem-insert_op op o ops = ground (arith, bytes_eq_iff op o, mem_same op o ops)
  where
    mem_same :
        (op o : Bytes) (ops : List Bytes)
        → mem op ops ≡ true
        → bytes_eq op o ≡ true
        → mem o ops ≡ true
    mem_same op o ops h e = ground (arith, bytes_eq_iff op o)

pub mem-remove_op :
    (op o : Bytes) (ops : List Bytes)
    → mem o (remove_op op ops) ≡ (if bytes_eq op o then false else mem o ops)
unfolding remove_op mem
mem-remove_op op o [] = ground arith
mem-remove_op op o (i ∷ ops) =
    ground (arith, mem-remove_op op o ops, bytes_eq_iff i op, bytes_eq_iff op o, bytes_eq_iff i o)
