-- ===== src/Driver/Controller/CreateLocks.antt =====
-- The locks that CreateVolume (pkg/driverd/controllerserver.go) leaves.
use csi_sanlock_lvm.Base.{
  ℕ, ◌≡◌, inl, inr, refl, ap, ◌∙◌, List, [], ◌∷◌, Code, not, invalid_argument, Bytes, bytes_eq,
  bytes_eq_iff, Option, none, some, ok, err, Result, Result-cases, arith, Bool, true, false,
}
use csi_sanlock_lvm.Base.Exec.{Exec, resume, check, lift, ◌>>=◌, ◌>>◌}
use csi_sanlock_lvm.Volume.Ref.{VolumeRef, vg_lv, volume, ref_from_vg_type_name}
use csi_sanlock_lvm.Volume.Pattern.{vg_re}
use csi_sanlock_lvm.Tags.KeyValue.{TagMap, encode_tags, fs_tag_key, name_tag_key}
use csi_sanlock_lvm.Lvmctrld.{LvmCtrld, active_exclusive}
use csi_sanlock_lvm.Driver.FileSystem.{Host, FileSystem, new_file_system, accepts}
use csi_sanlock_lvm.Driver.Fetch.{ref_from_lv}
use csi_sanlock_lvm.Driver.Lock.{Locker, lock_volume, unlock_volume}
use csi_sanlock_lvm.Driver.Lock.Laws.{held, held-lock_volume, held-unlock_volume}
use csi_sanlock_lvm.Driver.Lock.Table.{Locks}
use csi_sanlock_lvm.Driver.Node.{is_empty}
use csi_sanlock_lvm.Driver.Capability.{reduce_volume_capabilities}
use csi_sanlock_lvm.Driver.Controller.Snapshots.{finally}
use csi_sanlock_lvm.Driver.Controller.Volumes.{Volume}
use csi_sanlock_lvm.Driver.Controller.Create.{
  CreateVolumeRequest, Copier, Source, Work, locking, clean, data_volume, with_source, fill_locked,
  create_data_volume, cleaned, create_volume, resolve, world_of, is_nil, fs_name_of, access_of,
  volume_size, src_vol_of, src_size_of, source_tag,
}

module _ {W : Type 0} (client : LvmCtrld W) where
  abbrev holds : Work W → Bytes → Bytes → Bool
  holds s j o = held s.locker.locks j o

  data_volume-locks :
      (digest : Bytes → Bytes) (temp_name : Bytes) (source : Source) (s : Work W) (j o : Bytes)
      → holds (data_volume client digest temp_name source s).1 j o ≡ holds s j o
  unfolding data_volume
  data_volume-locks digest temp_name source s j o = ground arith

  abbrev after_lock : VolumeRef → Bytes → Work W → Work W
  after_lock ref lock_id s = record s { locker = (lock_volume client ref lock_id s.locker).1 }

  -- An action under a lock that was taken, and what it leaves held.
  finally-locks :
      {A : Type 0} (ref : VolumeRef) (lock_id : Bytes) (body : Exec (Work W) A) (s : Work W)
      (j o : Bytes) (u : Unit {0})
      → holds s (vg_lv ref) lock_id ≡ false
      → (lock_volume client ref lock_id s.locker).0 ≡ ok u
      → holds (body (after_lock ref lock_id s)).1 j o ≡ holds (after_lock ref lock_id s) j o
      → holds
          (finally body
            (locking client (unlock_volume client ref lock_id))
            (after_lock ref lock_id s)).1
          j
          o
        ≡ holds s j o
  unfolding finally
  finally-locks ref lock_id body s j o u fresh taken inside =
      held-unlock_volume client ref lock_id (body (after_lock ref lock_id s)).1.locker j o
      ∙ ground (
        arith,
        taken,
        held-lock_volume client ref lock_id s.locker j o,
        inside,
        bytes_eq_iff (vg_lv ref) j,
        bytes_eq_iff lock_id o,
        fresh,
      )

  refused-locks :
      (ref : VolumeRef) (lock_id : Bytes) (s : Work W) (j o : Bytes) (e : Code)
      → (lock_volume client ref lock_id s.locker).0 ≡ err e
      → holds (after_lock ref lock_id s) j o ≡ holds s j o
  refused-locks ref lock_id s j o e refused =
      ground (arith, refused, held-lock_volume client ref lock_id s.locker j o)

  under_lock-locks :
      {A : Type 0} (ref : VolumeRef) (lock_id : Bytes) (body : Exec (Work W) A) (s : Work W)
      (j o : Bytes)
      → holds s (vg_lv ref) lock_id ≡ false
      → holds (body (after_lock ref lock_id s)).1 j o ≡ holds (after_lock ref lock_id s) j o
      → holds
          ((locking client (lock_volume client ref lock_id)
              >> finally body (locking client (unlock_volume client ref lock_id)))
            s).1
          j
          o
        ≡ holds s j o
  under_lock-locks {A} ref lock_id body s j o fresh inside =
      elim (Result-cases (lock_volume client ref lock_id s.locker).0) [
        | inr (e, refused) ↦
            ap (λ r. holds (resume (λ _. rest) r (after_lock ref lock_id s)).1 j o) refused
            ∙ refused-locks ref lock_id s j o e refused
        | inl (u, taken) ↦
            ap (λ r. holds (resume (λ _. rest) r (after_lock ref lock_id s)).1 j o) taken
            ∙ finally-locks ref lock_id body s j o u fresh taken inside
      ]
    where
      rest : Exec (Work W) A
      rest = finally body (locking client (unlock_volume client ref lock_id))

  -- What a source's lock leaves held, if the body leaves everything as it is.
  with_source-locks :
      {A : Type 0} (digest : Bytes → Bytes) (src_lock_id temp_name : Bytes) (source : Option Source)
      (remote : ℕ → Exec W A) (body : Option VolumeRef → Exec (Work W) A) (s : Work W) (j o : Bytes)
      → ((k : Bytes) → holds s k src_lock_id ≡ false)
      → ((content : Option VolumeRef) (t : Work W)
          → ((k q : Bytes) → bytes_eq src_lock_id q ≡ false → holds t k q ≡ holds s k q)
          → holds (body content t).1 j o ≡ holds t j o)
      → holds (with_source client digest src_lock_id temp_name source remote body s).1 j o
        ≡ holds s j o
  unfolding with_source
  with_source-locks digest src_lock_id temp_name none remote body s j o fresh inside =
      inside none s (λ k q h. refl)
  with_source-locks {A} digest src_lock_id temp_name (some source) remote body s j o fresh inside =
      let ref = ref_from_lv source.lock_vol in
      elim (Result-cases (lock_volume client ref src_lock_id s.locker).0) [
        | inr (e, refused) ↦
            rw (with_source, refused)
              (ground (arith, refused-locks ref src_lock_id s j o e refused))
        | inl (u, taken) ↦
            rw (with_source, taken)
              (finally-locks ref src_lock_id read_and_fill s j o u (fresh (vg_lv ref)) taken
                read_and_fill-locks)
      ]
    where
      locked : Work W
      locked = after_lock (ref_from_lv source.lock_vol) src_lock_id s

      read : Result VolumeRef × Work W
      read = data_volume client digest temp_name source locked

      read_and_fill : Exec (Work W) A
      read_and_fill = data_volume client digest temp_name source >>= λ content. body (some content)

      unchanged : (k q : Bytes) → bytes_eq src_lock_id q ≡ false → holds read.1 k q ≡ holds s k q
      unchanged k q h =
          data_volume-locks digest temp_name source locked k q
          ∙ ground (
            arith,
            held-lock_volume client (ref_from_lv source.lock_vol) src_lock_id s.locker k q,
          )

      read_and_fill-locks : holds (read_and_fill locked).1 j o ≡ holds locked j o
      read_and_fill-locks = elim (Result-cases (read.0)) [
        | inr (e, failed) ↦
            ap (λ r. holds (resume (λ content. body (some content)) r (read.1)).1 j o) failed
            ∙ data_volume-locks digest temp_name source locked j o
        | inl (content, found) ↦
            ap (λ r. holds (resume (λ content. body (some content)) r (read.1)).1 j o) found
            ∙ inside (some content) (read.1) unchanged
            ∙ data_volume-locks digest temp_name source locked j o
      ]

  module _ (host : Host W) (copier : Copier W) where
    fill_locked-locks :
        (fs : FileSystem) (vol : VolumeRef) (lock_id : Bytes) (src_size : ℕ)
        (content : Option VolumeRef) (size : ℕ) (s : Work W) (j o : Bytes)
        → holds s (vg_lv vol) lock_id ≡ false
        → holds (fill_locked client host copier fs vol lock_id src_size content size s).1 j o
          ≡ holds s j o
    unfolding fill_locked
    fill_locked-locks fs vol lock_id src_size content size s j o fresh =
        under_lock-locks vol lock_id _ ((clean client (vg_lv vol) s).1) j o fresh (ground arith)

    create_data_volume-locks :
        (req : CreateVolumeRequest) (fs : FileSystem) (tags : TagMap) (vol : VolumeRef)
        (lock_id : Bytes) (src_size size : ℕ) (content : Option VolumeRef) (s : Work W)
        (j o : Bytes)
        → holds s (vg_lv vol) lock_id ≡ false
        → holds
            (create_data_volume client host copier req fs tags vol lock_id src_size size content
              s).1
            j
            o
          ≡ holds s j o
    unfolding create_data_volume
    create_data_volume-locks req fs tags vol lock_id src_size size content s j o fresh =
        let w' =
          (client.lv_create
            (record {
              vg_name = vol.vg_name;
              lv_name = vol.lv_name;
              activate = active_exclusive;
              size = size;
              origin = [];
              lv_tags = encode_tags tags;
            })
            s.locker.world).1 in
        ground (
          arith,
          fill_locked-locks fs vol lock_id src_size content size
              (record s { locker = record s.locker { world = w' } }) j o fresh,
        )

  cleaned-locks :
      {A : Type 0} (order : List Bytes → List Bytes) (m : Exec (Work W) A) (l : Locker W)
      (j o : Bytes)
      → holds (m (record { locker = l; cleanup_vols = [] })).1 j o ≡ held l.locks j o
      → held (cleaned client order m l).1.locks j o ≡ held l.locks j o
  unfolding cleaned
  cleaned-locks order m l j o h = h

  check-locks : (b : Bool) (e : Code) (t : Locker W) → (check b e t).1.locks ≡ t.locks
  check-locks true e t = refl
  check-locks false e t = refl

  module _ (locks : Locks) (j o : Bytes) where
    -- A step that keeps the locks, and one that leaves the same held after it.
    bind-locks :
        {A B : Type 0} (m : Exec (Locker W) A) (k : A → Exec (Locker W) B) (t : Locker W)
        → t.locks ≡ locks
        → (m t).1.locks ≡ t.locks
        → ((a : A) (u : Locker W) → u.locks ≡ locks → held (k a u).1.locks j o ≡ held locks j o)
        → held ((m >>= k) t).1.locks j o ≡ held locks j o
    bind-locks m k t same keeps next = elim (Result-cases ((m t).0)) [
      | inr (e, failed) ↦
          ap (λ r. held (resume k r ((m t).1)).1.locks j o) failed
          ∙ ap (λ l. held l j o) (keeps ∙ same)
      | inl (a, found) ↦
          ap (λ r. held (resume k r ((m t).1)).1.locks j o) found ∙ next a ((m t).1) (keeps ∙ same)
    ]

  -- The part of CreateVolume after its arguments have been checked.
  create_cleaned-locks :
      (host : Host W) (copier : Copier W) (digest : Bytes → Bytes) (order : List Bytes → List Bytes)
      (req : CreateVolumeRequest) (src_lock_id lock_id temp_name : Bytes)
      (remote : ℕ → Exec W Volume) (locks : Locks) (j o : Bytes)
      → ((k : Bytes) → held locks k src_lock_id ≡ false)
      → ((k : Bytes) → held locks k lock_id ≡ false)
      → bytes_eq src_lock_id lock_id ≡ false
      → (fs : FileSystem) (tags : TagMap) (vol : VolumeRef) (src_size size : ℕ)
        (source : Option Source) (t : Locker W)
      → t.locks ≡ locks
      → held
          (cleaned client order
            (with_source client digest src_lock_id temp_name source remote
              (create_data_volume client host copier req fs tags vol lock_id src_size size))
            t).1.locks
          j
          o
        ≡ held locks j o
  create_cleaned-locks host copier digest order req src_lock_id lock_id temp_name remote locks j o
        fresh_src fresh differ fs tags vol src_size size source t e =
      let back : (k q : Bytes) → held t.locks k q ≡ held locks k q =
        λ k q. ap (λ l. held l k q) e in
      let create : Option VolumeRef → Exec (Work W) Volume =
        create_data_volume client host copier req fs tags vol lock_id src_size size in
      let start : Work W = record { locker = t; cleanup_vols = [] } in
      cleaned-locks order (with_source client digest src_lock_id temp_name source remote create) t j
        o
        (with_source-locks digest src_lock_id temp_name source remote create start j o
          (λ k. back k src_lock_id ∙ fresh_src k)
          λ content u same.
            create_data_volume-locks host copier req fs tags vol lock_id src_size size content u j o
              (same (vg_lv vol) lock_id differ ∙ back (vg_lv vol) lock_id ∙ fresh (vg_lv vol)))
      ∙ back j o

  -- CreateVolume leaves the locker's table of who holds what as it was, on every branch, if its two lock
  -- ids are fresh and differ. This is about the table alone: whether the daemon deactivated the volumes is
  -- not said.
  pub create_volume-locks :
      (host : Host W) (copier : Copier W) (digest : Bytes → Bytes) (order : List Bytes → List Bytes)
      (default_fs : Bytes) (req : CreateVolumeRequest) (src_lock_id lock_id temp_name : Bytes)
      (remote : ℕ → Exec W Volume) (s : Locker W) (j o : Bytes)
      → ((k : Bytes) → held s.locks k src_lock_id ≡ false)
      → ((k : Bytes) → held s.locks k lock_id ≡ false)
      → bytes_eq src_lock_id lock_id ≡ false
      → held
          (create_volume client host copier digest order default_fs req src_lock_id lock_id
            temp_name remote s).1.locks
          j
          o
        ≡ held s.locks j o
  unfolding create_volume
  create_volume-locks host copier digest order default_fs req src_lock_id lock_id temp_name remote s
        j o fresh_src fresh differ =
      bind-locks s.locks j o (check (not (is_empty req.name)) invalid_argument) _ s refl
        (check-locks (not (is_empty req.name)) invalid_argument s)
        λ _ s1 e1.
          bind-locks s.locks j o (check (not (is_nil req.volume_capabilities)) invalid_argument) _
            s1 e1 (check-locks (not (is_nil req.volume_capabilities)) invalid_argument s1)
            λ _ s2 e2.
              bind-locks s.locks j o (lift (reduce_volume_capabilities req.volume_capabilities)) _
                s2 e2 refl
                λ cap s3 e3.
                  bind-locks s.locks j o (check (not (is_empty req.vg_name)) invalid_argument) _ s3
                    e3 (check-locks (not (is_empty req.vg_name)) invalid_argument s3)
                    λ _ s4 e4.
                      bind-locks s.locks j o (check (vg_re req.vg_name) invalid_argument) _ s4 e4
                        (check-locks (vg_re req.vg_name) invalid_argument s4)
                        λ _ s5 e5.
                          bind-locks s.locks j o (lift (volume_size req.capacity_range)) _ s5 e5
                            refl
                            λ size s6 e6.
                              let fs_name = fs_name_of default_fs cap in
                              let resolved = world_of client host copier digest order default_fs (
                                resolve client host copier digest order default_fs fs_name
                                  req.vg_name size req.volume_content_source) in
                              bind-locks s.locks j o resolved _ s6 e6 refl λ source s7 e7.
                                let accepted = accepts (new_file_system fs_name) (access_of cap) in
                                bind-locks s.locks j o (check accepted invalid_argument) _ s7 e7
                                  (check-locks accepted invalid_argument s7)
                                  λ _ s8 e8.
                                    let src_vol =
                                      src_vol_of client host copier digest order default_fs
                                        source in
                                    let tags =
                                      (fs_tag_key, fs_name)
                                      ∷ (name_tag_key, req.name)
                                      ∷ source_tag src_vol in
                                    create_cleaned-locks host copier digest order req src_lock_id
                                      lock_id temp_name remote s.locks j o fresh_src fresh differ
                                      (new_file_system fs_name) tags
                                      (ref_from_vg_type_name digest req.vg_name volume req.name)
                                      (src_size_of client host copier digest order default_fs
                                        source)
                                      size source s8 e8
