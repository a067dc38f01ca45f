-- ===== src/Lvmctrld/Start.antt =====
-- Starting the lock daemons (pkg/lvmctrld/lock.go). Processes, the clock and the package shlex are not
-- code of the repository. Where a process writes its output is not modelled, nor that the daemon ends
-- when a process that it started does.
use csi_sanlock_lvm.Base.{
  ℕ, List, [], ◌∷◌, ◌++◌, Bytes, codes, itoa, Option, none, some, Result, ok, err, unknown,
}
use csi_sanlock_lvm.Base.Exec.{Exec, lift, ◌>>=◌, ◌>>◌}

pub record System (W : Type 0) : Type 0 where
  -- Start of a command, which goes on running, and Run, which waits for it to end.
  pub start : Bytes → List Bytes → Exec W (Unit {0})
  pub run : Bytes → List Bytes → Exec W (Unit {0})
  -- A number of seconds.
  pub sleep : ℕ → W → W
  -- shlex.Split.
  pub split_words : Bytes → Option (List Bytes)

abbrev pub words : Option (List Bytes) → Result (List Bytes)
words none = err unknown
words (some args) = ok args

module _ {W : Type 0} (system : System W) where
  abbrev pub pause : Exec W (Unit {0})
  pause w = (ok tt, system.sleep 1 w)

  unfoldable pub daemonize : Bytes → List Bytes → Exec W (Unit {0})
  daemonize executable args w =
      let (started, w') = system.start executable args w in
      elim started [ ok _ ↦ (ok tt, w') | err _ ↦ (err unknown, w') ]

  abbrev pub lock_start : Exec W (Unit {0})
  lock_start = system.run (codes "vgchange") (codes "--lockstart" ∷ codes "--verbose" ∷ [])

  -- The first attempt may fail, and is made once more a second later.
  unfoldable pub start_global_lock : Exec W (Unit {0})
  start_global_lock w =
      let (first, w') = lock_start w in
      elim first [
        | ok _ ↦ (ok tt, w')
        | err _ ↦
            let (second, w'') = lock_start (system.sleep 1 w') in
            elim second [ ok _ ↦ (ok tt, w'') | err _ ↦ (err unknown, w'') ]
      ]

  unfoldable pub start_lock : ℕ → Bytes → Bytes → Exec W (Unit {0})
  unfolding daemonize start_global_lock itoa
  start_lock id sanlock_args lvmlockd_args = do
    daemonize (codes "wdmd") (codes "-D" ∷ [])
    sanlock_extra ← lift (words (system.split_words sanlock_args))
    daemonize (codes "sanlock") ((codes "daemon" ∷ codes "-D" ∷ []) ++ sanlock_extra)
    lvmlockd_extra ← lift (words (system.split_words lvmlockd_args))
    daemonize (codes "lvmlockd")
        ((codes "--host-id" ∷ itoa 5 id ∷ codes "-f" ∷ []) ++ lvmlockd_extra)
    pause
    start_global_lock
