-- ===== src/Driver/Retry.antt =====
-- The loops that try again until there is no error: Lock and Unlock of the adapter
-- (pkg/driverd/diskrpcservice.go) and Wait of the client (pkg/driverd/lvmctrldclient.go). Between two
-- turns the loop sleeps, and others run. A run is given the number of turns it may take: `none` is a
-- loop that has not ended by then, or has panicked.
use mathlib.Core.Option.{some-injective}
use csi_sanlock_lvm.Base.{
  ℕ, List, zero, suc, ◌≡◌, refl, ap, ◌∙◌, sym, bytes_eq_refl, true, Option, none, some, ok, err,
  Code, arith, [], Result-cases, inl, inr,
}
use csi_sanlock_lvm.Base.Exec.{Exec}
use csi_sanlock_lvm.Volume.Ref.{VolumeRef, vg_lv}
use csi_sanlock_lvm.Lvmctrld.{LvmCtrld, VolumeGroup}
use csi_sanlock_lvm.Driver.Lock.{Locker, lock_volume, unlock_volume}
use csi_sanlock_lvm.Driver.Lock.Laws.{held, is_ok, held-lock_volume}
use csi_sanlock_lvm.Driver.RpcService.{disk_rpc_op, next_delay}

-- `sleep delay` is what happens in the time of a sleep.
module _ {S A : Type 0} (sleep : ℕ → S → S) (next : ℕ → ℕ) (step : Exec S A) where
  unfoldable pub retry : ℕ → ℕ → S → Option (A × S)
  retry zero delay s = none
  retry (suc turns) delay s =
      let (outcome, s') = step s in
      elim outcome [
        | ok a ↦ some (a, s')
        | err Code.panicked ↦ none
        | err _ ↦ retry turns (next delay) (sleep delay s')
      ]

  failed_turn :
      (turns delay : ℕ) (s after : S) (a : A) (c : Code)
      → (step s).0 ≡ err c
      → retry (suc turns) delay s ≡ some (a, after)
      → retry turns (next delay) (sleep delay (step s).1) ≡ some (a, after)
  unfolding retry
  failed_turn turns delay s after a c failed e = ground (arith, e, failed)

  -- A loop that returns has made an attempt that succeeded, and nothing after it.
  retry-last :
      (turns delay : ℕ) (s after : S) (a : A)
      → retry turns delay s ≡ some (a, after)
      → (before : S) × (step before ≡ (ok a, after))
  unfolding retry
  retry-last zero delay s after a e = absurd (cc)
  retry-last (suc turns) delay s after a e = elim (Result-cases ((step s).0)) [
    | inl (b, done) ↦
        let now : some (b, (step s).1) ≡ some (a, after) = sym (rw (retry, done) refl) ∙ e in
        (
          s,
          ap (λ r. (r, (step s).1)) done
              ∙ ap (λ p. (ok p.0, p.1)) (some-injective (b, (step s).1) (a, after) now),
        )
    | inr (c, failed) ↦
        retry-last turns (next delay) (sleep delay (step s).1) after a
          (failed_turn turns delay s after a c failed e)
  ]

module _ {W : Type 0} (client : LvmCtrld W) (sleep : ℕ → Locker W → Locker W) where
  -- The adapter's Lock, whose first delay is a second.
  unfoldable pub lock : VolumeRef → ℕ → Locker W → Option (Unit {0} × Locker W)
  unfolding retry
  lock vol turns = retry sleep next_delay (lock_volume client vol disk_rpc_op) turns 1000000000

  -- Its Unlock, whose first delay is a nanosecond.
  unfoldable pub unlock : VolumeRef → ℕ → Locker W → Option (Unit {0} × Locker W)
  unfolding retry
  unlock vol turns = retry sleep next_delay (unlock_volume client vol disk_rpc_op) turns 1

  -- When the adapter's Lock returns, however often it tried and whatever others did while it slept, the
  -- disk RPC holds the volume.
  pub lock-held :
      (vol : VolumeRef) (turns : ℕ) (s after : Locker W)
      → lock vol turns s ≡ some (tt, after)
      → held after.locks (vg_lv vol) disk_rpc_op ≡ true
  unfolding lock
  lock-held vol turns s after e =
      let (before, locked) =
        retry-last sleep next_delay (lock_volume client vol disk_rpc_op) turns 1000000000 s after tt
          e in
      let holds = held-lock_volume client vol disk_rpc_op before (vg_lv vol) disk_rpc_op in
      let same = bytes_eq_refl (vg_lv vol) in
      let same_op = bytes_eq_refl disk_rpc_op in
      let states = ap (λ r. r.1) locked in
      let succeeds = ap (λ r. is_ok r.0) locked in
      sym (ap (λ t. held t.locks (vg_lv vol) disk_rpc_op) states)
      ∙ holds
      ∙ rw (succeeds, same, same_op) refl

module _ {W : Type 0} (client : LvmCtrld W) (sleep : ℕ → W → W) where
  -- LvmCtrldClientConnection.Wait, which asks once a second.
  unfoldable pub wait : ℕ → W → Option (List VolumeGroup × W)
  unfolding retry
  wait turns =
      retry sleep (λ delay. delay) (client.vgs (record { select = []; target = [] })) turns
        1000000000
