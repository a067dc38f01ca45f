-- ===== src/Driver/Client.antt =====
-- The connection to the daemon lvmctrld (pkg/driverd/lvmctrldclient.go). The package grpc is a
-- parameter, and so is the state in which a connection is.
use csi_sanlock_lvm.Base.{
  ℕ, zero, suc, Bytes, Option, none, some, Bool, true, false, Result, ok, err,
}
use csi_sanlock_lvm.Base.Exec.{Exec}

pub data Connectivity : Type 0 where
  idle connecting ready transient_failure shutdown : Connectivity

abbrev is_ready : Connectivity → Bool
is_ready Connectivity.ready = true
is_ready _ = false

pub record Connection (W : Type 0) : Type 0 where
  pub dial : Bytes → Exec W (Unit {0})
  pub get_state : W → Connectivity
  -- Waits until the state is another one; false if the time is over before.
  pub wait_for_state_change : Connectivity → W → Bool × W
  pub close : Exec W (Unit {0})

module _ {W : Type 0} (connection : Connection W) where
  -- The loop, with a number of turns that it may take: it ends when the time is over or the connection
  -- is ready, and has no error in both cases.
  unfoldable pub await_ready : ℕ → W → Option W
  await_ready zero w = none
  await_ready (suc turns) w =
      let (changed, w') = connection.wait_for_state_change (connection.get_state w) w in
      elim changed [
        | false ↦ some w'
        | true ↦ elim (is_ready (connection.get_state w')) [
          | true ↦ some w'
          | false ↦ await_ready turns w'
        ]
      ]

  -- `connect`, and NewLvmCtrldClient, which does no more.
  unfoldable pub connect : ℕ → Bytes → W → Option (Result (Unit {0}) × W)
  unfolding await_ready
  connect turns address w =
      let (dialled, w') = connection.dial address w in
      elim dialled [
        | err e ↦ some (err e, w')
        | ok _ ↦ elim (await_ready turns w') [ none ↦ none | some w'' ↦ some (ok tt, w'') ]
      ]

  -- Close, of a connection that may be nil.
  unfoldable pub close_client : Bool → Exec W (Unit {0})
  close_client false w = (ok tt, w)
  close_client true w = connection.close w
