-- ===== src/Cmd/Driverd.antt =====
-- The start of the driver daemon (cmd/driverd/main.go). The host's name and the mailbox's device are
-- parameters.
use csi_sanlock_lvm.Base.{ℕ, Bytes, Option, none, some, if◌then◌else◌, Result, ok, err, unknown}
use csi_sanlock_lvm.Base.Exec.{Exec, pure, lift, ◌>>=◌}
use csi_sanlock_lvm.Lvmctrld.{LvmCtrld}
use csi_sanlock_lvm.DiskRpc.Rpc.{DiskRpc, Handler}
use csi_sanlock_lvm.Driver.FileSystem.{wrap}
use csi_sanlock_lvm.Driver.Lock.Table.{Locks}
use csi_sanlock_lvm.Driver.Node.{is_empty}
use csi_sanlock_lvm.Driver.Client.{Connection, connect}
use csi_sanlock_lvm.Driver.Identity.{IdentityServer, new_identity_server}
use csi_sanlock_lvm.Driver.Listener.{Listener, new_listener}
use csi_sanlock_lvm.Driver.Retry.{wait}
use csi_sanlock_lvm.Driver.Start.{
  OnDevice, new_volume_locker, new_disk_rpc_service, new_node_server, new_controller_server,
}

pub record Flags : Type 0 where
  pub drv_name : Bytes
  pub listen : Bytes
  pub lvmctrld : Bytes
  pub node_name : Bytes
  pub version : Bytes

-- The parts of the daemon; `V` is the world of the disk RPC.
pub record Daemon (V : Type 0) : Type 0 where
  pub node : Bytes
  pub locker_id : ℕ
  pub locks : Locks
  pub mail_box : ℕ
  pub identity : IdentityServer
  pub node_id : ℕ
  pub controller_id : ℕ
  pub rpc : DiskRpc V
  pub listener : Listener

module _ {W V : Type 0} (client : LvmCtrld W) (get_status : Exec W ℕ) (connection : Connection W)
    (hostname : Exec W Bytes) (sleep : ℕ → W → W) (directio_block_size : ℕ) (on_device : OnDevice W)
    (handler : Handler V) (rpc : DiskRpc V) where
  unfoldable pub node_of : Bytes → Exec W Bytes
  node_of node_name = if is_empty node_name then wrap unknown hostname else pure node_name

  -- The start once lvmctrld answers.
  unfoldable pub bootstrap_ready : Flags → Exec W (Daemon V)
  unfolding node_of
  bootstrap_ready flags = do
    node ← node_of flags.node_name
    locker ← wrap unknown (new_volume_locker client get_status node)
    mail_box ← wrap unknown (new_disk_rpc_service client get_status directio_block_size on_device)
    identity ← lift (new_identity_server flags.drv_name flags.version)
    node_id ← wrap unknown (new_node_server client get_status)
    controller ← wrap unknown (new_controller_server client get_status handler rpc)
    listener ← lift (new_listener flags.listen)
    pure (record {
      node = node;
      locker_id = locker.0;
      locks = locker.1;
      mail_box = mail_box;
      identity = identity;
      node_id = node_id;
      controller_id = controller.0;
      rpc = controller.1;
      listener = listener;
    })

  -- With a number of turns for each of the loops that wait: `none` if lvmctrld does not answer in
  -- these.
  unfoldable pub bootstrap : ℕ → Flags → W → Option (Result (Daemon V) × W)
  unfolding bootstrap_ready connect wait
  bootstrap turns flags w = elim (connect connection turns flags.lvmctrld w) [
    | none ↦ none
    | some (err _, w') ↦ some (err unknown, w')
    | some (ok _, w') ↦ elim (wait client sleep turns w') [
      | none ↦ none
      | some (_, w'') ↦ some (bootstrap_ready flags w'')
    ]
  ]
