-- ===== src/Driver/Start.antt =====
-- The constructors of the driver daemon's parts (pkg/driverd): newBaseServer, NewVolumeLocker,
-- NewDiskRpcService with the turns of its Start, NewNodeServer and NewControllerServer.
use csi_sanlock_lvm.Base.{ℕ, ◌%◌, ◌^◌, [], Bytes, some, ok, err, unknown}
use csi_sanlock_lvm.Base.Exec.{Exec, pure, lift, ◌>>=◌, ◌>>◌}
use csi_sanlock_lvm.Volume.Ref.{dev_path}
use csi_sanlock_lvm.Lvmctrld.{LvmCtrld}
use csi_sanlock_lvm.Mailbox.Messages.{new_mail_box}
use csi_sanlock_lvm.DiskRpc.Rpc.{DiskRpc, MailBox, Codec, Handler, handle, register}
use csi_sanlock_lvm.Driver.FileSystem.{wrap}
use csi_sanlock_lvm.Driver.Lock.{sync}
use csi_sanlock_lvm.Driver.Lock.Table.{Locks}
use csi_sanlock_lvm.Driver.RpcService.{find_rpc_volumes}

abbrev pub controller_server_disk_rpc_id : ℕ
controller_server_disk_rpc_id = 0

-- One turn of the loop that Start begins, whose errors are logged. The next one is a second later.
module _ {W : Type 0} (mail_box : MailBox W) (codec : Codec) where
  unfoldable pub start_turn : ℕ → DiskRpc W → DiskRpc W
  unfolding handle
  start_turn now s = (handle mail_box codec now s).1

-- Opening the device of a path and doing an action on its bytes; it fails if the device does not open.
abbrev pub OnDevice : Type 0 → Type 0
OnDevice W = Bytes → Exec Bytes ℕ → Exec W ℕ

-- GetStatus of the daemon lvmctrld gives the node's id.
module _ {W : Type 0} (client : LvmCtrld W) (get_status : Exec W ℕ) where
  unfoldable pub new_base_server : Exec W ℕ
  new_base_server = do id ← wrap unknown get_status; pure (id % 2 ^ 16)

  -- The id of the node and the locks that are held at the start.
  unfoldable pub new_volume_locker : Bytes → Exec W (ℕ × Locks)
  unfolding new_base_server
  new_volume_locker node_name = do id ← new_base_server; synced id
    where
      synced : ℕ → Exec W (ℕ × Locks)
      synced id w =
          let (done, s) =
            sync client (record { node_id = id; node_name = node_name; locks = []; world = w }) in
          elim done [ err _ ↦ (err unknown, s.world) | ok _ ↦ (ok (id, s.locks), s.world) ]

  -- The id of the node's mailbox.
  unfoldable pub new_disk_rpc_service : ℕ → OnDevice W → Exec W ℕ
  unfolding new_base_server
  new_disk_rpc_service directio_block_size on_device = do
    id ← new_base_server
    vols ← wrap unknown (find_rpc_volumes client)
    wrap unknown (on_device (dev_path (vols.1)) (new_mail_box directio_block_size id))

  unfoldable pub new_node_server : Exec W ℕ
  unfolding new_base_server
  new_node_server = new_base_server

  -- The controller's id, and the disk RPC with its handler.
  unfoldable pub new_controller_server :
      {V : Type 0} → Handler V → DiskRpc V → Exec W (ℕ × DiskRpc V)
  unfolding new_base_server
  new_controller_server handler rpc = do
    id ← new_base_server
    let (registered, rpc') = register controller_server_disk_rpc_id (some handler) rpc
    lift registered
    pure (id, rpc')
