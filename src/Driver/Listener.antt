-- ===== src/Driver/Listener.antt =====
-- The listener of the driver daemon (pkg/driverd/listener.go).
use csi_sanlock_lvm.Base.{
  Bytes, codes, bytes_eq, Option, none, some, not, ◌&&◌, if◌then◌else◌, Result, ok, err, unknown,
}
use csi_sanlock_lvm.Base.Exec.{Exec, lift, ◌>>=◌, ◌>>◌}
use csi_sanlock_lvm.Base.Network.{Url, Network}
use csi_sanlock_lvm.Driver.FileSystem.{wrap}
use csi_sanlock_lvm.Driver.Node.{is_empty}

-- The servers that it registers are part of the network's `serve`.
pub record Listener : Type 0 where
  pub addr : Bytes

unfoldable pub new_listener : Bytes → Result Listener
new_listener addr = if is_empty addr then err unknown else ok (record { addr = addr })

-- Protocol and address.
unfoldable pub parse_address : (Bytes → Option Url) → Bytes → Result (Bytes × Bytes)
parse_address parse_url addr = elim (parse_url addr) [
  | none ↦ err unknown
  | some u ↦
      if not (is_empty u.host) && not (is_empty u.path)
      then err unknown
      else if not (is_empty u.host)
      then ok (u.scheme, u.host)
      else ok (u.scheme, u.path)
]

module _ {W : Type 0} (network : Network W) where
  -- The socket file of an earlier run is removed; it may be missing.
  unfoldable pub remove_socket : Bytes → Bytes → Exec W (Unit {0})
  remove_socket protocol addr w =
      if bytes_eq protocol (codes "unix")
      then (let (failed, w') = network.remove addr w in
          elim failed [
            | none ↦ (ok tt, w')
            | some is_not_exist ↦ if is_not_exist then (ok tt, w') else (err unknown, w')
          ])
      else (ok tt, w)

  unfoldable pub run : Listener → Exec W (Unit {0})
  unfolding parse_address
  run l = do
    parsed ← lift (parse_address network.parse_url l.addr)
    remove_socket (parsed.0) (parsed.1)
    wrap unknown (network.listen (parsed.0) (parsed.1))
    wrap unknown network.serve
