-- ===== src/Base/Network.antt =====
-- What a listener needs of the packages net, net/url, os and google.golang.org/grpc, which are not
-- code of the repository.
use csi_sanlock_lvm.Base.Text.{Bytes}
use csi_sanlock_lvm.Base.Exec.{Exec}
use mathlib.Core.Bool.{Bool}
use mathlib.Core.Option.{Option}

-- The parts of a URL that the code reads.
pub record Url : Type 0 where
  pub scheme : Bytes
  pub host : Bytes
  pub path : Bytes

pub record Network (W : Type 0) : Type 0 where
  -- url.Parse.
  pub parse_url : Bytes → Option Url
  -- os.Remove: none, or an error and whether os.IsNotExist holds of it.
  pub remove : Bytes → W → Option Bool × W
  -- net.Listen on a protocol and an address.
  pub listen : Bytes → Bytes → Exec W (Unit {0})
  -- The gRPC server's Serve.
  pub serve : Exec W (Unit {0})
