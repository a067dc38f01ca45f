-- ===== src/Examples/Starts.antt =====
-- Starts of the daemons, and the numbers of a file system.
use csi_sanlock_lvm.Base.{
  ℕ, suc, ◌≡◌, ◌⊎◌, refl, [], ◌∷◌, Bytes, codes, some, none, Option, ok, err, unknown, true, false,
  arith,
}
use csi_sanlock_lvm.Base.Int.{pos}
use csi_sanlock_lvm.Base.Network.{Url}
use csi_sanlock_lvm.Lvmctrld.Listener as Lvmctrld
use csi_sanlock_lvm.Lvmctrld.Start.{System, start_lock}
use csi_sanlock_lvm.Mailbox.Messages.{new_mail_box_id}
use csi_sanlock_lvm.Driver.Listener as Driverd
use csi_sanlock_lvm.Driver.FileSystem.{Statfs}
use csi_sanlock_lvm.Driver.Node.{is_empty}
use csi_sanlock_lvm.Driver.Node.Stats.{usage_of, UsageUnit, usage_of-small}
use csi_sanlock_lvm.Cmd.Lvmctrld.{Flags, same, bootstrap, host_id_of}
use csi_sanlock_lvm.Cmd.HostId.{bootstrap-new_mail_box_id, bootstrap-refused}
use csi_sanlock_lvm.Cmd.Addresses.{parse_address_agrees}

-- A system on which everything succeeds; it counts what is run.
abbrev counting : System ℕ
counting = record {
  start = λ executable args n. (ok tt, suc n);
  run = λ executable args n. (ok tt, suc n);
  sleep = λ seconds n. n;
  split_words = λ text. some [];
}

abbrev parse_ip : Bytes → Option Bytes
parse_ip text = some (10 ∷ 0 ∷ 2 ∷ 3 ∷ [])

abbrev flags : Flags
flags = record {
  no_lock = false;
  lock_addr = codes "10.0.2.3";
  lock_id = 0;
  sanlock_args = [];
  lvmlockd_args = [];
  listen = codes "tcp://0.0.0.0:9000";
}

abbrev listener : Lvmctrld.Listener
listener = record { addr = codes "tcp://0.0.0.0:9000"; id = 516 }

started : bootstrap parse_ip counting flags 0 ≡ (ok listener, 4)
unfolding bootstrap host_id_of start_lock Lvmctrld.new_listener Lvmctrld.init
started = refl

bootstrap-new_mail_box_id_example : (same false true ≡ false) × (new_mail_box_id 516 ≡ ok 516)
bootstrap-new_mail_box_id_example =
    bootstrap-new_mail_box_id parse_ip counting flags 0 4 listener started

abbrev id_alone : Flags
id_alone = record flags { lock_addr = []; lock_id = 5 }

bootstrap-refused_example : bootstrap parse_ip counting id_alone 0 ≡ (err unknown, 0)
bootstrap-refused_example = bootstrap-refused parse_ip counting id_alone 0 refl

abbrev url : Url
url = record { scheme = codes "unix"; host = codes "var"; path = codes "/run/lvmctrld.sock" }

parse_address_agrees_example :
    (Lvmctrld.parse_address (λ _. some url) (codes "unix://var/run/lvmctrld.sock")
      ≡ some (Driverd.parse_address (λ _. some url) (codes "unix://var/run/lvmctrld.sock")))
    ⊎ ((u : Url) × (some url ≡ some u)
        × (is_empty u.host ≡ false)
        × (is_empty u.path ≡ false)
        × (Driverd.parse_address (λ _. some url) (codes "unix://var/run/lvmctrld.sock")
            ≡ err unknown)
        × (Lvmctrld.parse_address (λ _. some url) (codes "unix://var/run/lvmctrld.sock") ≡ none))
parse_address_agrees_example =
    parse_address_agrees (λ _. some url) (codes "unix://var/run/lvmctrld.sock")

abbrev numbers : Statfs
numbers = record { bsize = 4096; blocks = 100; bfree = 40; bavail = 35; files = 20; ffree = 15 }

usage_of-small_example :
    usage_of numbers
    ≡ record {
      available = pos 143360;
      total = pos 409600;
      used = pos 245760;
      unit = UsageUnit.in_bytes;
    }
      ∷ (record { available = pos 15; total = pos 20; used = pos 5; unit = UsageUnit.in_inodes })
      ∷ []
usage_of-small_example =
    usage_of-small numbers (omega arith) (omega arith) (omega arith) (omega arith) (omega arith)
      (omega arith)
