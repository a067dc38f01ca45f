-- ===== src/Cmd/Addresses.antt =====
-- The two versions of parseAddress (pkg/driverd/listener.go, pkg/lvmctrld/listener.go).
use csi_sanlock_lvm.Base.{
  ◌≡◌, ◌⊎◌, inl, inr, refl, Bytes, Option, Option-cases, none, some, err, unknown, not, ◌&&◌, [],
  ◌∷◌, arith, false, Bool-cases,
}
use csi_sanlock_lvm.Base.Network.{Url}
use csi_sanlock_lvm.Driver.Node.{is_empty}
use csi_sanlock_lvm.Driver.Listener as Driverd
use csi_sanlock_lvm.Lvmctrld.Listener as Lvmctrld

is_set-is_empty : (s : Bytes) → Lvmctrld.is_set s ≡ not (is_empty s)
unfolding is_empty
is_set-is_empty [] = refl
is_set-is_empty (b ∷ s) = refl

module _ (parse_url : Bytes → Option Url) where
  -- The two daemons read an address alike, with one exception: for a URL that has a host and a path the
  -- driver returns an error, and the other daemon panics.
  pub parse_address_agrees :
      (addr : Bytes)
      → (Lvmctrld.parse_address parse_url addr ≡ some (Driverd.parse_address parse_url addr))
        ⊎ ((u : Url) × (parse_url addr ≡ some u)
            × (is_empty u.host ≡ false)
            × (is_empty u.path ≡ false)
            × (Driverd.parse_address parse_url addr ≡ err unknown)
            × (Lvmctrld.parse_address parse_url addr ≡ none))
  unfolding Driverd.parse_address Lvmctrld.parse_address
  parse_address_agrees addr = elim (Option-cases (parse_url addr)) [
    | inl missing ↦ inl (ground arith)
    | inr (u, found) ↦ elim (Bool-cases (not (is_empty u.host) && not (is_empty u.path))) [
      | inl both ↦ inr (
        u,
        found,
        ground arith,
        ground arith,
        rw (Driverd.parse_address, found, both) refl,
        rw
            (
              Lvmctrld.parse_address,
              Driverd.parse_address,
              found,
              is_set-is_empty u.host,
              is_set-is_empty u.path,
              both,
            )
            refl,
      )
      | inr not_both ↦ inl (
          rw
            (
              Lvmctrld.parse_address,
              Driverd.parse_address,
              found,
              is_set-is_empty u.host,
              is_set-is_empty u.path,
              not_both,
            )
            (ground arith))
    ]
  ]
