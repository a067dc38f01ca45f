-- ===== src/Driver/Identity.antt =====
-- The CSI identity service (pkg/driverd/identityserver.go).
use csi_sanlock_lvm.Base.{List, [], ◌∷◌, Bytes, Result, ok, err, unavailable, if◌then◌else◌}
use csi_sanlock_lvm.Driver.Node.{is_empty}

pub record IdentityServer : Type 0 where
  pub drv_name : Bytes
  pub version : Bytes

unfoldable pub new_identity_server : Bytes → Bytes → Result IdentityServer
new_identity_server drv_name version =
    if is_empty drv_name
    then err unavailable
    else if is_empty version
    then err unavailable
    else ok (record { drv_name = drv_name; version = version })

-- Name and vendor version.
unfoldable pub get_plugin_info : IdentityServer → Bytes × Bytes
get_plugin_info is = (is.drv_name, is.version)

pub data PluginCapability : Type 0 where
  controller_service volume_accessibility_constraints online_expansion : PluginCapability

unfoldable pub get_plugin_capabilities : List PluginCapability
get_plugin_capabilities =
    PluginCapability.controller_service ∷ PluginCapability.volume_accessibility_constraints
    ∷ PluginCapability.online_expansion ∷ []
