-- ===== src/Driver/Controller/Answers.antt =====
-- The calls of the controller service whose answer is always the same
-- (pkg/driverd/controllerserver.go).
use csi_sanlock_lvm.Base.{List, [], ◌∷◌, Result, err, unimplemented}

pub data ControllerCapability : Type 0 where
  clone_volume create_delete_snapshot create_delete_volume : ControllerCapability
  expand_volume list_snapshots list_volumes : ControllerCapability

-- The order in which the code lists a map's keys is not fixed.
unfoldable pub controller_capabilities : List ControllerCapability
controller_capabilities =
    ControllerCapability.clone_volume ∷ ControllerCapability.create_delete_snapshot
    ∷ ControllerCapability.create_delete_volume ∷ ControllerCapability.expand_volume
    ∷ ControllerCapability.list_snapshots ∷ ControllerCapability.list_volumes ∷ []

unfoldable pub controller_get_volume : Result (Unit {0})
controller_get_volume = err unimplemented

unfoldable pub controller_publish_volume : Result (Unit {0})
controller_publish_volume = err unimplemented

unfoldable pub controller_unpublish_volume : Result (Unit {0})
controller_unpublish_volume = err unimplemented
