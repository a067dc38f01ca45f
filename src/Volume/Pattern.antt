-- ===== src/Volume/Pattern.antt =====
-- The regular expressions `vgRe` and `volumeIdRe` (pkg/driverd/controllerserver.go), as matchers.
use csi_sanlock_lvm.Base.{ℕ, [], ◌∷◌, Bytes, Bool, false, ◌&&◌, ◌||◌, leb, ◌==◌, if◌then◌else◌, all}

-- [a-zA-Z0-9+_.]
unfoldable pub is_name_head : ℕ → Bool
is_name_head c =
    (leb b'a' c && leb c b'z')
    || (leb b'A' c && leb c b'Z')
    || (leb b'0' c && leb c b'9')
    || (c == b'+')
    || (c == b'_')
    || (c == b'.')

-- [a-zA-Z0-9+_.-]
unfoldable pub is_name_char : ℕ → Bool
unfolding is_name_head
is_name_char c = is_name_head c || (c == b'-')

-- ^[a-zA-Z0-9+_.][a-zA-Z0-9+_.-]*$
unfoldable pub vg_re : Bytes → Bool
vg_re [] = false
vg_re (c ∷ s) = is_name_head c && all is_name_char s

-- What follows the first byte of a volume id: the class never matches the '@'.
unfoldable pub volume_id_tail : Bytes → Bool
volume_id_tail [] = false
volume_id_tail (c ∷ s) = if c == b'@' then vg_re s else is_name_char c && volume_id_tail s

-- ^[a-zA-Z0-9+_.][a-zA-Z0-9+_.-]*@[a-zA-Z0-9+_.][a-zA-Z0-9+_.-]*$
unfoldable pub volume_id_re : Bytes → Bool
unfolding volume_id_tail
volume_id_re [] = false
volume_id_re (c ∷ s) = is_name_head c && volume_id_tail s
