-- ===== src/Volume/Created.antt =====
-- The names that the driver gives to the volumes it creates, and the keys by which it tells
-- volumes apart.
use csi_sanlock_lvm.Base.{
  ℕ, ◌≡◌, refl, ap, [], ◌∷◌, ◌++◌, Bool, true, ◌&&◌, ◌||◌, leb, ◌==◌, if◌then◌else◌, Bytes, Lacks,
  all, arith, ok,
}
use csi_sanlock_lvm.Volume.Ref.{
  VolumeRef, LogVolType, vol_type_to_prefix, replace_slash, ref_from_vg_type_name, ref_from_id, id,
  vg_lv,
}
use csi_sanlock_lvm.Volume.Pattern.{is_name_char, vg_re, volume_id_tail, volume_id_re}
use csi_sanlock_lvm.Volume.Names.{name_char-ne-at, vg_re-Lacks, ref_from_id-id}

-- The alphabet of base64.StdEncoding without padding.
unfoldable pub is_base64 : ℕ → Bool
is_base64 c =
    (leb b'a' c && leb c b'z')
    || (leb b'A' c && leb c b'Z')
    || (leb b'0' c && leb c b'9')
    || (c == b'+')
    || (c == b'/')

replace_slash-chars :
    (s : Bytes) → all is_base64 s ≡ true → all is_name_char (replace_slash s) ≡ true
unfolding replace_slash all is_base64 is_name_char
replace_slash-chars [] h = refl
replace_slash-chars (c ∷ s) h = ground (arith, replace_slash-chars s)

volume_id_tail-append :
    (s t : Bytes)
    → all is_name_char s ≡ true
    → vg_re t ≡ true
    → volume_id_tail (s ++ b'@' ∷ t) ≡ true
unfolding volume_id_tail all
volume_id_tail-append [] t hs ht = ht
volume_id_tail-append (c ∷ s) t hs ht =
    ground (arith, name_char-ne-at c, volume_id_tail-append s t (ground arith) ht)

prefix_chars : (t : LogVolType) → all is_name_char (vol_type_to_prefix t) ≡ true
unfolding all is_name_char
prefix_chars LogVolType.volume = refl
prefix_chars LogVolType.snapshot = refl
prefix_chars LogVolType.temporary = refl

vg_re-prefix :
    (t : LogVolType) (s : Bytes)
    → all is_name_char s ≡ true
    → vg_re (vol_type_to_prefix t ++ s) ≡ true
unfolding vg_re all is_name_char
vg_re-prefix LogVolType.volume s h = ground arith
vg_re-prefix LogVolType.snapshot s h = ground arith
vg_re-prefix LogVolType.temporary s h = ground arith

volume_id_re-append :
    (l g : Bytes) → vg_re l ≡ true → vg_re g ≡ true → volume_id_re (l ++ b'@' ∷ g) ≡ true
unfolding volume_id_re vg_re
volume_id_re-append [] g hl hg = absurd (cc)
volume_id_re-append (c ∷ l) g hl hg = ground (arith, volume_id_tail-append l g (ground arith) hg)

volume_id_re-id :
    (v : VolumeRef) → vg_re v.lv_name ≡ true → vg_re v.vg_name ≡ true → volume_id_re (id v) ≡ true
unfolding id
volume_id_re-id v hl hv = volume_id_re-append v.lv_name v.vg_name hl hv

module _ (digest : Bytes → Bytes)
    (base64 : (name : Bytes) → all is_base64 (digest name) ≡ true) where
  -- Whatever the requested name is, the volume made for it in a volume group that `vgRe` accepts has
  -- an id that `volumeIdRe` accepts and that is parsed to the same reference, if base64 keeps to its
  -- alphabet.
  pub ref_from_vg_type_name-accepted :
      (vg : Bytes) (t : LogVolType) (name : Bytes)
      → vg_re vg ≡ true
      → let v = ref_from_vg_type_name digest vg t name in
        (volume_id_re (id v) ≡ true) × (ref_from_id (id v) ≡ ok v)
  unfolding ref_from_vg_type_name
  ref_from_vg_type_name-accepted vg t name h =
      let lv : vg_re (vol_type_to_prefix t ++ replace_slash (digest name)) ≡ true =
        vg_re-prefix t _ (replace_slash-chars (digest name) (base64 name)) in
      (
        volume_id_re-id _ lv h,
        ref_from_id-id _ (record { lv = vg_re-Lacks _ lv; vg = vg_re-Lacks _ h }),
      )

-- The part of a text before the first `c`, and the part behind it.
before : ℕ → Bytes → Bytes
before c [] = []
before c (b ∷ s) = if b == c then [] else b ∷ before c s

behind : ℕ → Bytes → Bytes
behind c [] = []
behind c (b ∷ s) = if b == c then s else behind c s

before-append : (c : ℕ) (s t : Bytes) → Lacks c s → before c (s ++ c ∷ t) ≡ s
unfolding before
before-append c [] t h = ground arith
before-append c (b ∷ s) t h = ground (arith, before-append c s t h.1)

behind-append : (c : ℕ) (s t : Bytes) → Lacks c s → behind c (s ++ c ∷ t) ≡ t
unfolding behind
behind-append c [] t h = ground arith
behind-append c (b ∷ s) t h = ground (arith, behind-append c s t h.1)

-- Volumes whose volume group holds no '/' have different lock keys unless they are the same volume.
pub vg_lv-injective :
    (v w : VolumeRef) → Lacks b'/' v.vg_name → Lacks b'/' w.vg_name → vg_lv v ≡ vg_lv w → v ≡ w
unfolding vg_lv
vg_lv-injective v w hv hw e = ground (
  arith,
  before-append b'/' v.vg_name v.lv_name hv,
  before-append b'/' w.vg_name w.lv_name hw,
  behind-append b'/' v.vg_name v.lv_name hv,
  behind-append b'/' w.vg_name w.lv_name hw,
  ap (before b'/') e,
  ap (behind b'/') e,
)
