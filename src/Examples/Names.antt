-- ===== src/Examples/Names.antt =====
-- Tags, references and node ids.
use csi_sanlock_lvm.Base.{
  ◌≡◌, refl, [], ◌∷◌, ◌++◌, Bytes, true, ◌&&◌, if◌then◌else◌, bytes_eq, codes, some, ok, err,
  unknown, arith, All, all, Lacks,
}
use csi_sanlock_lvm.Tags.Encoder.{encode_tag, decode_tag}
use csi_sanlock_lvm.Tags.RoundTrip.{IsByte, encodable, decode_tag-encode_tag}
use csi_sanlock_lvm.Tags.KeyValue.{
  TagKey, TagMap, lookup, get, encode_tag_kv, decode_tag_kv, encode_tags, decode_tags, fs_tag_key,
}
use csi_sanlock_lvm.Tags.KeyRoundTrip.{IsKey, decode_tag_kv-encode_tag_kv}
use csi_sanlock_lvm.Tags.MapRoundTrip.{IsTag, IsTagMap, decode_tags-encode_tags}
use csi_sanlock_lvm.Volume.Ref.{VolumeRef, volume, ref_from_vg_type_name, ref_from_id, id}
use csi_sanlock_lvm.Volume.Pattern.{is_name_head, is_name_char, volume_id_re, vg_re}
use csi_sanlock_lvm.Volume.Names.{volume_id_re-ref_from_id}
use csi_sanlock_lvm.Volume.Created.{is_base64, ref_from_vg_type_name-accepted}

-- A hyphen, a space and a line feed, which is below 16.
abbrev text : Bytes
text = codes "-a b" ++ 10 ∷ []

text_bytes : All IsByte text
text_bytes = (omega arith, (omega arith, (omega arith, (omega arith, (omega arith, tt)))))

decode_tag-encode_tag_example :
    decode_tag (encode_tag text) ≡ (if encodable text then ok text else err unknown)
decode_tag-encode_tag_example = decode_tag-encode_tag text text_bytes

fs-IsKey : IsKey fs_tag_key
fs-IsKey = record {
  bytes = (omega arith, (omega arith, tt));
  no_equals = (λ e. ground arith, (λ e. ground arith, tt));
  no_hyphen = λ e. ground arith;
}

decode_tag_kv-encode_tag_kv_example :
    decode_tag_kv (encode_tag_kv fs_tag_key text)
    ≡ (if encodable fs_tag_key && encodable text then ok (some (fs_tag_key, text)) else err unknown)
decode_tag_kv-encode_tag_kv_example =
    decode_tag_kv-encode_tag_kv fs_tag_key text fs-IsKey text_bytes

ext4-IsTag : IsTag fs_tag_key (codes "ext4")
unfolding all
ext4-IsTag = record {
  key = fs-IsKey;
  bytes = (omega arith, (omega arith, (omega arith, (omega arith, tt))));
  encodable_key = refl;
  encodable_value = refl;
}

xfs-IsTag : IsTag fs_tag_key (codes "xfs")
unfolding all
xfs-IsTag = record {
  key = fs-IsKey;
  bytes = (omega arith, (omega arith, (omega arith, tt)));
  encodable_key = refl;
  encodable_value = refl;
}

abbrev one_tag : TagMap
one_tag = (fs_tag_key, codes "ext4") ∷ []

one_tag-IsTagMap : IsTagMap one_tag
unfolding get lookup bytes_eq
one_tag-IsTagMap = record { distinct = (tt, tt); tags = (ext4-IsTag, tt) }

decode_tags-encode_tags_example :
    (r : TagMap) × (decode_tags (encode_tags one_tag) ≡ ok r)
    × ((k : TagKey) → lookup k r ≡ lookup k one_tag)
decode_tags-encode_tags_example = decode_tags-encode_tags one_tag one_tag-IsTagMap

abbrev constant_digest : Bytes → Bytes
constant_digest name = codes "aB3+/x"

digest_base64 : (name : Bytes) → all is_base64 (constant_digest name) ≡ true
unfolding is_base64 all
digest_base64 name = refl

group_accepted : vg_re (codes "vg00") ≡ true
unfolding vg_re is_name_head all is_name_char
group_accepted = refl

ref_from_vg_type_name-accepted_example :
    let v = ref_from_vg_type_name constant_digest (codes "vg00") volume (codes "pvc-1") in
    (volume_id_re (id v) ≡ true) × (ref_from_id (id v) ≡ ok v)
ref_from_vg_type_name-accepted_example =
    ref_from_vg_type_name-accepted constant_digest digest_base64 (codes "vg00") volume
      (codes "pvc-1") group_accepted

id_accepted : volume_id_re (codes "csl-v-abc@vg00") ≡ true
unfolding volume_id_re is_name_head is_name_char vg_re all
id_accepted = refl

volume_id_re-ref_from_id_example :
    (v : VolumeRef) × (ref_from_id (codes "csl-v-abc@vg00") ≡ ok v)
    × (id v ≡ codes "csl-v-abc@vg00")
    × (vg_re v.lv_name ≡ true)
    × (vg_re v.vg_name ≡ true)
volume_id_re-ref_from_id_example = volume_id_re-ref_from_id (codes "csl-v-abc@vg00") id_accepted

abbrev some_volume : VolumeRef
some_volume = record { lv_name = codes "csl-v-abc"; vg_name = codes "vg00" }

no_slash : Lacks b'/' (codes "vg00")
no_slash = (λ e. ground arith, (λ e. ground arith, (λ e. ground arith, (λ e. ground arith, tt))))
