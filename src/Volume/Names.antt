-- ===== src/Volume/Names.antt =====
-- Identifiers, keys and names of volumes agree with one another.
use csi_sanlock_lvm.Base.{
  ℕ, ◌≡◌, ◌≢◌, refl, sym, ap, [], ◌∷◌, ◌++◌, true, ◌==◌, Bytes, Lacks, all, ok, arith, Bool-cases,
  inl, inr,
}
use csi_sanlock_lvm.Volume.Ref.{VolumeRef, split, ref_from_id, id}
use csi_sanlock_lvm.Volume.Pattern.{is_name_head, is_name_char, vg_re, volume_id_tail, volume_id_re}

pub split-Lacks : (c : ℕ) (s : Bytes) → Lacks c s → split s c ≡ s ∷ []
unfolding split
split-Lacks c [] h = refl
split-Lacks c (b ∷ s) h = ground (arith, split-Lacks c s h.1)

pub split-append : (c : ℕ) (s t : Bytes) → Lacks c s → split (s ++ c ∷ t) c ≡ s ∷ split t c
unfolding split
split-append c [] t h = ground arith
split-append c (b ∷ s) t h = ground (arith, split-append c s t h.1)

-- Neither name of the reference holds an '@'.
pub record IsParsable (v : VolumeRef) : Type 0 where
  pub lv : Lacks b'@' v.lv_name
  pub vg : Lacks b'@' v.vg_name

-- A reference whose names hold no '@' is read back from its id.
pub ref_from_id-id : (v : VolumeRef) → IsParsable v → ref_from_id (id v) ≡ ok v
unfolding ref_from_id id
ref_from_id-id v h =
    rw (split-append b'@' v.lv_name v.vg_name h.lv, split-Lacks b'@' v.vg_name h.vg)

pub name_char-ne-at : (c : ℕ) → is_name_char c ≡ true → c ≢ b'@'
unfolding is_name_char
name_char-ne-at c h = ground arith

name_head-name_char : (c : ℕ) → is_name_head c ≡ true → is_name_char c ≡ true
unfolding is_name_char
name_head-name_char c h = ground arith

names-Lacks : (s : Bytes) → all is_name_char s ≡ true → Lacks b'@' s
unfolding all
names-Lacks [] h = tt
names-Lacks (c ∷ s) h = ground (arith, name_char-ne-at c, names-Lacks s)

pub vg_re-Lacks : (s : Bytes) → vg_re s ≡ true → Lacks b'@' s
unfolding vg_re
vg_re-Lacks [] h = tt
vg_re-Lacks (c ∷ s) h = ground (arith, name_char-ne-at c, name_head-name_char c, names-Lacks s)

-- The parts of the tail of a matched id.
record TailParts (s : Bytes) : Type 0 where
  left : Bytes
  right : Bytes
  joined : s ≡ left ++ b'@' ∷ right
  left_chars : all is_name_char left ≡ true
  right_matches : vg_re right ≡ true

tail_parts : (s : Bytes) → volume_id_tail s ≡ true → TailParts s
unfolding volume_id_tail all
tail_parts [] h = absurd (cc)
tail_parts (c ∷ s) h = elim (Bool-cases (c == b'@')) [
  | inl at ↦ record {
    left = [];
    right = s;
    joined = ground arith;
    left_chars = refl;
    right_matches = ground arith;
  }
  | inr other ↦
      let p = tail_parts s (ground arith) in
      record {
        left = c ∷ p.left;
        right = p.right;
        joined = ap (λ r. c ∷ r) p.joined;
        left_chars = ground (arith, p.left_chars);
        right_matches = p.right_matches;
      }
]

-- An id that `volumeIdRe` matches is always parsed, into names that `vgRe` matches, and the parsed
-- reference prints as that id.
pub volume_id_re-ref_from_id :
    (s : Bytes)
    → volume_id_re s ≡ true
    → (v : VolumeRef) × (ref_from_id s ≡ ok v)
      × (id v ≡ s)
      × (vg_re v.lv_name ≡ true)
      × (vg_re v.vg_name ≡ true)
unfolding volume_id_re
volume_id_re-ref_from_id [] h = absurd (cc)
volume_id_re-ref_from_id (c ∷ s) h =
    let p = tail_parts s (ground arith) in
    let v : VolumeRef = record { lv_name = c ∷ p.left; vg_name = p.right } in
    let matched : vg_re (c ∷ p.left) ≡ true = unfold vg_re in ground (arith, p.left_chars) in
    let printed : id v ≡ c ∷ s = unfold id in ap (λ r. c ∷ r) (sym p.joined) in
    (
      v,
      rw (← printed) (
          ref_from_id-id v
            (record { lv = vg_re-Lacks _ matched; vg = vg_re-Lacks _ p.right_matches })),
      printed,
      matched,
      p.right_matches,
    )
