-- ===== src/Driver/Controller/Pages.antt =====
-- The pages of ListVolumes and ListSnapshots, whose code is the same but for the entries.
use csi_sanlock_lvm.Base.{
  Result-cases, ℕ, zero, suc, append-nil, bytes_eq_refl, Bool-cases, inl, inr, ◌≡◌, refl, sym, ap,
  ◌∙◌, List, [], ◌∷◌, ◌++◌, take, drop, Bytes, bytes_eq, Bool, true, false, ◌&&◌, if◌then◌else◌,
  Result, ok, err, Code, aborted, arith, All,
}
use csi_sanlock_lvm.Base.Int.{ℤ, pos, negsuc}
use csi_sanlock_lvm.Volume.Ref.{VolumeRef, ref_from_id, id}
use csi_sanlock_lvm.Volume.Pattern.{volume_id_re}
use csi_sanlock_lvm.Lvmctrld.{LogicalVolume}
use csi_sanlock_lvm.Driver.Fetch.{ref_from_lv}

abbrev pub same_lv : VolumeRef → LogicalVolume → Bool
same_lv vol lv = bytes_eq lv.vg_name vol.vg_name && bytes_eq lv.lv_name vol.lv_name

-- The volumes from the first that is `vol` on.
unfoldable pub skip_to : VolumeRef → List LogicalVolume → List LogicalVolume
skip_to vol [] = []
skip_to vol (lv ∷ lvs) = let rest = skip_to vol lvs in if same_lv vol lv then lv ∷ lvs else rest

-- The volumes from the starting token on. The code of a token that cannot be parsed is `bad`.
unfoldable pub start : Code → Bytes → List LogicalVolume → Result (List LogicalVolume)
start bad [] lvs = ok lvs
start bad (b ∷ token) lvs =
    if volume_id_re (b ∷ token)
    then elim (ref_from_id (b ∷ token)) [
      | err _ ↦ err bad
      | ok vol ↦ elim (skip_to vol lvs) [ [] ↦ err aborted | lv ∷ rest ↦ ok (lv ∷ rest) ]
    ]
    else err aborted

-- `req.MaxEntries > 0` cuts the page.
unfoldable pub entries_of : ℤ → List LogicalVolume → List LogicalVolume
entries_of (pos (suc n)) lvs = take (suc n) lvs
entries_of _ lvs = lvs

unfoldable pub rest_of : ℤ → List LogicalVolume → List LogicalVolume
rest_of (pos (suc n)) lvs = drop (suc n) lvs
rest_of _ lvs = []

unfoldable pub next_token : List LogicalVolume → Bytes
next_token [] = []
next_token (lv ∷ lvs) = id (ref_from_lv lv)

unfoldable pub page : Code → Bytes → ℤ → List LogicalVolume → Result (List LogicalVolume × Bytes)
page bad token max_entries lvs = elim (start bad token lvs) [
  | err e ↦ err e
  | ok found ↦ ok (entries_of max_entries found, next_token (rest_of max_entries found))
]

take-drop : (n : ℕ) (lvs : List LogicalVolume) → take n lvs ++ drop n lvs ≡ lvs
take-drop zero lvs = refl
take-drop (suc n) [] = refl
take-drop (suc n) (lv ∷ lvs) = ap (λ l. lv ∷ l) (take-drop n lvs)

pub entries-rest : (m : ℤ) (lvs : List LogicalVolume) → entries_of m lvs ++ rest_of m lvs ≡ lvs
unfolding entries_of rest_of
entries-rest (pos zero) lvs = append-nil lvs
entries-rest (pos (suc n)) lvs = take-drop (suc n) lvs
entries-rest (negsuc n) lvs = append-nil lvs

-- A volume whose id is accepted and read back, as those are that the driver made.
abbrev pub IsListed : LogicalVolume → Type 0
IsListed lv =
    (volume_id_re (id (ref_from_lv lv)) ≡ true)
    × (ref_from_id (id (ref_from_lv lv)) ≡ ok (ref_from_lv lv))

-- No two volumes have the same names.
abbrev pub IsDistinct : List LogicalVolume → Type 0
IsDistinct [] = Unit
IsDistinct (lv ∷ lvs) = All (λ l. same_lv (ref_from_lv l) lv ≡ false) lvs × IsDistinct lvs

pub All-middle {κ} :
    (P : LogicalVolume → Type κ) (before : List LogicalVolume) (lv : LogicalVolume)
    (after : List LogicalVolume)
    → All P (before ++ lv ∷ after)
    → P lv
All-middle P [] lv after a = a.0
All-middle P (l ∷ before) lv after a = All-middle P before lv after a.1

skip_to-append :
    (before : List LogicalVolume) (lv : LogicalVolume) (after : List LogicalVolume)
    → IsDistinct (before ++ lv ∷ after)
    → skip_to (ref_from_lv lv) (before ++ lv ∷ after) ≡ lv ∷ after
unfolding skip_to ref_from_lv
skip_to-append [] lv after d = ground (arith, bytes_eq_refl lv.vg_name, bytes_eq_refl lv.lv_name)
skip_to-append (l ∷ before) lv after d = ground (
  arith,
  skip_to-append before lv after d.1,
  All-middle (λ k. same_lv (ref_from_lv k) l ≡ false) before lv after d.0,
)

skip_to-suffix :
    (vol : VolumeRef) (lvs : List LogicalVolume)
    → (before : List LogicalVolume) × (before ++ skip_to vol lvs ≡ lvs)
unfolding skip_to
skip_to-suffix vol [] = ([], refl)
skip_to-suffix vol (lv ∷ lvs) =
    let (before, e) = skip_to-suffix vol lvs in
    elim (Bool-cases (same_lv vol lv)) [
      | inl t ↦ ([], rw t refl)
      | inr f ↦ (lv ∷ before, rw f (ap (λ l. lv ∷ l) e))
    ]

start-found :
    (bad : Code) (b : _) (token : Bytes) (lvs found : List LogicalVolume)
    → start bad (b ∷ token) lvs ≡ ok found
    → (vol : VolumeRef) × (skip_to vol lvs ≡ found)
unfolding start
start-found bad b token lvs found e = elim (Result-cases (ref_from_id (b ∷ token))) [
  | inl (vol, q) ↦ (vol, ground arith)
  | inr (c, q) ↦ ground arith
]

pub start-suffix :
    (bad : Code) (token : Bytes) (lvs found : List LogicalVolume)
    → start bad token lvs ≡ ok found
    → (before : List LogicalVolume) × (before ++ found ≡ lvs)
unfolding start
start-suffix bad [] lvs found e = ([], ground arith)
start-suffix bad (b ∷ token) lvs found e =
    let (vol, q) = start-found bad b token lvs found e in
    let (before, r) = skip_to-suffix vol lvs in (before, ap (λ l. before ++ l) (sym q) ∙ r)

-- The start at a volume's own id is that volume.
pub start-at :
    (bad : Code) (before : List LogicalVolume) (lv : LogicalVolume) (after : List LogicalVolume)
    → IsDistinct (before ++ lv ∷ after)
    → IsListed lv
    → start bad (id (ref_from_lv lv)) (before ++ lv ∷ after) ≡ ok (lv ∷ after)
unfolding start volume_id_re
start-at bad before lv after d l = go (id (ref_from_lv lv)) l.0 l.1
  where
    go :
        (token : Bytes)
        → volume_id_re token ≡ true
        → ref_from_id token ≡ ok (ref_from_lv lv)
        → start bad token (before ++ lv ∷ after) ≡ ok (lv ∷ after)
    go [] r p = ground arith
    go (b ∷ token) r p = rw (start, r, p, skip_to-append before lv after d) refl
