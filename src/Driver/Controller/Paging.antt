-- ===== src/Driver/Controller/Paging.antt =====
-- A caller that asks ListVolumes or ListSnapshots for page after page.
use csi_sanlock_lvm.Base.{
  ℕ, zero, suc, ◌<◌, ◌≤◌, ◌≡◌, refl, sym, ap, subst, ◌∙◌, List, [], ◌∷◌, ◌++◌, append-nil, length,
  append_assoc, drop, Bytes, true, Option, none, some, ok, err, Code, arith, All,
}
use csi_sanlock_lvm.Base.Int.{ℤ, pos, negsuc}
use csi_sanlock_lvm.Volume.Ref.{id}
use csi_sanlock_lvm.Volume.Pattern.{volume_id_re}
use csi_sanlock_lvm.Lvmctrld.{LogicalVolume}
use csi_sanlock_lvm.Driver.Fetch.{ref_from_lv}
use csi_sanlock_lvm.Driver.Controller.Pages.{
  page, start, entries_of, rest_of, next_token, IsListed, IsDistinct, entries-rest, start-suffix,
  start-at, All-middle,
}

-- What is put in front of the pages that follow.
abbrev pub in_front : List LogicalVolume → Option (List LogicalVolume) → Option (List LogicalVolume)
in_front entries none = none
in_front entries (some more) = some (entries ++ more)

-- The entries of all pages from a token on, until a page has no next token.
unfoldable pub all_pages : Code → ℤ → List LogicalVolume → ℕ → Bytes → Option (List LogicalVolume)
all_pages bad m lvs zero token = none
all_pages bad m lvs (suc fuel) token = elim (page bad token m lvs) [
  | err e ↦ none
  | ok (entries, next) ↦ elim next [
    | [] ↦ some entries
    | b ∷ t ↦ in_front entries (all_pages bad m lvs fuel (b ∷ t))
  ]
]

length-drop_le : (n : ℕ) (l : List LogicalVolume) → length (drop n l) ≤ length l
length-drop_le zero l = omega arith
length-drop_le (suc n) [] = omega arith
length-drop_le (suc n) (x ∷ l) = omega (arith, length-drop_le n l)

rest_of-shorter :
    (m : ℤ) (found : List LogicalVolume) (lv : LogicalVolume) (rest : List LogicalVolume)
    → rest_of m found ≡ lv ∷ rest
    → length (lv ∷ rest) < length found
unfolding rest_of
rest_of-shorter (pos zero) found lv rest e = absurd (ground (arith, e))
rest_of-shorter (pos (suc n)) [] lv rest e = absurd (ground (arith, e))
rest_of-shorter (pos (suc n)) (x ∷ found) lv rest e =
    omega (arith, ap length e, length-drop_le n found)
rest_of-shorter (negsuc n) found lv rest e = absurd (ground (arith, e))

module _ (bad : Code) (m : ℤ) (lvs : List LogicalVolume) (distinct : IsDistinct lvs)
    (listed : All IsListed lvs) where
  -- The page that starts with `found`.
  last_page :
      (fuel : ℕ) (token : Bytes) (found : List LogicalVolume)
      → start bad token lvs ≡ ok found
      → rest_of m found ≡ []
      → all_pages bad m lvs (suc fuel) token ≡ some found
  unfolding all_pages page next_token
  last_page fuel token found s e =
      rw (all_pages, page, s, e)
        (ap some (
          sym (append-nil (entries_of m found))
          ∙ ap (λ r. entries_of m found ++ r) (sym e)
          ∙ entries-rest m found))

  more_pages :
      (fuel : ℕ) (token : Bytes) (found : List LogicalVolume) (b : ℕ) (t : Bytes)
      (rest : List LogicalVolume)
      → start bad token lvs ≡ ok found
      → rest_of m found ≡ rest
      → next_token rest ≡ b ∷ t
      → all_pages bad m lvs fuel (b ∷ t) ≡ some rest
      → all_pages bad m lvs (suc fuel) token ≡ some found
  unfolding all_pages page
  more_pages fuel token found b t rest s e n later =
      rw (all_pages, page, s, e, n, later)
        (ap some (ap (λ r. entries_of m found ++ r) (sym e) ∙ entries-rest m found))

  -- The token of a listed volume is not empty.
  token_of :
      (lv : LogicalVolume) (rest : List LogicalVolume)
      → IsListed lv
      → (b : ℕ) × (t : Bytes) × (next_token (lv ∷ rest) ≡ b ∷ t)
  unfolding next_token
  token_of lv rest l = go (id (ref_from_lv lv)) l.0
    where
      go : (token : Bytes) → volume_id_re token ≡ true → (b : ℕ) × (t : Bytes) × (token ≡ b ∷ t)
      go [] h = absurd (unfold volume_id_re in cc)
      go (b ∷ t) h = (b, t, refl)

  next-start :
      (token : Bytes) (found : List LogicalVolume) (lv : LogicalVolume) (rest : List LogicalVolume)
      → start bad token lvs ≡ ok found
      → rest_of m found ≡ lv ∷ rest
      → IsListed lv × (start bad (next_token (lv ∷ rest)) lvs ≡ ok (lv ∷ rest))
  unfolding next_token
  next-start token found lv rest s e =
      let (before, whole) = start-suffix bad token lvs found s in
      let split : (before ++ entries_of m found) ++ lv ∷ rest ≡ lvs =
        append_assoc before (entries_of m found) (lv ∷ rest)
        ∙ ap (λ r. before ++ (entries_of m found ++ r)) (sym e)
        ∙ ap (λ f. before ++ f) (entries-rest m found)
        ∙ whole in
      let is_listed =
        All-middle IsListed (before ++ entries_of m found) lv rest
          (subst (All IsListed) (sym split) listed) in
      (
        is_listed,
        subst (λ l. start bad (id (ref_from_lv lv)) l ≡ ok (lv ∷ rest)) split
            (start-at bad (before ++ entries_of m found) lv rest
              (subst IsDistinct (sym split) distinct) is_listed),
      )

  all_pages-start :
      (fuel : ℕ) (token : Bytes) (found rest : List LogicalVolume)
      → start bad token lvs ≡ ok found
      → rest_of m found ≡ rest
      → length found < fuel
      → all_pages bad m lvs fuel token ≡ some found
  all_pages-start zero token found rest s e enough = absurd (omega arith)
  all_pages-start (suc fuel) token found [] s e enough = last_page fuel token found s e
  all_pages-start (suc fuel) token found (lv ∷ rest) s e enough =
      let (is_listed, at) = next-start token found lv rest s e in
      let (b, t, token_is) = token_of lv rest is_listed in
      more_pages fuel token found b t (lv ∷ rest) s e token_is (
        all_pages-start fuel (b ∷ t) (lv ∷ rest) (rest_of m (lv ∷ rest))
          (ap (λ k. start bad k lvs) (sym token_is) ∙ at) refl
          (omega (arith, rest_of-shorter m found lv rest e)))

  -- A caller that asks for page after page, from no token on until there is no next one, and to which each
  -- call lists the same volumes, gets each of them once and in their order, whatever the size of the
  -- pages, and after at most one call more than there are volumes. The volumes have distinct names, and
  -- their ids are accepted and read back.
  pub all_pages-whole : all_pages bad m lvs (suc (length lvs)) [] ≡ some lvs
  unfolding start
  all_pages-whole =
      all_pages-start (suc (length lvs)) [] lvs (rest_of m lvs) refl refl (omega arith)
