-- ===== src/Mailbox/Torn.antt =====
-- What is read after a write of the state that was cut short, once and twice.
use csi_sanlock_lvm.Base.{
  ℕ, ◌+◌, ◌-◌, ◌*◌, ◌≤◌, ◌≡◌, ◌⊎◌, inl, inr, refl, sym, ap, ◌∙◌, [], ◌∷◌, ◌++◌, Bytes, bytes_eq,
  bytes_eq_iff, bytes_eq_refl, take, drop, length, length-append, drop-append, leb, ◌==◌,
  if◌then◌else◌, true, Bool-cases, arith, ok, le→leb,
}
use csi_sanlock_lvm.Mailbox.Device.{
  read_at, write_at, overwrite, take-append, length-drop, length-overwrite, overwrite-front,
  drop-overwrite,
}
use csi_sanlock_lvm.Mailbox.Layout.{choose, read_state, write_state}
use csi_sanlock_lvm.Mailbox.State.{
  thrice, mixed, torn, choose-parts, torn-first, torn-second, torn-third, overwrite-left,
  overwrite-append, length-take_le,
}

module _ (a b c new : Bytes) (n : ℕ) (ha : length a ≡ n) (hb : length b ≡ n) (hc : length c ≡ n)
    (hn : length new ≡ n) where
  choose-first :
      (k : ℕ)
      → k ≤ n
      → choose n (torn a b c new k) ≡ (if bytes_eq (mixed a new k) b then mixed a new k else c)
  choose-first k h =
      ap (choose n) (torn-first a b c new n ha hb hc hn k h)
      ∙ choose-parts (mixed a new k) b c n (length-overwrite a 0 (take k new) ∙ ha) hb hc

  choose-second :
      (j : ℕ)
      → j ≤ n
      → choose n (torn a b c new (n + j)) ≡ (if bytes_eq new (mixed b new j) then new else c)
  choose-second j h =
      ap (choose n) (torn-second a b c new n ha hb hc hn j h)
      ∙ choose-parts new (mixed b new j) c n hn (length-overwrite b 0 (take j new) ∙ hb) hc

  choose-third : (j : ℕ) → choose n (torn a b c new (n + (n + j))) ≡ new
  choose-third j =
      ap (choose n) (torn-third a b c new n ha hb hc hn j)
      ∙ choose-parts new new (mixed c new j) n hn hn (length-overwrite c 0 (take j new) ∙ hc)
      ∙ rw (bytes_eq_refl new) refl

pub read_at-fits :
    (file : Bytes) (offset n : ℕ)
    → offset + n ≤ length file
    → read_at file offset n ≡ ok (take n (drop offset file))
unfolding read_at
read_at-fits file offset n fits = rw (le→leb _ _ fits) refl

read_state-choose :
    (b n : ℕ) (file : Bytes)
    → b + 3 * n ≤ length file
    → read_state b n file ≡ ok (choose n (take (3 * n) (drop b file)))
unfolding read_state
read_state-choose b n file fits = rw (read_state, read_at-fits file b (3 * n) fits) refl

overwrite-behind :
    (head s buf : Bytes) → overwrite (head ++ s) (length head) buf ≡ head ++ overwrite s 0 buf
unfolding overwrite
overwrite-behind [] s buf = refl
overwrite-behind (c ∷ head) s buf = ap (λ r. c ∷ r) (overwrite-behind head s buf)

-- What a write behind the header changes.
overwrite-region :
    (head region rest buf : Bytes)
    → length buf ≤ length region
    → overwrite (head ++ (region ++ rest)) (length head) buf
      ≡ head ++ (overwrite region 0 buf ++ rest)
overwrite-region head region rest buf h =
    overwrite-behind head (region ++ rest) buf
    ∙ ap (λ r. head ++ r) (overwrite-left region rest buf h)

-- Reading the copies that stand behind the header.
read_state-region :
    (head region rest : Bytes) (n : ℕ)
    → length region ≡ 3 * n
    → read_state (length head) n (head ++ (region ++ rest)) ≡ ok (choose n region)
read_state-region head region rest n hr =
    read_state-choose (length head) n _ enough ∙ ap (λ r. ok (choose n r)) reads
  where
    enough : length head + 3 * n ≤ length (head ++ (region ++ rest))
    enough = rw (length-append head (region ++ rest), length-append region rest) (omega arith)

    reads : take (3 * n) (drop (length head) (head ++ (region ++ rest))) ≡ region
    reads =
        ap (take (3 * n)) (drop-append head (region ++ rest))
        ∙ ap (λ k. take k (region ++ rest)) (sym hr)
        ∙ take-append region rest

pub write_at-fits :
    (offset : ℕ) (buf file : Bytes)
    → offset + length buf ≤ length file
    → write_at offset buf file ≡ (ok tt, overwrite file offset buf)
unfolding write_at
write_at-fits offset buf file fits = rw (le→leb _ _ fits) refl

-- The write of a state that fits is one write of three copies.
pub write_state-overwrite :
    (b n : ℕ) (state file : Bytes)
    → length state ≡ n
    → b + 3 * n ≤ length file
    → write_state b n state file ≡ (ok tt, overwrite file b (thrice state))
unfolding write_state
write_state-overwrite b n state file hs fits =
    rw
      (
        hs,
        n-same,
        write_at-fits b state file (omega arith),
        write_at-fits (b + n) state one fits_two,
        write_at-fits (b + 2 * n) state two fits_three,
      )
      (ap (λ r. (ok tt, r)) (sym joined))
  where
    n-same : (n == n) ≡ true
    n-same = ground arith

    one : Bytes
    one = overwrite file b state

    two : Bytes
    two = overwrite one (b + n) state

    fits_two : b + n + length state ≤ length one
    fits_two = rw (length-overwrite file b state) (omega arith)

    fits_three : b + 2 * n + length state ≤ length two
    fits_three =
        rw (length-overwrite one (b + n) state, length-overwrite file b state) (omega arith)

    joined : overwrite file b (thrice state) ≡ overwrite two (b + 2 * n) state
    joined =
        overwrite-append file b state (state ++ state)
        ∙ ap (λ k. overwrite one (b + k) (state ++ state)) hs
        ∙ overwrite-append one (b + n) state state
        ∙ ap (λ k. overwrite two k state) (omega arith)

choose-torn :
    (old new : Bytes) (n k : ℕ)
    → length old ≡ n
    → length new ≡ n
    → (choose n (torn old old old new k) ≡ old) ⊎ (choose n (torn old old old new k) ≡ new)
choose-torn old new n k ho hn = elim (Bool-cases (leb k n)) [
  | inl low ↦ inl (
      choose-first old old old new n ho ho ho hn k (ground arith)
      ∙ ground (arith, bytes_eq_iff (mixed old new k) old))
  | inr high ↦ elim (Bool-cases (leb k (2 * n))) [
    | inl mid ↦
        let j = k - n in
        let e : k ≡ n + j = ground arith in
        let two =
          ap (λ m. choose n (torn old old old new m)) e
          ∙ choose-second old old old new n ho ho ho hn j (ground arith) in
        elim (Bool-cases (bytes_eq new (mixed old new j))) [
          | inl same ↦ inr (two ∙ rw same refl)
          | inr differ ↦ inl (two ∙ rw differ refl)
        ]
    | inr late ↦
        let j = k - 2 * n in
        let e : k ≡ n + (n + j) = ground arith in
        inr (
          ap (λ m. choose n (torn old old old new m)) e
          ∙ choose-third old old old new n ho ho ho hn j)
  ]
]

pub length-thrice : (s : Bytes) (n : ℕ) → length s ≡ n → length (thrice s) ≡ 3 * n
length-thrice s n h =
    length-append s (s ++ s) ∙ ap (λ k. length s + k) (length-append s s) ∙ omega arith

-- A write of the state over three equal copies that is cut short after any number `k` of bytes is atomic:
-- the next reader gets the old state or the new one, whole.
pub read_state-torn :
    (head rest old new : Bytes) (n k : ℕ)
    → length old ≡ n
    → length new ≡ n
    → k ≤ 3 * n
    → let file = overwrite (head ++ (thrice old ++ rest)) (length head) (take k (thrice new)) in
      (read_state (length head) n file ≡ ok old) ⊎ (read_state (length head) n file ≡ ok new)
read_state-torn head rest old new n k ho hn hk =
    let region = overwrite (thrice old) 0 (take k (thrice new)) in
    let fits : length (take k (thrice new)) ≤ length (thrice old) =
      omega (arith, length-take_le k (thrice new), length-thrice old n ho) in
    let reads =
      ap (read_state (length head) n)
        (overwrite-region head (thrice old) rest (take k (thrice new)) fits)
      ∙ read_state-region head region rest n
          (length-overwrite (thrice old) 0 (take k (thrice new)) ∙ length-thrice old n ho) in
    elim (choose-torn old new n k ho hn) [
      | inl e ↦ inl (reads ∙ ap ok e)
      | inr e ↦ inr (reads ∙ ap ok e)
    ]

-- A state that has been written, with room for its three copies behind the header, is the one read next.
read_state-write_state :
    (b n : ℕ) (state file : Bytes)
    → length state ≡ n
    → b + 3 * n ≤ length file
    → let (outcome, after) = write_state b n state file in
      (outcome ≡ ok tt) × (read_state b n after ≡ ok state)
read_state-write_state b n state file hs fits =
    let e = write_state-overwrite b n state file hs fits in
    (ap (λ r. r.0) e, ap (λ r. read_state b n r.1) e ∙ reads)
  where
    behind :
        drop b (overwrite file b (thrice state))
        ≡ thrice state ++ drop (length (thrice state)) (drop b file)
    behind =
        drop-overwrite file b b (thrice state) (omega arith)
        ∙ ap (λ k. overwrite (drop b file) k (thrice state)) (omega arith)
        ∙ overwrite-front (drop b file) (thrice state)
            (omega (arith, length-thrice state n hs, length-drop b file))

    reads : read_state b n (overwrite file b (thrice state)) ≡ ok state
    reads =
        read_state-choose b n _ (rw (length-overwrite file b (thrice state)) fits)
        ∙ ap (λ r. ok (choose n r))
            (ap (take (3 * n)) behind
              ∙ ap (λ k. take k (thrice state ++ drop (length (thrice state)) (drop b file)))
                  (sym (length-thrice state n hs))
              ∙ take-append (thrice state) (drop (length (thrice state)) (drop b file)))
        ∙ ap ok (choose-parts state state state n hs hs hs ∙ rw (bytes_eq_refl state) refl)

-- So the state is read from where its copies stand.
pub read_state-overwrite :
    (b n : ℕ) (state file : Bytes)
    → length state ≡ n
    → b + 3 * n ≤ length file
    → read_state b n (overwrite file b (thrice state)) ≡ ok state
read_state-overwrite b n state file hs fits =
    ap (λ r. read_state b n r.1) (sym (write_state-overwrite b n state file hs fits))
    ∙ (read_state-write_state b n state file hs fits).1
