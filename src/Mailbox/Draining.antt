-- ===== src/Mailbox/Draining.antt =====
-- The number of turns of the loop in Recv (pkg/diskrpc/mailbox.go).
use csi_sanlock_lvm.Base.{
  ℕ, zero, suc, ◌+◌, ◌-◌, ◌*◌, ◌%◌, ◌^◌, ◌≤◌, ◌<◌, ◌≡◌, ◌≢◌, ◌⊎◌, inl, inr, refl, sym, ap, ◌∙◌,
  subst, Bytes, leb, ltb, length, if◌then◌else◌, Bool, true, false, Bool-cases, Option, none, some,
  Result, ok, err, unknown, internal, arith,
}
use csi_sanlock_lvm.Base.Int.{ℤ, pos, negsuc, int32_of}
use csi_sanlock_lvm.Allocator.Heap.{Nodes, shl1, free_root}
use csi_sanlock_lvm.Allocator.Positions.{shl1_pos}
use csi_sanlock_lvm.Allocator.Tree.{Tree, whole, used, split, Represents, merge, give}
use csi_sanlock_lvm.Allocator.Root.{IsAllocator, RootFreed, root-length, free_root_lem}
use csi_sanlock_lvm.Mailbox.Device.{read_at, uint32}
use csi_sanlock_lvm.Mailbox.Header.{settle}
use csi_sanlock_lvm.Mailbox.Messages.{Codec, is_null, read_chunk, read_message, drain}

-- The number of allocated segments.
unfoldable pub used_count : Tree → ℕ
used_count whole = 0
used_count used = 1
used_count (split l r) = used_count l + used_count r

pub used_count_le :
    (d : ℕ) (t : Tree) (nodes : Nodes) (p : ℕ) → Represents d t nodes p → used_count t ≤ shl1 d
unfolding used_count shl1
used_count_le d whole nodes p h = omega arith
used_count_le d used nodes p h = shl1_pos d
used_count_le zero (split l r) nodes p h = absurd h
used_count_le (suc d) (split l r) nodes p (_, in_l, in_r) =
    omega (arith, used_count_le d l nodes _ in_l, used_count_le d r nodes _ in_r)

used_count-merge : (l r : Tree) → used_count (merge l r) ≡ used_count l + used_count r
unfolding used_count merge
used_count-merge whole whole = refl
used_count-merge whole used = refl
used_count-merge whole (split a b) = refl
used_count-merge used r = refl
used_count-merge (split a b) r = refl

abbrev OneLess : ℕ → Option Tree → Type 0
OneLess n none = Unit
OneLess n (some t) = n ≡ suc (used_count t)

OneLess-left :
    (n : ℕ) (r : Tree) (x : Option Tree)
    → OneLess n x
    → OneLess (n + used_count r) (elim x [ none ↦ none | some t ↦ some (merge t r) ])
OneLess-left n r none h = tt
OneLess-left n r (some t) h = omega (arith, h, used_count-merge t r)

OneLess-right :
    (n : ℕ) (l : Tree) (x : Option Tree)
    → OneLess n x
    → OneLess (used_count l + n) (elim x [ none ↦ none | some t ↦ some (merge l t) ])
OneLess-right n l none h = tt
OneLess-right n l (some t) h = omega (arith, h, used_count-merge l t)

-- Giving a segment back leaves one less.
give-used_count : (d : ℕ) (t : Tree) (o : ℕ) → OneLess (used_count t) (give d t o)
unfolding give used_count
give-used_count d whole o = tt
give-used_count d used zero = refl
give-used_count d used (suc o) = tt
give-used_count zero (split l r) o = tt
give-used_count (suc d) (split l r) o = elim (Bool-cases (ltb o (shl1 d))) [
  | inl low ↦ rw low (OneLess-left (used_count l) r (give d l o) (give-used_count d l o))
  | inr high ↦
      rw high
        (OneLess-right (used_count r) l (give d r (o - shl1 d)) (give-used_count d r (o - shl1 d)))
]

pub give-one_less :
    (d : ℕ) (t t' : Tree) (o : ℕ) → give d t o ≡ some t' → used_count t ≡ suc (used_count t')
give-one_less d t t' o e = subst (OneLess (used_count t)) e (give-used_count d t o)

-- Not the code of fuel that has run out.
abbrev Ends : {A : Type 0} → Result A → Type 0
Ends (err internal) = ⊥
Ends _ = Unit

Ends-same : {A : Type 0} (r : Result A) → Ends r → r ≢ err internal
Ends-same r h e = subst Ends e h

Ends-bind :
    {A B : Type 0} (r : Result A) (k : A → Result B)
    → Ends r
    → ((a : A) → r ≡ ok a → Ends (k a))
    → Ends (elim r [ err e ↦ err e | ok a ↦ k a ])
Ends-bind (ok a) k h next = next a refl
Ends-bind (err internal) k h next = absurd h
Ends-bind (err _) k h next = tt

Ends-choice : {A : Type 0} (b : Bool) (x y : Result A) → Ends x → Ends y → Ends (if b then x else y)
Ends-choice true x y hx hy = hx
Ends-choice false x y hx hy = hy

Ends-unless :
    {A : Type 0} (b : Bool) (a : A) (y : Result A)
    → (b ≡ false → Ends y)
    → Ends (elim b [ true ↦ ok a | false ↦ y ])
Ends-unless true a y h = tt
Ends-unless false a y h = h refl

Ends-some :
    {A B : Type 0} (o : Option A) (k : A → Result B)
    → ((a : A) → Ends (k a))
    → Ends (elim o [ none ↦ err unknown | some a ↦ k a ])
Ends-some none k h = tt
Ends-some (some a) k h = h a

Ends-known :
    {A B : Type 0} (r : Result A) (k : A → Result B)
    → ((r ≡ err unknown) ⊎ ((a : A) × (r ≡ ok a) × Ends (k a)))
    → Ends (elim r [ err e ↦ err e | ok a ↦ k a ])
Ends-known r k (inl e) = subst (λ r. Ends (elim r [ err e ↦ err e | ok a ↦ k a ])) (sym e) tt
Ends-known r k (inr (a, e, h)) = subst (λ r. Ends (elim r [ err e ↦ err e | ok a ↦ k a ])) (sym e) h

-- What the loop makes of Free: an error, or an allocator with one segment less.
abbrev FreedWell : ℕ → Tree → Nodes → ℕ → Type 0
FreedWell d t nodes a =
    (settle (free_root nodes (pos a)) ≡ err unknown)
    ⊎ ((freed : Unit {0} × Nodes) × (settle (free_root nodes (pos a)) ≡ ok freed)
        × (t' : Tree) × IsAllocator d t' freed.1
        × (used_count t ≡ suc (used_count t')))

FreedWell-root :
    (d : ℕ) (t : Tree) (nodes : Nodes) (a : ℕ) (x : Option Tree)
    → RootFreed d nodes a x
    → OneLess (used_count t) x
    → FreedWell d t nodes a
FreedWell-root d t nodes a none e h = inl (ap settle e)
FreedWell-root d t nodes a (some t') (result, e, v) h = inr ((tt, result), ap settle e, t', v, h)

read_at-Ends : (file : Bytes) (offset n : ℕ) → Ends (read_at file offset n)
unfolding read_at
read_at-Ends file offset n = Ends-choice (leb (offset + n) (length file)) _ _ tt tt

read_chunk-Ends :
    (addr : ℤ) (b_size len : ℕ) (file : Bytes) → Ends (read_chunk addr b_size len file)
unfolding read_chunk
read_chunk-Ends (negsuc n) b_size len file = tt
read_chunk-Ends (pos addr) b_size len file = read_at-Ends file (addr * b_size) len

address_of_pointer : (addr : ℕ) → is_null addr ≡ false → int32_of addr ≡ pos (addr % 2 ^ 32)
unfolding int32_of
address_of_pointer addr h = ground arith

module _ (directio_block_size : ℕ) (codec : Codec) (local_id : ℕ) where
  read_message-Ends :
      (b_size : ℕ) (addr : ℤ) (file : Bytes)
      → Ends (read_message directio_block_size codec local_id b_size addr file)
  unfolding read_message
  read_message-Ends b_size addr file =
      Ends-bind (read_chunk addr b_size b_size file) _ (read_chunk-Ends addr b_size b_size file)
        λ first _.
          Ends-choice (leb (uint32 first) (length first - 4)) _ _ tt
            (read_chunk-Ends addr b_size _ file)

  -- The rest of the loop after Free, by what it does to what Free leaves.
  after_free_lem :
      (fuel d : ℕ) (t : Tree) (nodes : Nodes) (b_size : ℕ) (file : Bytes) (addr next : ℕ)
      → IsAllocator d t nodes
      → int32_of addr ≡ pos (addr % 2 ^ 32)
      → addr % 2 ^ 32 < 2 ^ 31
      → used_count t < suc fuel
      → ((t' : Tree) (rest : Nodes) (next : ℕ)
          → IsAllocator d t' rest
          → used_count t' < fuel
          → Ends (drain directio_block_size codec local_id fuel b_size file next rest))
      → (settle (free_root nodes (int32_of addr)) ≡ err unknown)
        ⊎ ((freed : Unit {0} × Nodes) × (settle (free_root nodes (int32_of addr)) ≡ ok freed)
            × Ends (drain directio_block_size codec local_id fuel b_size file next freed.1))
  after_free_lem fuel d t nodes b_size file addr next v same small enough ends =
      elim (FreedWell-root d t nodes (addr % 2 ^ 32) (give d t (addr % 2 ^ 32))
        (free_root_lem d t nodes (addr % 2 ^ 32) v small) (give-used_count d t (addr % 2 ^ 32))) [
          | inl failed ↦ inl (ap (λ a. settle (free_root nodes a)) same ∙ failed)
          | inr (freed, e, t', v', less) ↦ inr (
            freed,
            ap (λ a. settle (free_root nodes a)) same ∙ e,
            ends t' freed.1 next v' (omega arith),
          )
        ]

  drain-Ends :
      (fuel d : ℕ) (t : Tree) (nodes : Nodes) (b_size : ℕ) (file : Bytes) (addr : ℕ)
      → IsAllocator d t nodes
      → used_count t < fuel
      → Ends (drain directio_block_size codec local_id fuel b_size file addr nodes)
  unfolding drain
  drain-Ends zero d t nodes b_size file addr v enough = absurd (omega arith)
  drain-Ends (suc fuel) d t nodes b_size file addr v enough = Ends-unless (is_null addr) _ _ λ more.
      Ends-bind (read_message directio_block_size codec local_id b_size (int32_of addr) file) _
        (read_message-Ends b_size (int32_of addr) file)
        λ buf _. Ends-some (codec.unmarshal buf) _ λ m.
          Ends-known (settle (free_root nodes (int32_of addr))) _
            (elim (after_free_lem fuel d t nodes b_size file addr m.next v
              (address_of_pointer addr more) (ground arith) enough
              λ t' rest next. drain-Ends fuel d t' rest b_size file next) [
                | inl e ↦ inl e
                | inr (freed, e, h) ↦ inr (freed, e, Ends-bind _ _ h λ _ _. tt)
              ])

  -- The loop of Recv ends: on a well-formed allocator of 2 ^ `d` blocks, whatever the file holds and whatever
  -- the messages' pointers are, the fuel of `Recv` is not used up and no step panics, since each turn gives
  -- one allocated segment back or fails.
  pub drain-ends :
      (d : ℕ) (t : Tree) (nodes : Nodes) (b_size : ℕ) (file : Bytes) (addr : ℕ)
      → IsAllocator d t nodes
      → drain directio_block_size codec local_id (suc (length nodes)) b_size file addr nodes
        ≢ err internal
  drain-ends d t nodes b_size file addr v = Ends-same _ (
      drain-Ends (suc (length nodes)) d t nodes b_size file addr v
        (omega (arith, used_count_le d t nodes 0 v.represents, root-length v.place)))
