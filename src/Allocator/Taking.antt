-- ===== src/Allocator/Taking.antt =====
-- `alloc` on the array is `take` on the tree.
use csi_sanlock_lvm.Base.{
  ℕ, zero, suc, ◌+◌, ◌-◌, ◌≤◌, ◌<◌, ◌^◌, ◌≡◌, ap, ◌∙◌, Option, some, get_elem?, set,
  get_elem?-set_self, get_elem?-ge, arith, length, ltb, leb, true, false, Bool-cases, inl, inr,
  leb→le, le→leb, lt→ltb, Result, ok, err, unknown,
}
use csi_sanlock_lvm.Base.Int.{ℤ, pos, negsuc, ltb_ℤ, leb_ℤ, int32, int32_negsuc}
use csi_sanlock_lvm.Allocator.Heap.{
  Nodes, shl1, left, right, neg, address, lacks_room, alloc, after_alloc,
}
use csi_sanlock_lvm.Allocator.Positions.{
  Place, Place-left, Place-right, Place-leaf, Place-lt, segment-lt, address_lem, shl1_pos,
}
use csi_sanlock_lvm.Allocator.Tree.{Tree, whole, used, split, larger, room, value, Represents, take}
use csi_sanlock_lvm.Allocator.Frame.{
  Changes, Represents-value, set-Changes, Represents-set_left, Represents-set_right,
  Represents-beside_left, Represents-beside_right, Changes-left, Changes-right, refresh-split,
  Represents-split,
}

module _ (f : ℕ) (nodes : Nodes) (p : ℕ) (n : ℕ) (v : ℤ) (pos_n : 0 < n)
    (at : get_elem? nodes p ≡ some v) where
  alloc_refused : ltb_ℤ v (pos n) ≡ true → alloc (suc f) nodes p (pos n) ≡ some (err unknown, nodes)
  unfolding alloc
  alloc_refused h = ground arith

  alloc_here :
      ltb_ℤ v (pos n) ≡ false
      → lacks_room nodes (left p) (pos n) ≡ true
      → lacks_room nodes (right p) (pos n) ≡ true
      → alloc (suc f) nodes p (pos n) ≡ some (ok (address nodes p).0, set nodes p (int32 (neg v)))
  unfolding alloc
  alloc_here h hl hr = ground arith

  alloc_left :
      (l : ℤ)
      → ltb_ℤ v (pos n) ≡ false
      → get_elem? nodes (left p) ≡ some l
      → leb_ℤ (pos n) l ≡ true
      → alloc (suc f) nodes p (pos n) ≡ after_alloc p (alloc f nodes (left p) (pos n))
  unfolding alloc lacks_room
  alloc_left l h e fits = ground arith

  alloc_right :
      (l r : ℤ)
      → ltb_ℤ v (pos n) ≡ false
      → get_elem? nodes (left p) ≡ some l
      → leb_ℤ (pos n) l ≡ false
      → get_elem? nodes (right p) ≡ some r
      → leb_ℤ (pos n) r ≡ true
      → alloc (suc f) nodes p (pos n) ≡ after_alloc p (alloc f nodes (right p) (pos n))
  unfolding alloc lacks_room
  alloc_right l r h e no_fit e' fits = ground arith

-- The tests of the code on a node are tests on the room of its tree.
value-lacks : (d : ℕ) (t : Tree) (n : ℕ) → 0 < n → ltb_ℤ (value d t) (pos n) ≡ ltb (room d t) n
unfolding room
value-lacks d whole n h = ground arith
value-lacks d used n h = ground arith
value-lacks d (split l r) n h = ground arith

value-fits : (d : ℕ) (t : Tree) (n : ℕ) → 0 < n → leb_ℤ (pos n) (value d t) ≡ leb n (room d t)
unfolding room
value-fits d whole n h = ground arith
value-fits d used n h = ground arith
value-fits d (split l r) n h = ground arith

module _ (f d : ℕ) (t : Tree) (nodes : Nodes) (p n : ℕ) (pos_n : 0 < n)
    (h : Represents d t nodes p) where
  -- Too little room is an error that changes nothing.
  pub alloc-no_room : room d t < n → alloc (suc f) nodes p (pos n) ≡ some (err unknown, nodes)
  alloc-no_room few =
      alloc_refused f nodes p n (value d t) pos_n (Represents-value d t nodes p h)
        (value-lacks d t n pos_n ∙ ground arith)

-- A successful call: its address, the tree after it, and the array after it.
pub record Taken (f d : ℕ) (t : Tree) (nodes : Nodes) (p base n : ℕ) : Type 0 where
  pub offset : ℕ
  pub tree : Tree
  pub result : Nodes
  pub taken : take d t n ≡ some (offset, tree)
  pub returns : alloc f nodes p (pos n) ≡ some (ok (pos (base + offset)), result)
  pub represents : Represents d tree result p
  pub changes : Changes nodes result p

Represents-used :
    (d : ℕ) (nodes : Nodes) (p : ℕ)
    → p < length nodes
    → Represents d whole nodes p
    → Represents d used (set nodes p (negsuc (shl1 d - 1))) p
unfolding shl1
Represents-used zero nodes p lt h = get_elem?-set_self nodes p _ lt
Represents-used (suc d) nodes p lt (h, hl, hr) = (
  get_elem?-set_self nodes p _ lt,
  Represents-set_left nodes p _ d whole hl,
  Represents-set_right nodes p _ d whole hr,
)

negated : (s : ℕ) → 1 ≤ s → s < 2 ^ 31 → int32 (neg (pos s)) ≡ negsuc (s - 1)
negated s low high = ground (arith, int32_negsuc (s - 1))

-- The whole segment is taken.
take_here :
    (f d : ℕ) (nodes : Nodes) (p base n : ℕ)
    → 0 < n
    → n ≤ shl1 d
    → take d whole n ≡ some (0, used)
    → lacks_room nodes (left p) (pos n) ≡ true
    → lacks_room nodes (right p) (pos n) ≡ true
    → Place (length nodes) d p base
    → Represents d whole nodes p
    → Taken (suc f) d whole nodes p base n
take_here f d nodes p base n pos_n fits spec hl hr w h = record {
  offset = 0;
  tree = used;
  result = set nodes p (negsuc (shl1 d - 1));
  taken = spec;
  returns =
      alloc_here f nodes p n (pos (shl1 d)) pos_n (Represents-value d whole nodes p h)
        (ground arith) hl hr
      ∙ rw (address_lem nodes w, negated (shl1 d) (shl1_pos d) (omega (arith, segment-lt w)))
          (ap (λ b. some (ok (pos b), set nodes p (negsuc (shl1 d - 1)))) (omega arith));
  represents = Represents-used d nodes p (Place-lt w) h;
  changes = set-Changes nodes p _;
}

after_alloc_lem :
    (d : ℕ) (l r : Tree) (a : Nodes) (p : ℕ) (v : ℤ) (o : Option (Result ℤ × Nodes))
    → o ≡ some (ok v, a)
    → Represents d l a (left p)
    → Represents d r a (right p)
    → after_alloc p o ≡ some (ok v, set a p (pos (larger (room d l) (room d r))))
after_alloc_lem d l r a p v o e hl hr = rw (e, after_alloc, refresh-split d l r a p hl hr)

module _ (f d : ℕ) (t l r : Tree) (nodes : Nodes) (p base n : ℕ) (lt : p < length nodes) where
  take_left :
      (ih : Taken f d l nodes (left p) base n)
      → alloc (suc f) nodes p (pos n) ≡ after_alloc p (alloc f nodes (left p) (pos n))
      → take (suc d) t n ≡ some (ih.offset, split ih.tree r)
      → Represents d r nodes (right p)
      → Taken (suc f) (suc d) t nodes p base n
  take_left ih step spec hr =
      let beside = Represents-beside_left nodes ih.result p d r ih.changes hr in
      record {
        offset = ih.offset;
        tree = split ih.tree r;
        result = set ih.result p (pos (larger (room d ih.tree) (room d r)));
        taken = spec;
        returns =
            step ∙ after_alloc_lem d ih.tree r ih.result p _ _ ih.returns ih.represents beside;
        represents =
            Represents-split d ih.tree r ih.result p (omega (arith, ih.changes.same_length))
              ih.represents beside;
        changes = Changes-left nodes ih.result p _ ih.changes;
      }

  take_right :
      (ih : Taken f d r nodes (right p) (base + shl1 d) n)
      → alloc (suc f) nodes p (pos n) ≡ after_alloc p (alloc f nodes (right p) (pos n))
      → take (suc d) t n ≡ some (shl1 d + ih.offset, split l ih.tree)
      → Represents d l nodes (left p)
      → Taken (suc f) (suc d) t nodes p base n
  take_right ih step spec hl =
      let beside = Represents-beside_right nodes ih.result p d l ih.changes hl in
      record {
        offset = shl1 d + ih.offset;
        tree = split l ih.tree;
        result = set ih.result p (pos (larger (room d l) (room d ih.tree)));
        taken = spec;
        returns =
            step
            ∙ after_alloc_lem d l ih.tree ih.result p _ _ ih.returns beside ih.represents
            ∙ ap
                (λ b. some (ok (pos b), set ih.result p (pos (larger (room d l) (room d ih.tree)))))
                (omega arith);
        represents =
            Represents-split d l ih.tree ih.result p (omega (arith, ih.changes.same_length)) beside
              ih.represents;
        changes = Changes-right nodes ih.result p _ ih.changes;
      }

lacks_room-none : (nodes : Nodes) (i : ℕ) (s : ℤ) → length nodes ≤ i → lacks_room nodes i s ≡ true
unfolding lacks_room
lacks_room-none nodes i s h = rw (lacks_room, get_elem?-ge nodes i h)

lacks_room-small :
    (d : ℕ) (t : Tree) (nodes : Nodes) (i n : ℕ)
    → 0 < n
    → room d t < n
    → Represents d t nodes i
    → lacks_room nodes i (pos n) ≡ true
unfolding lacks_room
lacks_room-small d t nodes i n pos_n few h =
    rw (lacks_room, Represents-value d t nodes i h, value-lacks d t n pos_n)
      (lt→ltb (room d t) n few)

module _ (d n o : ℕ) (t : Tree) where
  take-halved :
      leb n (shl1 d) ≡ true
      → take d whole n ≡ some (o, t)
      → take (suc d) whole n ≡ some (o, split t whole)
  unfolding take
  take-halved fits e = rw (take, fits, e)

  take-split_left :
      (l r : Tree)
      → leb n (room d l) ≡ true
      → take d l n ≡ some (o, t)
      → take (suc d) (split l r) n ≡ some (o, split t r)
  unfolding take
  take-split_left l r fits e = rw (take, fits, e)

  take-split_right :
      (l r : Tree)
      → leb n (room d l) ≡ false
      → take d r n ≡ some (o, t)
      → take (suc d) (split l r) n ≡ some (shl1 d + o, split l t)
  unfolding take
  take-split_right l r few e = rw (take, few, e)

-- With enough room the call on the array succeeds as `take` does on the tree.
pub alloc-take :
    (f d : ℕ) (t : Tree) (nodes : Nodes) (p base n : ℕ)
    → d < f
    → 0 < n
    → n ≤ room d t
    → Place (length nodes) d p base
    → Represents d t nodes p
    → Taken f d t nodes p base n
alloc-take zero d t nodes p base n hf pos_n fits w h = absurd (omega arith)
alloc-take (suc f) zero whole nodes p base n hf pos_n fits w h =
    take_here f zero nodes p base n pos_n (unfold room in fits)
      (unfold take room shl1 in ground arith) (lacks_room-none nodes (left p) _ (Place-leaf w))
      (lacks_room-none nodes (right p) _ (omega (arith, Place-leaf w))) w h
alloc-take (suc f) zero used nodes p base n hf pos_n fits w h = absurd (unfold room in omega arith)
alloc-take (suc f) zero (split l r) nodes p base n hf pos_n fits w h = absurd h
alloc-take (suc f) (suc d) whole nodes p base n hf pos_n fits w (h, hl, hr) =
    elim (Bool-cases (leb n (shl1 d))) [
      | inl small ↦
          let ih =
            alloc-take f d whole nodes (left p) base n (omega arith) pos_n
              (unfold room in leb→le n (shl1 d) small) (Place-left w) hl in
          take_left f d whole whole whole nodes p base n (Place-lt w) ih
            (alloc_left f nodes p n (pos (shl1 (suc d))) pos_n h (pos (shl1 d))
              (unfold room in ground arith) (Represents-value d whole nodes (left p) hl)
              (ground arith))
            (take-halved d n ih.offset ih.tree small ih.taken) hr
      | inr large ↦
          take_here f (suc d) nodes p base n pos_n (unfold room in fits)
            (unfold take room in ground arith)
            (lacks_room-small d whole nodes (left p) n pos_n (unfold room in ground arith) hl)
            (lacks_room-small d whole nodes (right p) n pos_n (unfold room in ground arith) hr) w
            (h, hl, hr)
    ]
alloc-take (suc f) (suc d) used nodes p base n hf pos_n fits w h =
    absurd (unfold room in omega arith)
alloc-take (suc f) (suc d) (split l r) nodes p base n hf pos_n fits w (h, hl, hr) =
    elim (Bool-cases (leb n (room d l))) [
      | inl small ↦
          let ih =
            alloc-take f d l nodes (left p) base n (omega arith) pos_n (leb→le n (room d l) small)
              (Place-left w) hl in
          take_left f d (split l r) l r nodes p base n (Place-lt w) ih
            (alloc_left f nodes p n _ pos_n h (value d l) (unfold room in ground arith)
              (Represents-value d l nodes (left p) hl) (value-fits d l n pos_n ∙ small))
            (take-split_left d n ih.offset ih.tree l r small ih.taken) hr
      | inr large ↦
          let room_r : n ≤ room d r = unfold room in ground arith in
          let ih =
            alloc-take f d r nodes (right p) (base + shl1 d) n (omega arith) pos_n room_r
              (Place-right w) hr in
          take_right f d (split l r) l r nodes p base n (Place-lt w) ih
            (alloc_right f nodes p n _ pos_n h (value d l) (value d r) (unfold room in ground arith)
              (Represents-value d l nodes (left p) hl) (value-fits d l n pos_n ∙ large)
              (Represents-value d r nodes (right p) hr)
              (value-fits d r n pos_n ∙ le→leb n (room d r) room_r))
            (take-split_right d n ih.offset ih.tree l r large ih.taken) hl
    ]
