-- ===== src/Storage/Toc/Order.antt =====
-- The replay order of storage/toc.rs: `sort_replay_order` sorts, and keeps the segments.
use veclite.Base.{
  ℕ, ◌<◌, ◌≤◌, ◌⊎◌, ◌==◌, if◌then◌else◌, ap, sym, ◌∙◌, subst, All_weaken, ◌≡◌, true, false, List,
  [], ◌∷◌, inl, inr, All, arith, Bool-cases,
}
use mathlib.Core.List.{Perm}
use mathlib.Core.List.Perm
use veclite.Error.{VecLiteError, Result, ok, err, Result-cases}
use veclite.Storage.Segment.{
  SegmentType, config, vectors, tombstone, payload, pidx, sparse, hnsw, vocab, iddir, from_byte,
  replay_rank,
}
use veclite.Storage.Toc.{
  SegRef, CollEntry, replay_key, key_le, insert_by_key, sort_by_key, sort_replay_order,
}

-- The place of a type byte in the replay order of the format: CONFIG, IDDIR, VECTORS, TOMBSTONE,
-- PAYLOAD, PIDX, SPARSE, VOCAB, HNSW. Bytes that name no type have no place.
unfoldable pub place : ℕ → ℕ
place b =
    if b == 1
    then 0
    else if b == 2
    then 2
    else if b == 3
    then 3
    else if b == 4
    then 4
    else if b == 5
    then 5
    else if b == 6
    then 6
    else if b == 7
    then 8
    else if b == 8
    then 7
    else if b == 9
    then 1
    else 9

-- The type of the one comes first, or both are in one place and the one is not behind the other in
-- the file.
abbrev pub Precedes : SegRef → SegRef → Type 0
Precedes r s =
    (place r.seg_type < place s.seg_type)
    ⊎ ((place r.seg_type ≡ place s.seg_type) × (r.offset ≤ s.offset))

-- Each segment precedes all that follow it.
abbrev pub IsReplayOrder : List SegRef → Type 0
IsReplayOrder [] = Unit
IsReplayOrder (x ∷ xs) = All (Precedes x) xs × IsReplayOrder xs

-- The same, for the keys by which the code sorts.
abbrev IsSortedByKey : List SegRef → Type 0
IsSortedByKey [] = Unit
IsSortedByKey (x ∷ xs) =
    All (λ y. key_le (replay_key x) (replay_key y) ≡ true) xs × IsSortedByKey xs

abbrev Below : ℕ × ℕ → List SegRef → Type 0
Below k xs = All (λ y. key_le k (replay_key y) ≡ true) xs

key_le_trans : (a b c : ℕ × ℕ) → key_le a b ≡ true → key_le b c ≡ true → key_le a c ≡ true
key_le_trans a b c h k = ground arith

key_le_total : (a b : ℕ × ℕ) → key_le a b ≡ false → key_le b a ≡ true
key_le_total a b h = ground arith

Below-trans : (k l : ℕ × ℕ) (xs : List SegRef) → key_le k l ≡ true → Below l xs → Below k xs
Below-trans k l [] h b = tt
Below-trans k l (x ∷ xs) h (b, bs) = (key_le_trans k l (replay_key x) h b, Below-trans k l xs h bs)

Below-insert :
    (k : ℕ × ℕ) (r : SegRef) (xs : List SegRef)
    → key_le k (replay_key r) ≡ true
    → Below k xs
    → Below k (insert_by_key r xs)
unfolding insert_by_key
Below-insert k r [] h b = (h, tt)
Below-insert k r (x ∷ xs) h (b, bs) = elim (Bool-cases (key_le (replay_key r) (replay_key x))) [
  | inl before ↦ rw before (h, (b, bs))
  | inr after ↦ rw after (b, Below-insert k r xs h bs)
]

insert-IsSortedByKey :
    (r : SegRef) (xs : List SegRef) → IsSortedByKey xs → IsSortedByKey (insert_by_key r xs)
unfolding insert_by_key
insert-IsSortedByKey r [] o = (tt, tt)
insert-IsSortedByKey r (x ∷ xs) (o, os) = elim (Bool-cases (key_le (replay_key r) (replay_key x))) [
  | inl before ↦
      rw before ((before, Below-trans (replay_key r) (replay_key x) xs before o), (o, os))
  | inr after ↦ rw after (
    Below-insert (replay_key x) r xs (key_le_total (replay_key r) (replay_key x) after) o,
    insert-IsSortedByKey r xs os,
  )
]

insert-perm : (r : SegRef) (xs : List SegRef) → Perm (insert_by_key r xs) (r ∷ xs)
unfolding insert_by_key
insert-perm r [] = Perm.refl (r ∷ [])
insert-perm r (x ∷ xs) = elim (Bool-cases (key_le (replay_key r) (replay_key x))) [
  | inl before ↦ rw before (Perm.refl (r ∷ x ∷ xs))
  | inr after ↦ rw after (Perm.trans (Perm.cons x (insert-perm r xs)) (Perm.swap r x xs))
]

sort-IsSortedByKey : (xs : List SegRef) → IsSortedByKey (sort_by_key xs)
unfolding sort_by_key
sort-IsSortedByKey [] = tt
sort-IsSortedByKey (x ∷ xs) = insert-IsSortedByKey x (sort_by_key xs) (sort-IsSortedByKey xs)

sort-perm : (xs : List SegRef) → Perm (sort_by_key xs) xs
unfolding sort_by_key
sort-perm [] = Perm.refl []
sort-perm (x ∷ xs) = Perm.trans (insert-perm x (sort_by_key xs)) (Perm.cons x (sort-perm xs))

place_of : (b : ℕ) (t : SegmentType) → from_byte b ≡ ok t → place b ≡ replay_rank t
unfolding from_byte replay_rank place
place_of b t h = ground arith

no_place : (b : ℕ) (e : VecLiteError) → from_byte b ≡ err e → place b ≡ 9
unfolding from_byte place
no_place b e h = ground arith

rank_lt : (t : SegmentType) → replay_rank t < 9
unfolding replay_rank
rank_lt config = omega arith
rank_lt vectors = omega arith
rank_lt tombstone = omega arith
rank_lt payload = omega arith
rank_lt pidx = omega arith
rank_lt sparse = omega arith
rank_lt hnsw = omega arith
rank_lt vocab = omega arith
rank_lt iddir = omega arith

abbrev key_of : ℕ → Result SegmentType → ℕ × ℕ
key_of offset r = (elim r [ ok t ↦ replay_rank t | err e ↦ 255 ], offset)

-- The rank by which the code sorts: the place, or 255.
rank_place :
    (r : SegRef)
    → (replay_key r ≡ (place r.seg_type, r.offset)) × (place r.seg_type < 9)
      ⊎ (replay_key r ≡ (255, r.offset)) × (place r.seg_type ≡ 9)
unfolding replay_key
rank_place r = elim (Result-cases (from_byte r.seg_type)) [
  | inl (t, h) ↦
      let p = place_of r.seg_type t h in
      inl (ap (key_of r.offset) h ∙ ap (λ n. (n, r.offset)) (sym p), rw p (rank_lt t))
  | inr (e, h) ↦ inr (ap (key_of r.offset) h, no_place r.seg_type e h)
]

key_le-Precedes : (r s : SegRef) → key_le (replay_key r) (replay_key s) ≡ true → Precedes r s
key_le-Precedes r s h = elim (rank_place r) [
  | inl (a, l) ↦ elim (rank_place s) [
    | inl (b, m) ↦
        let k : key_le (place r.seg_type, r.offset) (place s.seg_type, s.offset) ≡ true =
          subst (λ x. key_le x (place s.seg_type, s.offset) ≡ true) a
            (subst (λ x. key_le (replay_key r) x ≡ true) b h) in
        ground arith
    | inr (b, m) ↦ inl (omega arith)
  ]
  | inr (a, l) ↦ elim (rank_place s) [
    | inl (b, m) ↦
        let k : key_le (255, r.offset) (place s.seg_type, s.offset) ≡ true =
          subst (λ x. key_le x (place s.seg_type, s.offset) ≡ true) a
            (subst (λ x. key_le (replay_key r) x ≡ true) b h) in
        ground arith
    | inr (b, m) ↦
        let k : key_le (255, r.offset) (255, s.offset) ≡ true =
          subst (λ x. key_le x (255, s.offset) ≡ true) a
            (subst (λ x. key_le (replay_key r) x ≡ true) b h) in
        ground arith
  ]
]

IsSortedByKey-IsReplayOrder : (xs : List SegRef) → IsSortedByKey xs → IsReplayOrder xs
IsSortedByKey-IsReplayOrder [] o = tt
IsSortedByKey-IsReplayOrder (x ∷ xs) (o, os) = (
  All_weaken _ (Precedes x) (λ y h. key_le-Precedes x y h) xs o,
  IsSortedByKey-IsReplayOrder xs os,
)

-- An entry whose segments were put into replay order lists the same segments: CONFIG, IDDIR, VECTORS,
-- TOMBSTONE, PAYLOAD, PIDX, SPARSE, VOCAB, HNSW and bytes of no type in this order, and those in one
-- place by rising offsets.
pub sort_replay_order_lem :
    (e : CollEntry)
    → IsReplayOrder (sort_replay_order e).live_segments
      × Perm (sort_replay_order e).live_segments e.live_segments
unfolding sort_replay_order
sort_replay_order_lem e =
    (IsSortedByKey-IsReplayOrder _ (sort-IsSortedByKey e.live_segments), sort-perm e.live_segments)
