-- ===== src/Persist/Directory.antt =====
-- The directory that `seal` of crates/veclite/src/persist/seal.rs builds.
use veclite.Base.{
  ℕ, zero, suc, ◌+◌, ◌*◌, ◌^◌, ◌≤◌, ◌<◌, ◌≡◌, refl, ap, ◌∙◌, String, true, ◌||◌, ◌==◌, Bool-cases,
  inl, inr, ◌⊎◌, some, List, [], ◌∷◌, map, arith, All, length, get_elem?, max, drop, leb, leb→le,
  length-replicate, get_elem?-lt, All-replicate, All_weaken, drop-suc,
}
use veclite.Error.{ok}
use veclite.Utf8.{as_bytes}
use veclite.Filter.{Numbers, Value}
use veclite.Filter.Postings.{Bitmaps}
use veclite.Storage.Iddir
use veclite.Storage.Iddir.{IdDir, entries, encode, decode}
use veclite.Storage.Iddir.RoundTrip.{EntryInRange, BucketInRange, decode-encode_dir}
use veclite.Persist.Seal.{
  Crates, LivePoint, double_up, next_power_of_two, bucket_count, insert_all, directory,
}
use veclite.Persist.Tables.{get_elem?-drop, drop_plus_one}
use veclite.Persist.Buckets.{has, has-insert, length-insert, Bounded, insert-Bounded, All-flatten}

double_up_le : (fuel p n m : ℕ) → p ≤ m → 2 * n ≤ m → double_up fuel p n ≤ m
unfolding double_up
double_up_le zero p n m h k = h
double_up_le (suc fuel) p n m h k = elim (Bool-cases (leb n p)) [
  | inl e ↦ rw (e) h
  | inr e ↦ rw (e) (double_up_le fuel (2 * p) n m (ground arith) k)
]

-- The fuel is enough: the loop ends at a power that is no smaller than its argument.
double_up_reaches : (fuel p n : ℕ) → 0 < p → n ≤ p + fuel → n ≤ double_up fuel p n
unfolding double_up
double_up_reaches zero p n l h = omega arith
double_up_reaches (suc fuel) p n l h = elim (Bool-cases (leb n p)) [
  | inl e ↦ rw (e) (leb→le n p e)
  | inr e ↦ rw (e) (double_up_reaches fuel (2 * p) n (omega arith) (omega arith))
]

bucket_count_range : (n : ℕ) → n < 2 ^ 31 → (0 < bucket_count n) × (bucket_count n < 2 ^ 32)
unfolding bucket_count next_power_of_two
bucket_count_range n h =
    let b = double_up_le n 1 n (2 * n + 1) (omega arith) (omega arith) in
    (omega arith, omega (arith, b))

length-map : {A B : Type 0} (f : A → B) (xs : List A) → length (map f xs) ≡ length xs
length-map f [] = refl
length-map f (x ∷ xs) = ap suc (length-map f xs)

new_positive : (n : ℕ) → 0 < length (Iddir.new n).buckets
unfolding Iddir.new
new_positive n = omega (arith, length-replicate {A = List (String × ℕ)} (max n 1) [])

-- What holds of every id with its slot.
abbrev Numbered : {A : Type 0} → (String × ℕ → Type 0) → (A → String) → ℕ → List A → Type 0
Numbered Q id slot [] = Unit
Numbered Q id slot (p ∷ ps) = Q (id p, slot) × Numbered Q id (slot + 1) ps

module _ {num : Numbers} {bits : Bitmaps} {F : Type 0} (crates : Crates num bits F) where
  open num use {Number}
  open crates use {xxh64}

  abbrev Points : Type 0
  Points = List (LivePoint F (Value Number))

  length-insert_all :
      (slot : ℕ) (ps : Points) (d : IdDir)
      → length (insert_all crates slot ps d).buckets ≡ length d.buckets
  unfolding insert_all
  length-insert_all slot [] d = refl
  length-insert_all slot (p ∷ ps) d =
      length-insert_all (slot + 1) ps (Iddir.insert xxh64 d (LivePoint.id p) slot)
      ∙ length-insert xxh64 d (LivePoint.id p) slot

  insert_all-Bounded :
      (Q : String × ℕ → Type 0) (n m slot : ℕ) (ps : Points) (d : IdDir)
      → m ≡ n + length ps
      → Bounded xxh64 Q n d
      → Numbered Q LivePoint.id slot ps
      → Bounded xxh64 Q m (insert_all crates slot ps d)
  unfolding insert_all
  insert_all-Bounded Q n m slot [] d e b q =
      All_weaken (λ x. (length x ≤ n) × All Q x) (λ x. (length x ≤ m) × All Q x)
        (λ x y. (omega arith, y.1)) d.buckets b
  insert_all-Bounded Q n m slot (p ∷ ps) d e b q =
      insert_all-Bounded Q (suc n) m (slot + 1) ps (Iddir.insert xxh64 d (LivePoint.id p) slot)
        (omega arith) (insert-Bounded xxh64 Q n d (LivePoint.id p) slot b (q.0)) (q.1)

  has-insert_all :
      (s slot : ℕ) (ps : Points) (d : IdDir)
      → 0 < length d.buckets
      → (has s (entries d) ≡ true) ⊎ ((slot ≤ s) × (s < slot + length ps))
      → has s (entries (insert_all crates slot ps d)) ≡ true
  unfolding insert_all
  has-insert_all s slot [] d l (inl h) = h
  has-insert_all s slot [] d l (inr h) = absurd (omega arith)
  has-insert_all s slot (p ∷ ps) d l h =
      let d' = Iddir.insert xxh64 d (LivePoint.id p) slot in
      let l' : 0 < length d'.buckets = omega (arith, length-insert xxh64 d (LivePoint.id p) slot) in
      let step = has-insert xxh64 s d (LivePoint.id p) slot l in
      has-insert_all s (slot + 1) ps d' l' (elim (Bool-cases (slot == s)) [
        | inl e ↦ inl (step ∙ ap (λ b. b || has s (entries d)) e)
        | inr e ↦ elim h [
          | inl old ↦ inl (step ∙ ap (λ b. b || has s (entries d)) e ∙ old)
          | inr range ↦ inr (ground arith)
        ]
      ])

  -- The ids of a directory, and where they stand.
  abbrev Placed : List String → String × ℕ → Type 0
  Placed names e = EntryInRange e × (get_elem? names (e.1) ≡ some (e.0))

  Numbered-Placed :
      (names : List String) (slot : ℕ) (ps : Points)
      → drop slot names ≡ map LivePoint.id ps
      → All (λ p. length (as_bytes (LivePoint.id p)) < 2 ^ 16) ps
      → length names < 2 ^ 31
      → Numbered (Placed names) LivePoint.id slot ps
  Numbered-Placed names slot [] h a l = tt
  Numbered-Placed names slot (p ∷ ps) h a l =
      let there : get_elem? names slot ≡ some (LivePoint.id p) = get_elem?-drop slot names h in
      (
        ((a.0, omega (arith, get_elem?-lt names slot there)), there),
        Numbered-Placed names (slot + 1) ps
            (drop_plus_one slot names
              ∙ drop-suc slot names (map LivePoint.id ps) (LivePoint.id p) h)
            (a.1) l,
      )

  module _ (live : Points) (few : length live < 2 ^ 31)
      (short : All (λ p. length (as_bytes (LivePoint.id p)) < 2 ^ 16) live) where
    abbrev names : List String
    names = map LivePoint.id live

    directory-Bounded : Bounded xxh64 (Placed names) (length live) (directory crates live)
    unfolding directory Iddir.new
    directory-Bounded =
        insert_all-Bounded (Placed names) 0 (length live) 0 live
          (Iddir.new (bucket_count (length live))) (omega arith)
          (All-replicate (λ b. (length b ≤ 0) × All (Placed names) b)
            (max (bucket_count (length live)) 1) [] (omega arith, tt))
          (Numbered-Placed names 0 live refl short (omega (arith, length-map LivePoint.id live)))

    length-directory : length (directory crates live).buckets ≡ max (bucket_count (length live)) 1
    unfolding directory Iddir.new
    length-directory =
        length-insert_all 0 live (Iddir.new (bucket_count (length live)))
        ∙ length-replicate (max (bucket_count (length live)) 1) []

    -- The bytes of the directory decode to it.
    pub decode-directory : decode (encode (directory crates live)) ≡ ok (directory crates live)
    decode-directory =
        let (p, l) = bucket_count_range (length live) few in
        decode-encode_dir (directory crates live) (omega (arith, length-directory))
          (omega (arith, length-directory))
          (All_weaken (λ b. (length b ≤ length live) × All (Placed names) b) BucketInRange
            (λ b x.
              (omega (arith, x.0), All_weaken (Placed names) EntryInRange (λ e y. y.0) b (x.1)))
            (directory crates live).buckets directory-Bounded)

    pub entries-Placed : All (Placed names) (entries (directory crates live))
    unfolding entries
    entries-Placed =
        All-flatten (Placed names) (length live) (directory crates live).buckets directory-Bounded

    pub entries_whole : (s : ℕ) → s < length live → has s (entries (directory crates live)) ≡ true
    unfolding directory
    entries_whole s l =
        has-insert_all s 0 live (Iddir.new (bucket_count (length live)))
          (new_positive (bucket_count (length live))) (inr (omega arith, omega arith))
