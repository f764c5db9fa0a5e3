-- ===== src/Storage/Iddir/Lookup.antt =====
-- The id directory of storage/iddir.rs as a map from ids to slots.
use veclite.Base.{
  ℕ, zero, suc, ◌%◌, ◌<◌, ◌≡◌, ◌≢◌, refl, sym, ap, ◌∙◌, String, false, ◌==◌, Bool-cases, inl, inr,
  none, some, List, [], ◌∷◌, ◌++◌, arith, length, get_or, set, same, same-eq, same_refl,
  if◌then◌else◌, ==_iff, length-set, Bytes,
}
use veclite.Utf8.{as_bytes}
use veclite.Storage.Iddir.{IdDir, find, bucket_of, insert, get}

module _ {A : Type 0} where
  pub get_or-set : (xs : List A) (i : ℕ) (v d : A) → i < length xs → get_or (set xs i v) i d ≡ v
  get_or-set [] i v d h = absurd (omega arith)
  get_or-set (x ∷ xs) zero v d h = refl
  get_or-set (x ∷ xs) (suc i) v d h = get_or-set xs i v d (omega arith)

  pub get_or-set_ne :
      (xs : List A) (i j : ℕ) (v d : A) → j ≢ i → get_or (set xs i v) j d ≡ get_or xs j d
  get_or-set_ne [] i j v d h = refl
  get_or-set_ne (x ∷ xs) zero zero v d h = absurd (h refl)
  get_or-set_ne (x ∷ xs) zero (suc j) v d h = refl
  get_or-set_ne (x ∷ xs) (suc i) zero v d h = refl
  get_or-set_ne (x ∷ xs) (suc i) (suc j) v d h = get_or-set_ne xs i j v d (λ e. h (ap suc e))

find-append_new :
    (id : String) (slot : ℕ) (b : List (String × ℕ))
    → find id b ≡ none
    → find id (b ++ (id, slot) ∷ []) ≡ some slot
unfolding find
find-append_new id slot [] h = rw (same_refl id) refl
find-append_new id slot ((k, s) ∷ b) h = ground (arith, find-append_new id slot b)

find-append_other :
    (id x : String) (slot : ℕ) (b : List (String × ℕ))
    → same id x ≡ false
    → find x (b ++ (id, slot) ∷ []) ≡ find x b
unfolding find
find-append_other id x slot [] h = rw (h) refl
find-append_other id x slot ((k, s) ∷ b) h =
    ap (λ r. if same k x then some s else r) (find-append_other id x slot b h)

module _ (xxh64 : Bytes → ℕ) where
  bucket_lt :
      (d : IdDir) (id : String) → 0 < length d.buckets → bucket_of xxh64 d id < length d.buckets
  unfolding bucket_of
  bucket_lt d id p = grind arith

  -- The insertion keeps the number of buckets, so an id keeps its bucket.
  bucket_of-insert :
      (d : IdDir) (id x : String) (slot : ℕ)
      → bucket_of xxh64 (insert xxh64 d id slot) x ≡ bucket_of xxh64 d x
  unfolding insert bucket_of
  bucket_of-insert d id x slot =
      ap (λ n. xxh64 (as_bytes x) % n)
        (length-set d.buckets (bucket_of xxh64 d id)
          (get_or d.buckets (bucket_of xxh64 d id) [] ++ (id, slot) ∷ []))

  bucket-insert :
      (d : IdDir) (id : String) (slot : ℕ)
      → 0 < length d.buckets
      → get_or (insert xxh64 d id slot).buckets (bucket_of xxh64 d id) []
        ≡ get_or d.buckets (bucket_of xxh64 d id) [] ++ (id, slot) ∷ []
  unfolding insert
  bucket-insert d id slot p =
      get_or-set d.buckets (bucket_of xxh64 d id)
        (get_or d.buckets (bucket_of xxh64 d id) [] ++ (id, slot) ∷ []) [] (bucket_lt d id p)

  get-insert_hit :
      (d : IdDir) (id : String) (slot : ℕ)
      → 0 < length d.buckets
      → get xxh64 d id ≡ none
      → get xxh64 (insert xxh64 d id slot) id ≡ some slot
  unfolding get
  get-insert_hit d id slot p h =
      ap (λ b. find id (get_or (insert xxh64 d id slot).buckets b []))
        (bucket_of-insert d id id slot)
      ∙ ap (find id) (bucket-insert d id slot p)
      ∙ find-append_new id slot (get_or d.buckets (bucket_of xxh64 d id) []) h

  bucket-insert_other :
      (d : IdDir) (id x : String) (slot : ℕ)
      → 0 < length d.buckets
      → same id x ≡ false
      → find x (get_or (insert xxh64 d id slot).buckets (bucket_of xxh64 d x) [])
        ≡ find x (get_or d.buckets (bucket_of xxh64 d x) [])
  unfolding insert
  bucket-insert_other d id x slot p e =
      elim (Bool-cases (bucket_of xxh64 d x == bucket_of xxh64 d id)) [
        | inl together ↦
            let b : bucket_of xxh64 d x ≡ bucket_of xxh64 d id = (==_iff _ _).0 together in
            ap (λ i. find x (get_or (insert xxh64 d id slot).buckets i [])) b
            ∙ ap (find x) (bucket-insert d id slot p)
            ∙ find-append_other id x slot (get_or d.buckets (bucket_of xxh64 d id) []) e
            ∙ ap (λ i. find x (get_or d.buckets i [])) (sym b)
        | inr apart ↦ ap (find x) (
            get_or-set_ne d.buckets (bucket_of xxh64 d id) (bucket_of xxh64 d x)
              (get_or d.buckets (bucket_of xxh64 d id) [] ++ (id, slot) ∷ []) []
              (λ q. ground arith))
      ]

  get-insert_other :
      (d : IdDir) (id x : String) (slot : ℕ)
      → 0 < length d.buckets
      → same id x ≡ false
      → get xxh64 (insert xxh64 d id slot) x ≡ get xxh64 d x
  unfolding get
  get-insert_other d id x slot p e =
      ap (λ b. find x (get_or (insert xxh64 d id slot).buckets b [])) (bucket_of-insert d id x slot)
      ∙ bucket-insert_other d id x slot p e

  -- In a directory with a bucket that does not have the id, an insertion adds the id with its slot and
  -- keeps what the other ids have.
  pub get-insert :
      (d : IdDir) (id x : String) (slot : ℕ)
      → 0 < length d.buckets
      → get xxh64 d id ≡ none
      → get xxh64 (insert xxh64 d id slot) x ≡ (if same id x then some slot else get xxh64 d x)
  get-insert d id x slot p h = elim (Bool-cases (same id x)) [
    | inl e ↦ rw (e) (
        ap (get xxh64 (insert xxh64 d id slot)) (sym (same-eq id x e))
        ∙ get-insert_hit d id slot p h)
    | inr e ↦ rw (e) (get-insert_other d id x slot p e)
  ]
