-- ===== src/Filter/Index/Superset.antt =====
-- The promise of filter/index.rs: the candidates of a filter have every slot that it matches.
use veclite.Base.{
  ℕ, ◌≡◌, refl, ap, sym, ◌∙◌, subst, String, true, Option, none, some, List, [], ◌∷◌, same, same-eq,
  Bool-cases, Option-cases, some_inj, inl, inr, arith, ◌>>=?◌,
}
use veclite.Filter.{
  Numbers, Value, Fields, number, string, MatchValue, keyword, integer, flag, Range, as_object,
  as_str, as_bool, as_number, get_field, lookup, is_some_and,
}
use veclite.Filter.Eval.{value_as_i64, value_as_f64, matches_stored, matches_any, range_contains}
use veclite.Filter.Postings.{Bitmaps, slots_at-union}
use veclite.Filter.KeyIndex.{
  KeyIndex, keywords, integers, floats, eq_bitmap, in_bitmap, range_bitmap, all_slots,
}
use veclite.Filter.Index.{PayloadIndexes, index_of}
use veclite.Filter.Index.Holds.{Held, same_iff}

module _ (num : Numbers) (bits : Bitmaps) where
  open num use {Number, Int, Float}
  open bits use {Bitmap}

  -- A stored value is of the kind of its index, and the comparisons of floats that evaluation makes
  -- agree with the order of the index.
  pub data Exact : KeyIndex Int Float Bitmap → Value Number → Type 0 where
    exact_keyword : {m : List (String × Bitmap)} {s : String} → Exact (keywords m) (string s)
    exact_integer :
        {m : List (Int × Bitmap)} {n : Number} (j : Int)
        → num.as_i64 n ≡ some j
        → num.as_f64 n ≡ some (num.of_i64 j)
        → ((i : Int) → num.eq (num.of_i64 j) (num.of_i64 i) ≡ true → j ≡ i)
        → Exact (integers m) (number n)
    exact_float :
        {m : List (Float × Bitmap)} {n : Number} (x : Float)
        → num.as_f64 n ≡ some x
        → ((i : Int) → num.as_i64 n ≡ some i → x ≡ num.of_i64 i)
        → ((i : Int) → num.eq x (num.of_i64 i) ≡ true → x ≡ num.of_i64 i)
        → Exact (floats m) (number n)

  -- Every indexed value of a payload is of the kind of its index, and compared exactly.
  abbrev pub ExactAt : PayloadIndexes num bits → Option (Value Number) → Type 0
  ExactAt by_key payload =
      (key : String) (idx : KeyIndex Int Float Bitmap) (v : Value Number)
      → index_of num bits key by_key ≡ some idx
      → lookup payload key ≡ some v
      → Exact idx v

  pub lookup-eq :
      (payload : Option (Value Number)) (key : String) (v : Value Number)
      → lookup payload key ≡ some v
      → (o : Fields Number) × ((payload >>=? as_object) ≡ some o) × (get_field key o ≡ some v)
  unfolding lookup
  lookup-eq none key v h = cc
  lookup-eq (some w) key v h = elim (Option-cases (as_object w)) [
    | inl e ↦ cc
    | inr (o, e) ↦ (o, e, sym (ap (λ q. q >>=? λ o. get_field key o) e) ∙ h)
  ]

  pub eq_bitmap-Exact :
      (idx : KeyIndex Int Float Bitmap) (v : Value Number) (t : ℕ) (value : MatchValue Int)
      → Held num bits idx v t
      → Exact idx v
      → matches_stored num value v ≡ true
      → bits.contains t (eq_bitmap num bits idx value) ≡ true
  unfolding Held eq_bitmap matches_stored value_as_i64 value_as_f64 as_str as_bool as_number
  eq_bitmap-Exact _ _ t (keyword k) h (exact_keyword {s = s}) e = h k (ap some (same-eq s k e))
  eq_bitmap-Exact _ _ t (integer i) h exact_keyword e = cc
  eq_bitmap-Exact _ _ t (flag b) h exact_keyword e = cc
  eq_bitmap-Exact _ _ t (keyword k) h (exact_integer j a f g) e = cc
  eq_bitmap-Exact _ _ t (integer i) h (exact_integer j a f g) e =
      elim (Bool-cases (num.int_eq j i)) [
        | inl c ↦ h i (a ∙ ap some ((num.int_eq_iff j i).0 c))
        | inr c ↦ h i (a ∙ ap some (g i (ground arith)))
      ]
  eq_bitmap-Exact _ _ t (flag b) h (exact_integer j a f g) e = cc
  eq_bitmap-Exact _ _ t (keyword k) h (exact_float x a f g) e = cc
  eq_bitmap-Exact _ _ t (integer i) h (exact_float {n = n} x a f g) e =
      elim (Option-cases (num.as_i64 n)) [
        | inl c ↦ h (num.of_i64 i) (a ∙ ap some (g i (ground arith)))
        | inr (j, c) ↦ elim (Bool-cases (num.int_eq j i)) [
          | inl d ↦
              h (num.of_i64 i) (a ∙ ap some (f j c ∙ ap (num.of_i64) ((num.int_eq_iff j i).0 d)))
          | inr d ↦ h (num.of_i64 i) (a ∙ ap some (g i (ground arith)))
        ]
      ]
  eq_bitmap-Exact _ _ t (flag b) h (exact_float x a f g) e = cc

  or_left : (t : ℕ) (a b : Bitmap) → bits.contains t a ≡ true → bits.contains t (bits.or a b) ≡ true
  or_left t a b h = rw (bits.contains-or t a b, h) refl

  or_right :
      (t : ℕ) (a b : Bitmap) → bits.contains t b ≡ true → bits.contains t (bits.or a b) ≡ true
  or_right t a b h = elim (Bool-cases (bits.contains t a)) [
    | inl e ↦ or_left t a b e
    | inr e ↦ rw (bits.contains-or t a b, e) h
  ]

  in_bitmap-keeps :
      (idx : KeyIndex Int Float Bitmap) (t : ℕ) (vs : List (MatchValue Int)) (out : Bitmap)
      → bits.contains t out ≡ true
      → bits.contains t (in_bitmap num bits idx vs out) ≡ true
  unfolding in_bitmap
  in_bitmap-keeps idx t [] out h = h
  in_bitmap-keeps idx t (w ∷ vs) out h =
      in_bitmap-keeps idx t vs (bits.or out (eq_bitmap num bits idx w)) (or_left t out _ h)

  pub in_bitmap-Exact :
      (idx : KeyIndex Int Float Bitmap) (v : Value Number) (t : ℕ) (vs : List (MatchValue Int))
      (out : Bitmap)
      → Held num bits idx v t
      → Exact idx v
      → matches_any num vs v ≡ true
      → bits.contains t (in_bitmap num bits idx vs out) ≡ true
  unfolding in_bitmap matches_any
  in_bitmap-Exact idx v t [] out h x e = cc
  in_bitmap-Exact idx v t (w ∷ vs) out h x e = elim (Bool-cases (matches_stored num w v)) [
    | inl d ↦
        in_bitmap-keeps idx t vs (bits.or out (eq_bitmap num bits idx w))
          (or_right t out _ (eq_bitmap-Exact idx v t w h x d))
    | inr d ↦ in_bitmap-Exact idx v t vs (bits.or out (eq_bitmap num bits idx w)) h x (ground arith)
  ]

  pub all_slots-Exact :
      (idx : KeyIndex Int Float Bitmap) (v : Value Number) (t : ℕ)
      → Held num bits idx v t
      → Exact idx v
      → bits.contains t (all_slots num bits idx) ≡ true
  unfolding Held all_slots value_as_i64 value_as_f64 as_str as_number
  all_slots-Exact _ _ t h (exact_keyword {m = m} {s = s}) =
      slots_at-union bits same same_iff (λ _. true) s t m (bits.new) refl (h s refl)
  all_slots-Exact _ _ t h (exact_integer {m = m} j a f g) =
      slots_at-union bits (num.int_eq) (num.int_eq_iff) (λ _. true) j t m (bits.new) refl (h j a)
  all_slots-Exact _ _ t h (exact_float {m = m} x a f g) =
      slots_at-union bits (num.total_eq) (num.total_eq_iff) (λ _. true) x t m (bits.new) refl
        (h x a)

  pub range_bitmap-Exact :
      (idx : KeyIndex Int Float Bitmap) (v : Value Number) (t : ℕ) (range : Range Float)
      (b : Bitmap)
      → Held num bits idx v t
      → Exact idx v
      → is_some_and (value_as_f64 num v) (λ y. range_contains num range y) ≡ true
      → range_bitmap num bits idx range ≡ some b
      → bits.contains t b ≡ true
  unfolding Held range_bitmap value_as_i64 value_as_f64 as_number
  range_bitmap-Exact _ _ t range b h exact_keyword e r = cc
  range_bitmap-Exact _ _ t range b h (exact_integer {m = m} j a f g) e r =
      subst (λ c. bits.contains t c ≡ true) (some_inj r)
        (slots_at-union bits (num.int_eq) (num.int_eq_iff)
          (λ k. range_contains num range (num.of_i64 k)) j t m (bits.new)
          (sym (ap (λ q. is_some_and q (λ y. range_contains num range y)) f) ∙ e) (h j a))
  range_bitmap-Exact _ _ t range b h (exact_float {m = m} x a f g) e r =
      subst (λ c. bits.contains t c ≡ true) (some_inj r)
        (slots_at-union bits (num.total_eq) (num.total_eq_iff) (λ k. range_contains num range k) x t
          m (bits.new) (sym (ap (λ q. is_some_and q (λ y. range_contains num range y)) a) ∙ e)
          (h x a))
