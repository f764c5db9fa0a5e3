-- ===== src/Filter/Index/Holds.antt =====
-- What the indexes of filter/index.rs hold of a payload, and that writes keep it.
use veclite.Base.{
  ℕ, ◌≡◌, ◌↔◌, refl, ap, sym, ◌∙◌, subst, String, Bool, true, false, Option, none, some, List, [],
  ◌∷◌, same, same-eq, same_refl, Bool-cases, Option-cases, some_inj, inl, inr, ◌==◌, ◌>>=?◌,
}
use veclite.Filter.{Numbers, Value, Fields, as_object, as_str, get_field}
use veclite.Filter.Eval.{value_as_i64, value_as_f64}
use veclite.Filter.Postings.{
  Bitmaps, slots_at, add_slot, remove_slot, slots_at-add_slot, keeps-add_slot, keeps-remove_slot,
}
use veclite.Filter.KeyIndex.{KeyIndex, keywords, integers, floats}
use veclite.Filter.KeyIndex
use veclite.Filter.Index.{
  PayloadIndexes, index_of, each_indexed, change_at, on_object, insert, remove,
}

pub same_iff : (j k : String) → (same j k ≡ true) ↔ (j ≡ k)
same_iff j k = (same-eq j k, λ e. subst (λ x. same j x ≡ true) e (same_refl j))

module _ (num : Numbers) (bits : Bitmaps) where
  open num use {Number, Int, Float}
  open bits use {Bitmap}

  -- A slot is where its stored value is looked for.
  abbrev Placed : {K : Type 0} → (K → K → Bool) → Option K → List (K × Bitmap) → ℕ → Type 0
  Placed {K} equal key m t =
      (k : K) → key ≡ some k → bits.contains t (slots_at bits equal k m) ≡ true

  unfoldable pub Held : KeyIndex Int Float Bitmap → Value Number → ℕ → Type 0
  Held (keywords m) v t = Placed same (as_str v) m t
  Held (integers m) v t = Placed (num.int_eq) (value_as_i64 num v) m t
  Held (floats m) v t = Placed (num.total_eq) (value_as_f64 num v) m t

  -- Every index whose key the payload has holds its value.
  abbrev pub Covers : PayloadIndexes num bits → ℕ → Option (Value Number) → Type 0
  Covers by_key t payload =
      (key : String) (idx : KeyIndex Int Float Bitmap) (o : Fields Number) (v : Value Number)
      → (payload >>=? as_object) ≡ some o
      → index_of num bits key by_key ≡ some idx
      → get_field key o ≡ some v
      → Held idx v t

  module _ {K : Type 0} (equal : K → K → Bool)
      (equal_iff : (j k : K) → (equal j k ≡ true) ↔ (j ≡ k)) where
    add_at :
        (o : Option K) (m : List (K × Bitmap)) (t : ℕ)
        → Placed equal o (KeyIndex.on_value num bits o m (λ k. add_slot bits equal k t m)) t
    add_at (some j) m t k e =
        subst (λ i. bits.contains t (slots_at bits equal i (add_slot bits equal j t m)) ≡ true)
          (some_inj e) (slots_at-add_slot bits equal equal_iff j t m)
    add_at none m t k e = cc

    keep_add :
        (o p : Option K) (m : List (K × Bitmap)) (s t : ℕ)
        → Placed equal p m t
        → Placed equal p (KeyIndex.on_value num bits o m (λ k. add_slot bits equal k s m)) t
    keep_add none p m s t h k e = h k e
    keep_add (some j) p m s t h k e = keeps-add_slot bits equal equal_iff j k s t m (h k e)

    keep_remove :
        (o p : Option K) (m : List (K × Bitmap)) (s t : ℕ)
        → (s == t) ≡ false
        → Placed equal p m t
        → Placed equal p (KeyIndex.on_value num bits o m (λ k. remove_slot bits equal k s m)) t
    keep_remove none p m s t d h k e = h k e
    keep_remove (some j) p m s t d h k e =
        keeps-remove_slot bits equal equal_iff j k s t m d (h k e)

  add-Held :
      (idx : KeyIndex Int Float Bitmap) (v : Value Number) (t : ℕ)
      → Held (KeyIndex.add num bits idx v t) v t
  unfolding Held KeyIndex.add
  add-Held (keywords m) v t = add_at same same_iff (as_str v) m t
  add-Held (integers m) v t = add_at (num.int_eq) (num.int_eq_iff) (value_as_i64 num v) m t
  add-Held (floats m) v t = add_at (num.total_eq) (num.total_eq_iff) (value_as_f64 num v) m t

  add-keeps :
      (idx : KeyIndex Int Float Bitmap) (v w : Value Number) (s t : ℕ)
      → Held idx w t
      → Held (KeyIndex.add num bits idx v s) w t
  unfolding Held KeyIndex.add
  add-keeps (keywords m) v w s t = keep_add same same_iff (as_str v) (as_str w) m s t
  add-keeps (integers m) v w s t =
      keep_add (num.int_eq) (num.int_eq_iff) (value_as_i64 num v) (value_as_i64 num w) m s t
  add-keeps (floats m) v w s t =
      keep_add (num.total_eq) (num.total_eq_iff) (value_as_f64 num v) (value_as_f64 num w) m s t

  remove-keeps :
      (idx : KeyIndex Int Float Bitmap) (v w : Value Number) (s t : ℕ)
      → (s == t) ≡ false
      → Held idx w t
      → Held (KeyIndex.remove num bits idx v s) w t
  unfolding Held KeyIndex.remove
  remove-keeps (keywords m) v w s t = keep_remove same same_iff (as_str v) (as_str w) m s t
  remove-keeps (integers m) v w s t =
      keep_remove (num.int_eq) (num.int_eq_iff) (value_as_i64 num v) (value_as_i64 num w) m s t
  remove-keeps (floats m) v w s t =
      keep_remove (num.total_eq) (num.total_eq_iff) (value_as_f64 num v) (value_as_f64 num w) m s t

  index_of-each_indexed :
      (change : KeyIndex Int Float Bitmap → Value Number → KeyIndex Int Float Bitmap)
      (o : Fields Number) (key : String) (ix : PayloadIndexes num bits)
      → index_of num bits key (each_indexed num bits change o ix) ≡ (
          index_of num bits key ix >>=? λ idx.
          some (change_at num bits change (get_field key o) idx))
  unfolding index_of each_indexed
  index_of-each_indexed change o key [] = refl
  index_of-each_indexed change o key ((k, idx) ∷ ix) = elim (Bool-cases (same k key)) [
    | inl e ↦
        rw (e) (ap (λ x. some (change_at num bits change (get_field x o) idx)) (same-eq k key e))
    | inr e ↦ rw (e) (index_of-each_indexed change o key ix)
  ]

  -- What a change of the indexes does to one of them.
  changed :
      (change : KeyIndex Int Float Bitmap → Value Number → KeyIndex Int Float Bitmap)
      (o : Fields Number) (key : String) (ix : PayloadIndexes num bits)
      (idx : KeyIndex Int Float Bitmap)
      → index_of num bits key (each_indexed num bits change o ix) ≡ some idx
      → (old : KeyIndex Int Float Bitmap) × (index_of num bits key ix ≡ some old)
        × (change_at num bits change (get_field key o) old ≡ idx)
  changed change o key ix idx h = elim (Option-cases (index_of num bits key ix)) [
    | inl e ↦ let i = index_of-each_indexed change o key ix in cc
    | inr (old, e) ↦ (
      old,
      e,
      some_inj (
          sym (ap (λ r. r >>=? λ idx. some (change_at num bits change (get_field key o) idx)) e)
          ∙ sym (index_of-each_indexed change o key ix)
          ∙ h),
    )
  ]

  -- An insertion makes the indexes cover the payload of the slot.
  pub insert-Covers :
      (ix : PayloadIndexes num bits) (t : ℕ) (payload : Option (Value Number))
      → Covers (insert num bits ix t payload) t payload
  unfolding insert
  insert-Covers ix t payload key idx o v p h g =
      let c =
        changed (λ i w. KeyIndex.add num bits i w t) o key ix idx
          (sym (
              ap
                (λ q. index_of num bits key (
                  on_object num bits q ix
                    (λ obj. each_indexed num bits (λ i w. KeyIndex.add num bits i w t) obj ix)))
                p)
            ∙ h) in
      subst (λ i. Held i v t)
        (ap (λ q. change_at num bits (λ i w. KeyIndex.add num bits i w t) q (c.0)) (sym g) ∙ c.2)
        (add-Held (c.0) v t)

  each-Covers :
      (change : KeyIndex Int Float Bitmap → Value Number → KeyIndex Int Float Bitmap)
      (q : Option (Fields Number)) (ix : PayloadIndexes num bits) (t : ℕ)
      (payload : Option (Value Number))
      (keeps : (i : KeyIndex Int Float Bitmap) (v w : Value Number)
        → Held i w t
        → Held (change i v) w t)
      → Covers ix t payload
      → Covers (on_object num bits q ix (λ obj. each_indexed num bits change obj ix)) t payload
  each-Covers change none ix t payload keeps c key idx o v p h g = c key idx o v p h g
  each-Covers change (some obj) ix t payload keeps c key idx o v p h g =
      let d = changed change obj key ix idx h in
      subst (λ i. Held i v t) (d.2)
        (changed_holds (get_field key obj) (d.0) (c key (d.0) o v p (d.1) g))
    where
      changed_holds :
          (w : Option (Value Number)) (i : KeyIndex Int Float Bitmap)
          → Held i v t
          → Held (change_at num bits change w i) v t
      changed_holds none i held = held
      changed_holds (some w) i held = keeps i w v held

  -- Insertions of any payloads keep what the indexes cover.
  pub insert-keeps :
      (ix : PayloadIndexes num bits) (s t : ℕ) (other payload : Option (Value Number))
      → Covers ix t payload
      → Covers (insert num bits ix s other) t payload
  unfolding insert
  insert-keeps ix s t other payload =
      each-Covers (λ i v. KeyIndex.add num bits i v s) (other >>=? as_object) ix t payload
        (λ i v w. add-keeps i v w s t)

  -- Removals of other slots keep what the indexes cover.
  pub remove_other-keeps :
      (ix : PayloadIndexes num bits) (s t : ℕ) (other payload : Option (Value Number))
      → (s == t) ≡ false
      → Covers ix t payload
      → Covers (remove num bits ix s other) t payload
  unfolding remove
  remove_other-keeps ix s t other payload d =
      each-Covers (λ i v. KeyIndex.remove num bits i v s) (other >>=? as_object) ix t payload
        (λ i v w. remove-keeps i v w s t d)
