-- ===== src/Filter/Postings.antt =====
-- The maps of filter/index.rs from a value to the slots that have it, as association lists. The
-- bitmaps of the crate roaring are a parameter.
use veclite.Base.{
  ℕ, ◌≡◌, refl, ap, sym, ◌∙◌, ◌↔◌, Bool, true, false, not, ◌&&◌, ◌||◌, ◌==◌, List, [], ◌∷◌,
  if◌then◌else◌, Bool-cases, ==-refl, inl, inr,
}

or_true : (b : Bool) → (b || true) ≡ true
or_true true = refl
or_true false = refl

-- `RoaringTreemap`: sets of slots.
pub record Bitmaps : Type 1 where
  pub Bitmap : Type 0
  pub new : Bitmap
  pub contains : ℕ → Bitmap → Bool
  pub insert : ℕ → Bitmap → Bitmap
  pub remove : ℕ → Bitmap → Bitmap
  pub or : Bitmap → Bitmap → Bitmap
  pub and : Bitmap → Bitmap → Bitmap
  pub contains-new : (t : ℕ) → contains t new ≡ false
  pub contains-insert :
      (t s : ℕ) (b : Bitmap) → contains t (insert s b) ≡ ((s == t) || contains t b)
  pub contains-remove :
      (t s : ℕ) (b : Bitmap) → contains t (remove s b) ≡ (not (s == t) && contains t b)
  pub contains-or : (t : ℕ) (a b : Bitmap) → contains t (or a b) ≡ (contains t a || contains t b)
  pub contains-and : (t : ℕ) (a b : Bitmap) → contains t (and a b) ≡ (contains t a && contains t b)

module _ (bits : Bitmaps) {K : Type 0} where
  open bits use {Bitmap}

  -- `get(..).cloned().unwrap_or_default()`
  unfoldable pub slots_at : (K → K → Bool) → K → List (K × Bitmap) → Bitmap
  slots_at equal k [] = bits.new
  slots_at equal k ((j, b) ∷ m) = if equal j k then b else slots_at equal k m

  -- `entry(..).or_default().insert(slot)`
  unfoldable pub add_slot : (K → K → Bool) → K → ℕ → List (K × Bitmap) → List (K × Bitmap)
  add_slot equal k slot [] = (k, bits.insert slot (bits.new)) ∷ []
  add_slot equal k slot ((j, b) ∷ m) =
      if equal j k then (j, bits.insert slot b) ∷ m else (j, b) ∷ add_slot equal k slot m

  -- `get_mut(..)` and `remove(slot)`
  unfoldable pub remove_slot : (K → K → Bool) → K → ℕ → List (K × Bitmap) → List (K × Bitmap)
  remove_slot equal k slot [] = []
  remove_slot equal k slot ((j, b) ∷ m) =
      if equal j k then (j, bits.remove slot b) ∷ m else (j, b) ∷ remove_slot equal k slot m

  -- The loop `out |= b` over the entries whose value passes a test.
  unfoldable pub union : (K → Bool) → List (K × Bitmap) → Bitmap → Bitmap
  union test [] out = out
  union test ((k, b) ∷ m) out = union test m (if test k then bits.or out b else out)

  module _ (equal : K → K → Bool) (equal_iff : (j k : K) → (equal j k ≡ true) ↔ (j ≡ k)) where
    equal_sym : (j k : K) → equal j k ≡ true → equal k j ≡ true
    equal_sym j k h = (equal_iff k j).1 (sym ((equal_iff j k).0 h))

    pub slots_at-add_slot :
        (k : K) (s : ℕ) (m : List (K × Bitmap))
        → bits.contains s (slots_at equal k (add_slot equal k s m)) ≡ true
    unfolding slots_at add_slot
    slots_at-add_slot k s [] =
        rw ((equal_iff k k).1 refl, bits.contains-insert s s (bits.new), ==-refl s) refl
    slots_at-add_slot k s ((j, b) ∷ m) = elim (Bool-cases (equal j k)) [
      | inl e ↦ rw (e) (rw (e, bits.contains-insert s s b, ==-refl s) refl)
      | inr e ↦ rw (e) (rw (e) (slots_at-add_slot k s m))
    ]

    slots_at-none : (k : K) → slots_at equal k [] ≡ bits.new
    unfolding slots_at
    slots_at-none k = refl

    insert_keeps :
        (t s : ℕ) (b : Bitmap) → bits.contains t b ≡ true → bits.contains t (bits.insert s b) ≡ true
    insert_keeps t s b h = elim (Bool-cases (s == t)) [
      | inl e ↦ rw (bits.contains-insert t s b, e) refl
      | inr e ↦ rw (bits.contains-insert t s b, e) h
    ]

    remove_keeps :
        (t s : ℕ) (b : Bitmap)
        → (s == t) ≡ false
        → bits.contains t b ≡ true
        → bits.contains t (bits.remove s b) ≡ true
    remove_keeps t s b e h = rw (bits.contains-remove t s b, e) h

    hit :
        (i k : K) (b : Bitmap) (m : List (K × Bitmap))
        → equal i k ≡ true
        → slots_at equal k ((i, b) ∷ m) ≡ b
    unfolding slots_at
    hit i k b m e = rw (e) refl

    miss :
        (i k : K) (b : Bitmap) (m : List (K × Bitmap))
        → equal i k ≡ false
        → slots_at equal k ((i, b) ∷ m) ≡ slots_at equal k m
    unfolding slots_at
    miss i k b m e = rw (e) refl

    -- A change of one entry that keeps the slot `t` of its bitmap.
    keeps_head :
        (i k : K) (t : ℕ) (b c : Bitmap) (m n : List (K × Bitmap))
        → (bits.contains t b ≡ true → bits.contains t c ≡ true)
        → (bits.contains t (slots_at equal k m) ≡ true
            → bits.contains t (slots_at equal k n) ≡ true)
        → bits.contains t (slots_at equal k ((i, b) ∷ m)) ≡ true
        → bits.contains t (slots_at equal k ((i, c) ∷ n)) ≡ true
    keeps_head i k t b c m n head tail h = elim (Bool-cases (equal i k)) [
      | inl e ↦
          ap (bits.contains t) (hit i k c n e)
          ∙ head (ap (bits.contains t) (sym (hit i k b m e)) ∙ h)
      | inr e ↦
          ap (bits.contains t) (miss i k c n e)
          ∙ tail (ap (bits.contains t) (sym (miss i k b m e)) ∙ h)
    ]

    -- Adding slots keeps those that are there.
    pub keeps-add_slot :
        (j k : K) (s t : ℕ) (m : List (K × Bitmap))
        → bits.contains t (slots_at equal k m) ≡ true
        → bits.contains t (slots_at equal k (add_slot equal j s m)) ≡ true
    unfolding add_slot
    keeps-add_slot j k s t [] h = cc (h, bits.contains-new t, slots_at-none k)
    keeps-add_slot j k s t ((i, b) ∷ m) h = elim (Bool-cases (equal i j)) [
      | inl e ↦ rw (e) (keeps_head i k t b (bits.insert s b) m m (insert_keeps t s b) (λ x. x) h)
      | inr e ↦
          rw (e)
            (keeps_head i k t b b m (add_slot equal j s m) (λ x. x) (keeps-add_slot j k s t m) h)
    ]

    -- Removing another slot keeps those that are there.
    pub keeps-remove_slot :
        (j k : K) (s t : ℕ) (m : List (K × Bitmap))
        → (s == t) ≡ false
        → bits.contains t (slots_at equal k m) ≡ true
        → bits.contains t (slots_at equal k (remove_slot equal j s m)) ≡ true
    unfolding remove_slot
    keeps-remove_slot j k s t [] d h = h
    keeps-remove_slot j k s t ((i, b) ∷ m) d h = elim (Bool-cases (equal i j)) [
      | inl e ↦ rw (e) (keeps_head i k t b (bits.remove s b) m m (remove_keeps t s b d) (λ x. x) h)
      | inr e ↦ rw (e) (
          keeps_head i k t b b m (remove_slot equal j s m) (λ x. x) (keeps-remove_slot j k s t m d)
            h)
    ]

    union_keeps :
        (test : K → Bool) (t : ℕ) (m : List (K × Bitmap)) (out : Bitmap)
        → bits.contains t out ≡ true
        → bits.contains t (union test m out) ≡ true
    unfolding union
    union_keeps test t [] out h = h
    union_keeps test t ((i, b) ∷ m) out h = elim (Bool-cases (test i)) [
      | inl e ↦
          rw (e) (union_keeps test t m (bits.or out b) (rw (bits.contains-or t out b, h) refl))
      | inr e ↦ rw (e) (union_keeps test t m out h)
    ]

    -- The union has the slots of every entry whose value passes the test.
    pub slots_at-union :
        (test : K → Bool) (k : K) (t : ℕ) (m : List (K × Bitmap)) (out : Bitmap)
        → test k ≡ true
        → bits.contains t (slots_at equal k m) ≡ true
        → bits.contains t (union test m out) ≡ true
    unfolding union
    slots_at-union test k t [] out p h = cc (h, bits.contains-new t, slots_at-none k)
    slots_at-union test k t ((i, b) ∷ m) out p h = elim (Bool-cases (equal i k)) [
      | inl e ↦ rw (ap test ((equal_iff i k).0 e) ∙ p) (
          union_keeps test t m (bits.or out b) (
            bits.contains-or t out b
            ∙ ap (λ c. bits.contains t out || c) (ap (bits.contains t) (sym (hit i k b m e)) ∙ h)
            ∙ or_true (bits.contains t out)))
      | inr e ↦
          slots_at-union test k t m (if test i then bits.or out b else out) p
            (ap (bits.contains t) (sym (miss i k b m e)) ∙ h)
    ]
