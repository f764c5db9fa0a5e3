-- ===== src/Filter/Index/Candidates.antt =====
-- `PayloadIndexes::candidates` of filter/index.rs: no slot that the filter matches is left out.
use veclite.Base.{
  ℕ, ◌≡◌, refl, ap, sym, ◌∙◌, subst, String, Bool, true, Option, none, some, Option-cases, some_inj,
  inl, inr, ◌>>=?◌,
}
use veclite.Filter.{
  Numbers, Value, Condition, is_eq, is_in, in_range, exists, nested, Conditions, none_left,
  cond_then, Filter, filter, lookup, is_some_and,
}
use veclite.Filter.Eval.{value_as_f64, range_contains, condition_matches, all_match, matches}
use veclite.Filter.Postings.{Bitmaps}
use veclite.Filter.KeyIndex.{KeyIndex}
use veclite.Filter.Index.{PayloadIndexes, index_of, answer, candidates_from, candidates, meet}
use veclite.Filter.Index.Holds.{Held, Covers}
use veclite.Filter.Meaning.{and_left, and_right}
use veclite.Filter.Index.Superset.{
  ExactAt, Exact, lookup-eq, eq_bitmap-Exact, in_bitmap-Exact, all_slots-Exact, range_bitmap-Exact,
}

is_some_and-bind :
    {A B : Type 0} (o : Option A) (g : A → Option B) (test : B → Bool)
    → is_some_and o (λ a. is_some_and (g a) test) ≡ is_some_and (o >>=? g) test
is_some_and-bind none g test = refl
is_some_and-bind (some a) g test = refl

module _ (num : Numbers) (bits : Bitmaps) where
  open num use {Number, Int, Float}
  open bits use {Bitmap}

  -- What a condition on a key finds at an indexed key.
  abbrev Indexed :
      PayloadIndexes num bits → ℕ → String → Value Number → KeyIndex Int Float Bitmap → Type 0
  Indexed by_key t key v idx = Held num bits idx v t × Exact num bits idx v

  at_key :
      (by_key : PayloadIndexes num bits) (t : ℕ) (payload : Option (Value Number)) (key : String)
      (idx : KeyIndex Int Float Bitmap) (v : Value Number)
      → Covers num bits by_key t payload
      → ExactAt num bits by_key payload
      → index_of num bits key by_key ≡ some idx
      → lookup payload key ≡ some v
      → Indexed by_key t key v idx
  at_key by_key t payload key idx v c x i l =
      let o = lookup-eq num bits payload key v l in
      (c key idx (o.0) v (o.1) i (o.2), x key idx v i l)

  -- A test of the value at a key, which the index of the key answers.
  answer_at :
      (by_key : PayloadIndexes num bits) (t : ℕ) (payload : Option (Value Number)) (key : String)
      (test : Value Number → Bool) (reply : KeyIndex Int Float Bitmap → Option Bitmap) (b : Bitmap)
      → Covers num bits by_key t payload
      → ExactAt num bits by_key payload
      → is_some_and (lookup payload key) test ≡ true
      → (index_of num bits key by_key >>=? reply) ≡ some b
      → ((idx : KeyIndex Int Float Bitmap) (v : Value Number)
          → Indexed by_key t key v idx
          → test v ≡ true
          → reply idx ≡ some b
          → bits.contains t b ≡ true)
      → bits.contains t b ≡ true
  answer_at by_key t payload key test reply b c x m r step =
      elim (Option-cases (lookup payload key)) [
        | inl e ↦ cc
        | inr (v, e) ↦ elim (Option-cases (index_of num bits key by_key)) [
          | inl f ↦ cc
          | inr (idx, f) ↦
              step idx v (at_key by_key t payload key idx v c x f e)
                (sym (ap (λ q. is_some_and q test) e) ∙ m) (sym (ap (λ q. q >>=? reply) f) ∙ r)
        ]
      ]

  answer-superset :
      (by_key : PayloadIndexes num bits) (t : ℕ) (payload : Option (Value Number))
      (cond : Condition Int Float) (b : Bitmap)
      → Covers num bits by_key t payload
      → ExactAt num bits by_key payload
      → condition_matches num cond payload ≡ true
      → answer num bits by_key cond ≡ some b
      → bits.contains t b ≡ true
  unfolding condition_matches answer
  answer-superset by_key t payload (is_eq key value) b c x m r =
      answer_at by_key t payload key _ _ b c x m r (λ idx v a e q.
        subst (λ d. bits.contains t d ≡ true) (some_inj q)
          (eq_bitmap-Exact num bits idx v t value (a.0) (a.1) e))
  answer-superset by_key t payload (is_in key values) b c x m r =
      answer_at by_key t payload key _ _ b c x m r (λ idx v a e q.
        subst (λ d. bits.contains t d ≡ true) (some_inj q)
          (in_bitmap-Exact num bits idx v t values (bits.new) (a.0) (a.1) e))
  answer-superset by_key t payload (in_range key range) b c x m r =
      answer_at by_key t payload key
        (λ v. is_some_and (value_as_f64 num v) (λ y. range_contains num range y)) _ b c x
        (is_some_and-bind (lookup payload key) (value_as_f64 num) _ ∙ m) r
        (λ idx v a e q. range_bitmap-Exact num bits idx v t range b (a.0) (a.1) e q)
  answer-superset by_key t payload (exists key) b c x m r =
      answer_at by_key t payload key _ _ b c x m r (λ idx v a e q.
        subst (λ d. bits.contains t d ≡ true) (some_inj q)
          (all_slots-Exact num bits idx v t (a.0) (a.1)))
  answer-superset by_key t payload (nested inner) b c x m r = cc

  -- Slots that pass, so far.
  abbrev Kept : ℕ → Option Bitmap → Type 0
  Kept t acc = (b : Bitmap) → acc ≡ some b → bits.contains t b ≡ true

  Kept-meet : (t : ℕ) (a b : Option Bitmap) → Kept t a → Kept t b → Kept t (meet num bits a b)
  Kept-meet t a none h k c e = h c e
  Kept-meet t none (some b) h k c e = k c e
  Kept-meet t (some a) (some b) h k c e =
      subst (λ d. bits.contains t d ≡ true) (some_inj e)
        (rw (bits.contains-and t a b, h a refl, k b refl) refl)

  candidates_from-superset :
      (by_key : PayloadIndexes num bits) (t : ℕ) (payload : Option (Value Number))
      (cs : Conditions Int Float) (acc : Option Bitmap)
      → Covers num bits by_key t payload
      → ExactAt num bits by_key payload
      → all_match num cs payload ≡ true
      → Kept t acc
      → Kept t (candidates_from num bits by_key cs acc)
  unfolding all_match candidates_from
  candidates_from-superset by_key t payload none_left acc c x m k = k
  candidates_from-superset by_key t payload (cond_then d cs) acc c x m k =
      candidates_from-superset by_key t payload cs (meet num bits acc (answer num bits by_key d)) c
        x (and_right (condition_matches num d payload) (all_match num cs payload) m)
        (Kept-meet t acc (answer num bits by_key d) k (λ b e.
          answer-superset by_key t payload d b c x
            (and_left (condition_matches num d payload) (all_match num cs payload) m) e))

  -- Where the indexes cover a slot's payload, and each indexed value is of the kind of its index, the
  -- candidates of a filter that matches the payload have the slot.
  pub candidates-superset :
      (by_key : PayloadIndexes num bits) (t : ℕ) (payload : Option (Value Number))
      (f : Filter Int Float) (b : Bitmap)
      → Covers num bits by_key t payload
      → ExactAt num bits by_key payload
      → matches num f payload ≡ true
      → candidates num bits by_key f ≡ some b
      → bits.contains t b ≡ true
  unfolding candidates matches
  candidates-superset by_key t payload (filter must should must_not) b c x m e =
      candidates_from-superset by_key t payload must none c x
        (and_left (all_match num must payload) _ m) (λ d q. cc) b e
