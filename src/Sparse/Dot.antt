-- ===== src/Sparse/Dot.antt =====
-- The dot product of sparse vectors against its definition by lookups.
use veclite.Base.{
  String, ℕ, zero, suc, ◌+◌, ◌==◌, ==_iff, ◌≡◌, refl, ap, sym, ◌∙◌, subst, ◌<◌, ◌≤◌, Bool, true,
  false, not, ◌||◌, ltb, leb, ltb→lt, ltb→le, Option, none, some, List, [], ◌∷◌, if◌then◌else◌,
  length, Bool-cases, inl, inr, arith,
}
use veclite.Error.{ok, guard, ◌>>◌, >>=-eq-ok, invalid_argument}
use veclite.Sparse.{Floats, SparseVector, any_descent, any_infinite, validate, terms, dot_loop, dot}

module _ (f32 : Floats) where
  open f32 use {Float}

  -- The value at an index.
  unfoldable pub value_at : ℕ → List (ℕ × Float) → Option Float
  value_at i [] = none
  value_at i ((j, w) ∷ us) = if j == i then some w else value_at i us

  plus : Float → Float → Option Float → Float
  plus sum v none = sum
  plus sum v (some w) = f32.add sum (f32.mul v w)

  -- The sum, in the order of the first vector, over the indices that both have.
  unfoldable pub mutual_sum : List (ℕ × Float) → List (ℕ × Float) → Float → Float
  unfolding value_at plus
  mutual_sum [] us sum = sum
  mutual_sum ((i, v) ∷ ts) us sum = mutual_sum ts us (plus sum v (value_at i us))

  Above : ℕ → List (ℕ × Float) → Type 0
  Above j [] = Unit
  Above j ((i, v) ∷ ts) = (j < i) × Above j ts

  Rising : List (ℕ × Float) → Type 0
  unfolding Above
  Rising [] = Unit
  Rising ((i, v) ∷ ts) = Above i ts × Rising ts

  Above-lt : (i j : ℕ) (ts : List (ℕ × Float)) → i < j → Above j ts → Above i ts
  unfolding Above
  Above-lt i j [] h a = tt
  Above-lt i j ((k, v) ∷ ts) h a = (omega (arith, h, a.0), Above-lt i j ts h (a.1))

  differs : (i j : ℕ) → j < i → (j == i) ≡ false
  differs i j h = ground arith

  differs_from : (i j : ℕ) → i < j → (j == i) ≡ false
  differs_from i j h = ground arith

  too_many : (m n : ℕ) → suc m + n ≤ 0 → ⊥
  too_many m n h = omega arith

  value_at-Above : (i : ℕ) (us : List (ℕ × Float)) → Above i us → value_at i us ≡ none
  unfolding value_at Above
  value_at-Above i [] a = refl
  value_at-Above i ((j, w) ∷ us) a =
      ap (λ b. if b then some w else value_at i us) (differs_from i j (a.0))
      ∙ value_at-Above i us (a.1)

  mutual_sum-drop :
      (j : ℕ) (w : Float) (ts us : List (ℕ × Float)) (sum : Float)
      → Above j ts
      → mutual_sum ts ((j, w) ∷ us) sum ≡ mutual_sum ts us sum
  unfolding mutual_sum value_at Above
  mutual_sum-drop j w [] us sum a = refl
  mutual_sum-drop j w ((i, v) ∷ ts) us sum a =
      ap (λ b. mutual_sum ts ((j, w) ∷ us) (plus sum v (if b then some w else value_at i us)))
        (differs i j (a.0))
      ∙ mutual_sum-drop j w ts us (plus sum v (value_at i us)) (a.1)

  no_terms : (ts : List (ℕ × Float)) (sum : Float) → mutual_sum ts [] sum ≡ sum
  unfolding mutual_sum value_at plus
  no_terms [] sum = refl
  no_terms ((i, v) ∷ ts) sum = no_terms ts sum

  dot_loop-mutual_sum :
      (fuel : ℕ) (sum : Float) (ts us : List (ℕ × Float))
      → length ts + length us ≤ fuel
      → Rising ts
      → Rising us
      → dot_loop f32 fuel sum ts us ≡ mutual_sum ts us sum
  unfolding dot_loop mutual_sum Rising
  dot_loop-mutual_sum zero sum [] us h r s = refl
  dot_loop-mutual_sum zero sum (t ∷ ts) us h r s = elim (too_many (length ts) (length us) h) [ ]
  dot_loop-mutual_sum (suc fuel) sum [] us h r s = refl
  dot_loop-mutual_sum (suc fuel) sum (t ∷ ts) [] h r s = sym (no_terms (t ∷ ts) sum)
  dot_loop-mutual_sum (suc fuel) sum ((i, v) ∷ ts) ((j, w) ∷ us) h r s =
      let less = dot_loop f32 fuel sum ts ((j, w) ∷ us) in
      let greater = dot_loop f32 fuel sum ((i, v) ∷ ts) us in
      let equal = dot_loop f32 fuel (f32.add sum (f32.mul v w)) ts us in
      elim (Bool-cases (ltb i j)) [
        | inl e ↦
            ap (λ b. if b then less else if ltb j i then greater else equal) e
            ∙ dot_loop-mutual_sum fuel sum ts ((j, w) ∷ us) (omega arith) (r.1) s
            ∙ sym (
                ap (λ o. mutual_sum ts ((j, w) ∷ us) (plus sum v o))
                  (value_at-Above i ((j, w) ∷ us)
                    (ltb→lt i j e, Above-lt i j us (ltb→lt i j e) (s.0))))
        | inr e ↦ elim (Bool-cases (ltb j i)) [
          | inl f ↦
              ap (λ b. if b then less else if ltb j i then greater else equal) e
              ∙ ap (λ b. if b then greater else equal) f
              ∙ dot_loop-mutual_sum fuel sum ((i, v) ∷ ts) us (omega arith) r (s.1)
              ∙ sym (
                  mutual_sum-drop j w ((i, v) ∷ ts) us sum
                    (ltb→lt j i f, Above-lt j i ts (ltb→lt j i f) (r.0)))
          | inr f ↦
              let q : j ≡ i = omega (arith, ltb→le i j e, ltb→le j i f) in
              ap (λ b. if b then less else if ltb j i then greater else equal) e
              ∙ ap (λ b. if b then greater else equal) f
              ∙ dot_loop-mutual_sum fuel (f32.add sum (f32.mul v w)) ts us (omega arith) (r.1) (s.1)
              ∙ sym (
                  mutual_sum-drop j w ts us (f32.add sum (f32.mul v w))
                    (subst (λ k. Above k ts) (sym q) (r.0)))
              ∙ sym (
                  ap
                    (λ b.
                      mutual_sum ts ((j, w) ∷ us)
                        (plus sum v (if b then some w else value_at i us)))
                    ((==_iff j i).1 q))
        ]
      ]

  first_false : (a b : Bool) → (a || b) ≡ false → a ≡ false
  first_false true b h = h
  first_false false b h = refl

  second_false : (a b : Bool) → (a || b) ≡ false → b ≡ false
  second_false true b h = cc
  second_false false b h = h

  descent-Above :
      (k i : ℕ) (is : List ℕ) (vs : List Float)
      → any_descent (i ∷ is) ≡ false
      → k < i
      → Above k (terms f32 (i ∷ is) vs)
  unfolding any_descent Above terms
  descent-Above k i is [] h l = tt
  descent-Above k i [] (v ∷ vs) h l = (l, tt)
  descent-Above k i (j ∷ is) (v ∷ vs) h l =
      let d = first_false (leb j i) (any_descent (j ∷ is)) h in
      let m : i < j = ground arith in
      (
        l,
        descent-Above k j is vs (second_false (leb j i) (any_descent (j ∷ is)) h)
            (omega (arith, l, m)),
      )

  descent-Rising :
      (is : List ℕ) (vs : List Float) → any_descent is ≡ false → Rising (terms f32 is vs)
  unfolding any_descent Rising terms Above
  descent-Rising [] vs h = tt
  descent-Rising (i ∷ is) [] h = tt
  descent-Rising (i ∷ []) (v ∷ vs) h = (tt, tt)
  descent-Rising (i ∷ j ∷ is) (v ∷ vs) h =
      let d = first_false (leb j i) (any_descent (j ∷ is)) h in
      let m : i < j = ground arith in
      let r = second_false (leb j i) (any_descent (j ∷ is)) h in
      (descent-Above i j is vs r m, descent-Rising (j ∷ is) vs r)

  length-terms : (is : List ℕ) (vs : List Float) → length (terms f32 is vs) ≤ length is
  unfolding terms
  length-terms [] vs = omega arith
  length-terms (i ∷ is) [] = omega arith
  length-terms (i ∷ is) (v ∷ vs) = let r = length-terms is vs in omega (arith, r)

  guard_inv : (b : Bool) (m : String) → guard (not b) (invalid_argument m) ≡ ok tt → b ≡ false
  guard_inv true m h = cc
  guard_inv false m h = refl

  validate-Rising :
      (a : SparseVector Float) → validate f32 a ≡ ok tt → Rising (terms f32 (a.indices) (a.values))
  unfolding validate
  validate-Rising a h =
      let rising =
        guard (not (any_descent (a.indices)))
          (invalid_argument "sparse vector indices must be strictly increasing (sorted, unique)") in
      let finite =
        guard (not (any_infinite f32 (a.values)))
          (invalid_argument "sparse vector values must be finite") in
      let p =
        >>=-eq-ok
          (guard (length (a.indices) == length (a.values))
            (invalid_argument "sparse vector has {} indices but {} values"))
          (λ _. finite >> (rising >> ok tt)) h in
      let q = >>=-eq-ok finite (λ _. rising >> ok tt) (p.2) in
      let r = >>=-eq-ok rising (λ _. ok tt) (q.2) in
      descent-Rising (a.indices) (a.values) (guard_inv (any_descent (a.indices)) _ (r.1))

  -- The merge of two valid vectors gives the sum, in the order of the first, over the indices that both
  -- have.
  pub dot_lem :
      (a b : SparseVector Float)
      → validate f32 a ≡ ok tt
      → validate f32 b ≡ ok tt
      → dot f32 a b
        ≡ mutual_sum
            (terms f32 (a.indices) (a.values))
            (terms f32 (b.indices) (b.values))
            (f32.zero)
  unfolding dot
  dot_lem a b h k =
      let l = length-terms (a.indices) (a.values) in
      let m = length-terms (b.indices) (b.values) in
      dot_loop-mutual_sum (length (a.indices) + length (b.indices)) (f32.zero)
        (terms f32 (a.indices) (a.values)) (terms f32 (b.indices) (b.values)) (omega (arith, l, m))
        (validate-Rising a h) (validate-Rising b k)
