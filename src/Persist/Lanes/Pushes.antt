-- ===== src/Persist/Lanes/Pushes.antt =====
-- Vectors pushed into the postings of crates/veclite/src/persist/seal.rs.
use veclite.Base.{
  ℕ, ◌≤◌, ◌<◌, ◌≡◌, refl, ap, subst, ◌∙◌, false, ◌==◌, Bool-cases, inl, inr, none, some, List, [],
  ◌∷◌, ◌++◌, append_assoc, append-nil, arith, All, length, ltb, ltb→lt, ==_iff,
}
use veclite.Persist.Lanes.{push_at, push_vector, grow}
use veclite.Persist.Lanes.Collect.{
  Terms, Lane, collect_all, Absent, collect_all-push_at_other, Ascending, Free, collect_all-push_at,
}

-- The indices ascend, as `validate` asks.
abbrev pub IsAscending : List ℕ → Type 0
IsAscending [] = Unit
IsAscending (i ∷ is) = All (λ j. i < j) is × IsAscending is

module _ {F : Type 0} where
  -- A push keeps a property of all terms and postings.
  pub push_at-All :
      (P : ℕ × List (ℕ × F) → Type 0) (term : ℕ) (p : ℕ × F) (m : Terms F)
      → ((ps : List (ℕ × F)) → P (term, ps) → P (term, ps ++ p ∷ []))
      → P (term, p ∷ [])
      → All P m
      → All P (push_at term p m)
  unfolding push_at
  push_at-All P term p [] end new h = (new, tt)
  push_at-All P term p ((t, ps) ∷ m) end new h = elim (Bool-cases (term == t)) [
    | inl e ↦ let k : term ≡ t = (==_iff term t).0 e in rw (e) (here t k ps (h.0), h.1)
    | inr e ↦ elim (Bool-cases (ltb term t)) [
      | inl l ↦ rw (e, l) (new, h)
      | inr l ↦ rw (e, l) (h.0, push_at-All P term p m end new (h.1))
    ]
  ]
    where
      here : (t : ℕ) → term ≡ t → (ps : List (ℕ × F)) → P (t, ps) → P (t, ps ++ p ∷ [])
      here t k = subst (λ n. (ps : List (ℕ × F)) → P (n, ps) → P (n, ps ++ p ∷ [])) k end

  push_at-Ascending :
      (term : ℕ) (p : ℕ × F) (m : Terms F) → Ascending m → Ascending (push_at term p m)
  unfolding push_at Ascending
  push_at-Ascending term p [] a = (tt, tt)
  push_at-Ascending term p ((t, ps) ∷ m) a = elim (Bool-cases (term == t)) [
    | inl e ↦ rw (e) a
    | inr e ↦ elim (Bool-cases (ltb term t)) [
      | inl l ↦ rw (e, l) ((ltb→lt term t l, above term t m (ltb→lt term t l) (a.0)), a)
      | inr l ↦
          rw (e, l)
            (
              push_at-All (λ x. t < x.0) term p m (λ ps h. h) (ground arith) (a.0),
              push_at-Ascending term p m (a.1),
            )
    ]
  ]
    where
      above : (n t : ℕ) (m : Terms F) → n < t → All (λ x. t < x.0) m → All (λ x. n < x.0) m
      above n t [] l h = tt
      above n t (x ∷ m) l h = (omega (arith, h.0), above n t m l (h.1))

  module _ (P : ℕ × List (ℕ × F) → Type 0) (slot : ℕ) where
    pub push_vector-All :
        (is : List ℕ) (vs : List F) (m : Terms F)
        → ((i : ℕ) (v : F) (ps : List (ℕ × F)) → P (i, ps) → P (i, ps ++ (slot, v) ∷ []))
        → All (λ i. (v : F) → P (i, (slot, v) ∷ [])) is
        → All P m
        → All P (push_vector slot is vs m)
    unfolding push_vector
    push_vector-All [] vs m end new h = h
    push_vector-All (i ∷ is) [] m end new h = h
    push_vector-All (i ∷ is) (v ∷ vs) m end new h =
        push_vector-All is vs (push_at i (slot, v) m) end (new.1)
          (push_at-All P i (slot, v) m (end i v) (new.0 v) h)

  pub push_vector-Ascending :
      (slot : ℕ) (is : List ℕ) (vs : List F) (m : Terms F)
      → Ascending m
      → Ascending (push_vector slot is vs m)
  unfolding push_vector
  push_vector-Ascending slot [] vs m a = a
  push_vector-Ascending slot (i ∷ is) [] m a = a
  push_vector-Ascending slot (i ∷ is) (v ∷ vs) m a =
      push_vector-Ascending slot is vs (push_at i (slot, v) m) (push_at-Ascending i (slot, v) m a)

  pub collect_all-push_vector_other :
      (s slot : ℕ) (is : List ℕ) (vs : List F) (m : Terms F)
      → (slot == s) ≡ false
      → collect_all s (push_vector slot is vs m) none ≡ collect_all s m none
  unfolding push_vector
  collect_all-push_vector_other s slot [] vs m h = refl
  collect_all-push_vector_other s slot (i ∷ is) [] m h = refl
  collect_all-push_vector_other s slot (i ∷ is) (v ∷ vs) m h =
      collect_all-push_vector_other s slot is vs (push_at i (slot, v) m) h
      ∙ collect_all-push_at_other s i slot v m none h

  -- The entries of a vector, put behind a lane.
  unfoldable pub extend : List ℕ → List F → Lane F → Lane F
  extend [] vs acc = acc
  extend (i ∷ is) [] acc = acc
  extend (i ∷ is) (v ∷ vs) acc = extend is vs (some (grow i v acc))

  pub extend_lane :
      (is js : List ℕ) (vs ws : List F)
      → length is ≡ length vs
      → extend is vs (some (record { indices = js; values = ws }))
        ≡ some (record { indices = js ++ is; values = ws ++ vs })
  unfolding extend grow
  extend_lane [] js [] ws h = rw (append-nil js, append-nil ws) refl
  extend_lane [] js (v ∷ vs) ws h = absurd (omega (arith, h))
  extend_lane (i ∷ is) js [] ws h = absurd (omega (arith, h))
  extend_lane (i ∷ is) js (v ∷ vs) ws h =
      extend_lane is (js ++ i ∷ []) vs (ws ++ v ∷ []) (omega (arith, h))
      ∙ rw (append_assoc js (i ∷ []) is, append_assoc ws (v ∷ []) vs) refl

  Free-push_at :
      (s i j : ℕ) (v : F) (m : Terms F) → i < j → Free s j m → Free s j (push_at i (s, v) m)
  Free-push_at s i j v m l f =
      push_at-All (λ e. j ≤ e.0 → Absent s (e.1)) i (s, v) m (λ ps h k. absurd (omega arith))
        (λ k. absurd (omega arith)) f

  All-Free :
      (s i : ℕ) (v : F) (m : Terms F) (is : List ℕ)
      → All (λ j. i < j) is
      → All (λ j. Free s j m) is
      → All (λ j. Free s j (push_at i (s, v) m)) is
  All-Free s i v m [] l f = tt
  All-Free s i v m (j ∷ is) l f =
      (Free-push_at s i j v m (l.0) (f.0), All-Free s i v m is (l.1) (f.1))

  pub collect_all-push_vector :
      (s : ℕ) (is : List ℕ) (vs : List F) (m : Terms F)
      → Ascending m
      → IsAscending is
      → All (λ i. Free s i m) is
      → collect_all s (push_vector s is vs m) none ≡ extend is vs (collect_all s m none)
  unfolding push_vector extend
  collect_all-push_vector s [] vs m a b f = refl
  collect_all-push_vector s (i ∷ is) [] m a b f = refl
  collect_all-push_vector s (i ∷ is) (v ∷ vs) m a b f =
      collect_all-push_vector s is vs (push_at i (s, v) m) (push_at-Ascending i (s, v) m a) (b.1)
        (All-Free s i v m is (b.0) (f.1))
      ∙ ap (extend is vs) (collect_all-push_at s i v m none a (f.0))
