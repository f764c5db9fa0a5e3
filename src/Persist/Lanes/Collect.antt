-- ===== src/Persist/Lanes/Collect.antt =====
-- What the postings of crates/veclite/src/persist/seal.rs hold for one slot, and how a push changes it.
use veclite.Base.{
  ℕ, ◌≤◌, ◌<◌, ◌≡◌, refl, sym, ap, ◌∙◌, Bool, true, false, ◌==◌, Bool-cases, inl, inr, Option, none,
  some, List, [], ◌∷◌, ◌++◌, arith, All, length, get_or, set, ltb, ltb→lt, if◌then◌else◌, ==_iff,
  ==-refl, length-set,
}
use veclite.Sparse.{SparseVector}
use veclite.Storage.Iddir.Lookup.{get_or-set, get_or-set_ne}
use veclite.Persist.Lanes.{push_at, grow, spread, spread_all}

abbrev pub Terms : Type 0 → Type 0
Terms F = List (ℕ × List (ℕ × F))

abbrev pub Lane : Type 0 → Type 0
Lane F = Option (SparseVector F)

module _ {F : Type 0} where
  -- The lane of the slot `s` behind a list of postings of one term.
  unfoldable pub collect : ℕ → ℕ → List (ℕ × F) → Lane F → Lane F
  collect s term [] acc = acc
  collect s term ((slot, w) ∷ ps) acc =
      collect s term ps (if slot == s then some (grow term w acc) else acc)

  unfoldable pub collect_all : ℕ → Terms F → Lane F → Lane F
  unfolding collect
  collect_all s [] acc = acc
  collect_all s ((term, ps) ∷ rest) acc = collect_all s rest (collect s term ps acc)

  get_or-set_if :
      (acc : List (Lane F)) (slot s : ℕ) (v : Lane F)
      → s < length acc
      → get_or (set acc slot v) s none ≡ (if slot == s then v else get_or acc s none)
  get_or-set_if acc slot s v l = elim (Bool-cases (slot == s)) [
    | inl e ↦
        let k : slot ≡ s = (==_iff slot s).0 e in
        rw (e) (ap (λ n. get_or (set acc n v) s none) k ∙ get_or-set acc s v none l)
    | inr e ↦ rw (e) (get_or-set_ne acc slot s v none (λ k. ground arith))
  ]

  move_grow :
      (b : Bool) (term : ℕ) (w : F) (x y : Lane F)
      → (b ≡ true → x ≡ y)
      → (if b then some (grow term w x) else y) ≡ (if b then some (grow term w y) else y)
  move_grow true term w x y h = ap (λ z. some (grow term w z)) (h refl)
  move_grow false term w x y h = refl

  get_or-spread :
      (term : ℕ) (ps : List (ℕ × F)) (acc : List (Lane F)) (s : ℕ)
      → s < length acc
      → get_or (spread term ps acc) s none ≡ collect s term ps (get_or acc s none)
  unfolding spread collect
  get_or-spread term [] acc s l = refl
  get_or-spread term ((slot, w) ∷ ps) acc s l =
      get_or-spread term ps (set acc slot (some (grow term w (get_or acc slot none)))) s
        (omega (arith, length-set acc slot (some (grow term w (get_or acc slot none)))))
      ∙ ap (collect s term ps) (
          get_or-set_if acc slot s (some (grow term w (get_or acc slot none))) l
          ∙ move_grow (slot == s) term w (get_or acc slot none) (get_or acc s none)
              (λ e. ap (λ n. get_or acc n none) ((==_iff slot s).0 e)))

  length-spread :
      (term : ℕ) (ps : List (ℕ × F)) (acc : List (Lane F))
      → length (spread term ps acc) ≡ length acc
  unfolding spread
  length-spread term [] acc = refl
  length-spread term ((slot, w) ∷ ps) acc =
      length-spread term ps (set acc slot (some (grow term w (get_or acc slot none))))
      ∙ length-set acc slot (some (grow term w (get_or acc slot none)))

  -- The table that `postings_to_sparse` fills has at a slot what its postings hold.
  pub get_or-spread_all :
      (m : Terms F) (acc : List (Lane F)) (s : ℕ)
      → s < length acc
      → get_or (spread_all m acc) s none ≡ collect_all s m (get_or acc s none)
  unfolding spread_all collect_all
  get_or-spread_all [] acc s l = refl
  get_or-spread_all ((term, ps) ∷ rest) acc s l =
      get_or-spread_all rest (spread term ps acc) s (omega (arith, length-spread term ps acc))
      ∙ ap (collect_all s rest) (get_or-spread term ps acc s l)

  -- No posting is of the slot.
  abbrev pub Absent : ℕ → List (ℕ × F) → Type 0
  Absent s = All (λ p. (p.0 == s) ≡ false)

  collect-Absent :
      (s term : ℕ) (ps : List (ℕ × F)) (acc : Lane F) → Absent s ps → collect s term ps acc ≡ acc
  unfolding collect
  collect-Absent s term [] acc h = refl
  collect-Absent s term ((slot, w) ∷ ps) acc h =
      ap (λ b. collect s term ps (if b then some (grow term w acc) else acc)) (h.0)
      ∙ collect-Absent s term ps acc (h.1)

  pub collect_all-Absent :
      (s : ℕ) (m : Terms F) (acc : Lane F) → All (λ e. Absent s (e.1)) m → collect_all s m acc ≡ acc
  unfolding collect_all
  collect_all-Absent s [] acc h = refl
  collect_all-Absent s ((t, ps) ∷ m) acc h =
      ap (collect_all s m) (collect-Absent s t ps acc (h.0)) ∙ collect_all-Absent s m acc (h.1)

  collect_end :
      (s term slot : ℕ) (w : F) (ps : List (ℕ × F)) (acc : Lane F)
      → collect s term (ps ++ (slot, w) ∷ []) acc
        ≡ (if slot == s then some (grow term w (collect s term ps acc)) else collect s term ps acc)
  unfolding collect
  collect_end s term slot w [] acc = refl
  collect_end s term slot w ((slot', v) ∷ ps) acc =
      collect_end s term slot w ps (if slot' == s then some (grow term v acc) else acc)

  -- A push for another slot changes nothing.
  pub collect_all-push_at_other :
      (s term slot : ℕ) (w : F) (m : Terms F) (acc : Lane F)
      → (slot == s) ≡ false
      → collect_all s (push_at term (slot, w) m) acc ≡ collect_all s m acc
  unfolding collect_all push_at collect
  collect_all-push_at_other s term slot w [] acc h = rw (h) refl
  collect_all-push_at_other s term slot w ((t, ps) ∷ m) acc h = elim (Bool-cases (term == t)) [
    | inl e ↦ rw (e) (
        ap (collect_all s m) (
          collect_end s t slot w ps acc
          ∙ ap (λ b. if b then some (grow t w (collect s t ps acc)) else collect s t ps acc) h))
    | inr e ↦ elim (Bool-cases (ltb term t)) [
      | inl l ↦
          rw (e, l)
            (ap (λ b. collect_all s ((t, ps) ∷ m) (if b then some (grow term w acc) else acc)) h)
      | inr l ↦ rw (e, l) (collect_all-push_at_other s term slot w m (collect s t ps acc) h)
    ]
  ]

  -- The terms ascend.
  unfoldable pub Ascending : Terms F → Type 0
  Ascending [] = Unit
  Ascending ((t, ps) ∷ m) = All (λ e. t < e.0) m × Ascending m

  -- From the term on, no posting is of the slot.
  abbrev pub Free : ℕ → ℕ → Terms F → Type 0
  Free s term = All (λ e. term ≤ e.0 → Absent s (e.1))

  Free-Absent :
      (s term t : ℕ) (m : Terms F)
      → term ≤ t
      → All (λ e. t < e.0) m
      → Free s term m
      → All (λ e. Absent s (e.1)) m
  Free-Absent s term t [] l h f = tt
  Free-Absent s term t (e ∷ m) l h f =
      (f.0 (omega (arith, h.0)), Free-Absent s term t m l (h.1) (f.1))

  -- A push behind the slot's terms appends to its lane.
  pub collect_all-push_at :
      (s term : ℕ) (w : F) (m : Terms F) (acc : Lane F)
      → Ascending m
      → Free s term m
      → collect_all s (push_at term (s, w) m) acc ≡ some (grow term w (collect_all s m acc))
  unfolding collect_all push_at collect Ascending
  collect_all-push_at s term w [] acc a f = rw (==-refl s) refl
  collect_all-push_at s term w ((t, ps) ∷ m) acc a f = elim (Bool-cases (term == t)) [
    | inl e ↦
        let k : term ≡ t = (==_iff term t).0 e in
        let none_left = Free-Absent s term t m (omega arith) (a.0) (f.1) in
        rw (e) (
          ap (collect_all s m) (
            collect_end s t s w ps acc
            ∙ ap (λ b. if b then some (grow t w (collect s t ps acc)) else collect s t ps acc)
                (==-refl s))
          ∙ collect_all-Absent s m _ none_left
          ∙ ap (λ n. some (grow n w (collect s t ps acc))) (sym k)
          ∙ ap (λ z. some (grow term w z))
              (sym (collect_all-Absent s m (collect s t ps acc) none_left)))
    | inr e ↦ elim (Bool-cases (ltb term t)) [
      | inl l ↦
          let here = f.0 (omega (arith, ltb→lt term t l)) in
          let none_left = Free-Absent s term t m (omega (arith, ltb→lt term t l)) (a.0) (f.1) in
          let old : collect_all s m (collect s t ps acc) ≡ acc =
            collect_all-Absent s m _ none_left ∙ collect-Absent s t ps acc here in
          rw (e, l)
            (ap (λ b. collect_all s ((t, ps) ∷ m) (if b then some (grow term w acc) else acc))
                (==-refl s)
              ∙ collect_all-Absent s m _ none_left
              ∙ collect-Absent s t ps (some (grow term w acc)) here
              ∙ ap (λ z. some (grow term w z)) (sym old))
      | inr l ↦ rw (e, l) (collect_all-push_at s term w m (collect s t ps acc) (a.1) (f.1))
    ]
  ]
