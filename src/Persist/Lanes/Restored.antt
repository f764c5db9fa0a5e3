-- ===== src/Persist/Lanes/Restored.antt =====
-- The lanes of crates/veclite/src/persist/seal.rs come back from their postings.
use veclite.Base.{
  ℕ, zero, suc, ◌+◌, ◌^◌, ◌≤◌, ◌<◌, ◌≡◌, refl, ap, ◌∙◌, false, ◌==◌, none, some, some_inj, List, [],
  ◌∷◌, arith, All, length, get_or, get_elem?, replicate, length-replicate, get_or-replicate,
  get_elem?-lt, All-append, All_weaken, All_of_each,
}
use veclite.Sparse.{SparseVector}
use veclite.Persist.Lanes.{push_vector, push_lanes, sparse_to_postings, grow, postings_to_sparse}
use veclite.Persist.Lanes.Collect.{
  Terms, Lane, collect_all, get_or-spread_all, Absent, Ascending, Free, collect_all-Absent,
}
use veclite.Persist.Lanes.Pushes.{
  IsAscending, push_vector-All, push_vector-Ascending, collect_all-push_vector_other,
  collect_all-push_vector, extend, extend_lane,
}

different : (a b : ℕ) → a < b → (a == b) ≡ false
different a b h = ground arith

later : (a b : ℕ) → a < b → (b == a) ≡ false
later a b h = ground arith

module _ {F : Type 0} where
  -- What `SparseVector::validate` asks, for a vector that is not empty and has 32-bit indices.
  abbrev pub IsLane : Lane F → Type 0
  IsLane none = Unit
  IsLane (some v) =
      IsAscending v.indices
      × (length v.indices ≡ length v.values)
      × (0 < length v.indices)
      × All (λ i. i < 2 ^ 32) v.indices

  -- Every slot is below the bound.
  abbrev Below : ℕ → Terms F → Type 0
  Below slot = All (λ e. All (λ p. p.0 < slot) (e.1))

  push_vector-Below :
      (slot : ℕ) (is : List ℕ) (vs : List F) (m : Terms F)
      → Below slot m
      → Below (slot + 1) (push_vector slot is vs m)
  push_vector-Below slot is vs m b =
      push_vector-All (λ e. All (λ p. p.0 < slot + 1) (e.1)) slot is vs m
        (λ i v ps h.
          All-append (λ (p : ℕ × F). p.0 < slot + 1) ps ((slot, v) ∷ []) h (omega arith, tt))
        (All_of_each (λ i. (v : F) → All (λ (p : ℕ × F). p.0 < slot + 1) ((slot, v) ∷ []))
          (λ i v. (omega arith, tt)) is)
        (All_weaken (λ (e : ℕ × List (ℕ × F)). All (λ p. p.0 < slot) (e.1))
          (λ e. All (λ p. p.0 < slot + 1) (e.1))
          (λ e.
            All_weaken (λ (p : ℕ × F). p.0 < slot) (λ p. p.0 < slot + 1) (λ p h. omega arith) (e.1))
          m b)

  later_Below : (slot : ℕ) (m : Terms F) → Below slot m → Below (slot + 1) m
  later_Below slot m b =
      All_weaken (λ (e : ℕ × List (ℕ × F)). All (λ p. p.0 < slot) (e.1))
        (λ e. All (λ p. p.0 < slot + 1) (e.1))
        (λ e.
          All_weaken (λ (p : ℕ × F). p.0 < slot) (λ p. p.0 < slot + 1) (λ p h. omega arith) (e.1))
        m b

  -- A slot behind all others has nothing yet.
  Below-Free : (slot term : ℕ) (m : Terms F) → Below slot m → Free slot term m
  Below-Free slot term m b =
      All_weaken (λ (e : ℕ × List (ℕ × F)). All (λ p. p.0 < slot) (e.1))
        (λ e. term ≤ e.0 → Absent slot (e.1))
        (λ e h l.
          All_weaken (λ (p : ℕ × F). p.0 < slot) (λ p. (p.0 == slot) ≡ false)
            (λ p k. different (p.0) slot k) (e.1) h)
        m b

  nothing-Below : (slot : ℕ) (m : Terms F) → Below slot m → collect_all slot m none ≡ none
  nothing-Below slot m b = collect_all-Absent slot m none (
      All_weaken (λ (e : ℕ × List (ℕ × F)). All (λ p. p.0 < slot) (e.1)) (λ e. Absent slot (e.1))
        (λ e h.
          All_weaken (λ (p : ℕ × F). p.0 < slot) (λ p. (p.0 == slot) ≡ false)
            (λ p k. different (p.0) slot k) (e.1) h)
        m b)

  -- Lanes of later slots leave the lane of a slot alone.
  keeps_earlier :
      (s slot : ℕ) (lanes : List (Lane F)) (m : Terms F)
      → s < slot
      → collect_all s (push_lanes slot lanes m) none ≡ collect_all s m none
  unfolding push_lanes
  keeps_earlier s slot [] m l = refl
  keeps_earlier s slot (none ∷ lanes) m l = keeps_earlier s (slot + 1) lanes m (omega arith)
  keeps_earlier s slot (some v ∷ lanes) m l =
      keeps_earlier s (slot + 1) lanes (push_vector slot v.indices v.values m) (omega arith)
      ∙ collect_all-push_vector_other s slot v.indices v.values m (later s slot l)

  extend_whole :
      (is : List ℕ) (vs : List F)
      → length is ≡ length vs
      → 0 < length is
      → extend is vs none ≡ some (record { indices = is; values = vs })
  unfolding extend grow
  extend_whole [] vs e p = absurd (omega arith)
  extend_whole (i ∷ is) [] e p = absurd (omega (arith, e))
  extend_whole (i ∷ is) (v ∷ vs) e p = extend_lane is (i ∷ []) vs (v ∷ []) (omega (arith, e))

  collect_own :
      (slot : ℕ) (v : SparseVector F) (m : Terms F)
      → Ascending m
      → Below slot m
      → IsLane (some v)
      → collect_all slot (push_vector slot v.indices v.values m) none ≡ some v
  collect_own slot v m a b (up, e, p, r) =
      collect_all-push_vector slot v.indices v.values m a up
        (All_of_each (λ i. Free slot i m) (λ i. Below-Free slot i m b) v.indices)
      ∙ ap (extend v.indices v.values) (nothing-Below slot m b)
      ∙ extend_whole v.indices v.values e p

  -- The lane of every slot is behind its postings.
  collect_all-push_lanes :
      (slot k s : ℕ) (lanes : List (Lane F)) (lane : Lane F) (m : Terms F)
      → s ≡ slot + k
      → Ascending m
      → Below slot m
      → All IsLane lanes
      → get_elem? lanes k ≡ some lane
      → collect_all s (push_lanes slot lanes m) none ≡ lane
  unfolding push_lanes
  collect_all-push_lanes slot k s [] lane m e a b v h = cc
  collect_all-push_lanes slot zero s (none ∷ lanes) lane m e a b v h =
      keeps_earlier s (slot + 1) lanes m (omega arith)
      ∙ ap (λ n. collect_all n m none) {y = slot} (omega arith)
      ∙ nothing-Below slot m b
      ∙ some_inj h
  collect_all-push_lanes slot zero s (some w ∷ lanes) lane m e a b v h =
      keeps_earlier s (slot + 1) lanes (push_vector slot w.indices w.values m) (omega arith)
      ∙ ap (λ n. collect_all n (push_vector slot w.indices w.values m) none) {y = slot}
          (omega arith)
      ∙ collect_own slot w m a b (v.0)
      ∙ some_inj h
  collect_all-push_lanes slot (suc k) s (none ∷ lanes) lane m e a b v h =
      collect_all-push_lanes (slot + 1) k s lanes lane m (omega arith) a (later_Below slot m b)
        (v.1) h
  collect_all-push_lanes slot (suc k) s (some w ∷ lanes) lane m e a b v h =
      collect_all-push_lanes (slot + 1) k s lanes lane (push_vector slot w.indices w.values m)
        (omega arith) (push_vector-Ascending slot w.indices w.values m a)
        (push_vector-Below slot w.indices w.values m b) (v.1) h

  -- The lanes come back from their postings, where each is a valid vector that is not empty.
  pub postings_to_sparse-sparse_to_postings :
      (lanes : List (Lane F)) (count n : ℕ) (lane : Lane F)
      → length lanes ≡ count
      → All IsLane lanes
      → get_elem? lanes n ≡ some lane
      → get_or (postings_to_sparse (sparse_to_postings lanes) count) n none ≡ lane
  unfolding postings_to_sparse sparse_to_postings Ascending
  postings_to_sparse-sparse_to_postings lanes count n lane l v h =
      get_or-spread_all (push_lanes 0 lanes []) (replicate count none) n
        (omega (arith, l, get_elem?-lt lanes n h, length-replicate {A = Lane F} count none))
      ∙ ap (collect_all n (push_lanes 0 lanes [])) (get_or-replicate count n none)
      ∙ collect_all-push_lanes 0 n n lanes lane [] (omega arith) tt tt v h

  abbrev InRange : ℕ × List (ℕ × F) → Type 0
  InRange (term_id, ps) = (term_id < 2 ^ 32) × All (λ p. p.0 < 2 ^ 64) ps

  push_lanes_range :
      (slot : ℕ) (lanes : List (Lane F)) (m : Terms F)
      → slot + length lanes < 2 ^ 64
      → All IsLane lanes
      → All InRange m
      → All InRange (push_lanes slot lanes m)
  unfolding push_lanes
  push_lanes_range slot [] m l v r = r
  push_lanes_range slot (none ∷ lanes) m l v r =
      push_lanes_range (slot + 1) lanes m (omega arith) (v.1) r
  push_lanes_range slot (some w ∷ lanes) m l v r =
      push_lanes_range (slot + 1) lanes (push_vector slot w.indices w.values m) (omega arith) (v.1)
        (push_vector-All InRange slot w.indices w.values m
          (λ i x ps h. (
            h.0,
            All-append (λ (p : ℕ × F). p.0 < 2 ^ 64) ps ((slot, x) ∷ []) (h.1) (omega arith, tt),
          ))
          (All_weaken (λ (i : ℕ). i < 2 ^ 32) (λ i. (x : F) → InRange (i, (slot, x) ∷ []))
            (λ i h x. (h, (omega arith, tt))) w.indices (v.0.3))
          r)

  -- The postings fit their fields.
  pub sparse_to_postings_range :
      (lanes : List (Lane F))
      → length lanes < 2 ^ 64
      → All IsLane lanes
      → All InRange (sparse_to_postings lanes)
  unfolding sparse_to_postings
  sparse_to_postings_range lanes l v = push_lanes_range 0 lanes [] (omega arith) v tt
