-- ===== src/Storage/Msgpack/Depth.antt =====
-- The depth guard of storage/body.rs: it ends on every input, and what it rejects.
use veclite.Base.{
  ℕ, zero, suc, ◌+◌, ◌*◌, ◌-◌, ◌≤◌, ◌<◌, ◌≡◌, ◌≢◌, Bool, true, false, none, some, List, [], ◌∷◌,
  inl, inr, arith, All, Bytes, length, get_elem?, Option-cases,
}
use native.Mathlib.Nat.{le_refl}
use veclite.Error.{VecLiteError, Result, ok, err, Result-cases}
use veclite.Storage.Msgpack.{
  Marker, push, select, marker_rows, read_marker, sized, counted, be_len, guard_loop,
  guard_msgpack_depth,
}

-- A marker that is read has its body at `at` or behind it.
data Behind (at : ℕ) : Result Marker → Type 0 where
  found : {m : Marker} → at ≤ m.at → Behind at (ok m)
  failed : {e : VecLiteError} → Behind at (err e)

select-Behind :
    (at : ℕ) (rows : List (Bool × Result Marker)) (other : Result Marker)
    → All (λ row. Behind at row.1) rows
    → Behind at other
    → Behind at (select rows other)
unfolding select
select-Behind at [] other h o = o
select-Behind at ((true, r) ∷ rows) other (h, hs) o = h
select-Behind at ((false, r) ∷ rows) other (h, hs) o = select-Behind at rows other hs o

sized-Behind : (bytes : Bytes) (at n extra : ℕ) → Behind at (sized bytes at n extra)
unfolding sized
sized-Behind bytes at n extra = elim (Result-cases (be_len bytes at n)) [
  | inl (len, h) ↦ rw h (found (omega arith))
  | inr (e, h) ↦ rw h failed
]

counted-Behind : (bytes : Bytes) (at n k : ℕ) → Behind at (counted bytes at n k)
unfolding counted
counted-Behind bytes at n k = elim (Result-cases (be_len bytes at n)) [
  | inl (len, h) ↦ rw h (found (omega arith))
  | inr (e, h) ↦ rw h failed
]

read_marker-Behind : (bytes : Bytes) (at marker : ℕ) → Behind at (read_marker bytes at marker)
unfolding read_marker
read_marker-Behind bytes at marker =
    select-Behind at (marker_rows bytes at marker) _
      (
        found (le_refl at),
        (
          failed,
          (
            found (le_refl at),
            (
              found (le_refl at),
              (
                found (le_refl at),
                (
                  found (le_refl at),
                  (
                    found (le_refl at),
                    (
                      found (le_refl at),
                      (
                        found (le_refl at),
                        (
                          found (le_refl at),
                          (
                            found (le_refl at),
                            (
                              found (le_refl at),
                              (
                                found (le_refl at),
                                (
                                  found (le_refl at),
                                  (
                                    sized-Behind bytes at _ _,
                                    (
                                      sized-Behind bytes at _ _,
                                      (
                                        sized-Behind bytes at _ _,
                                        (
                                          sized-Behind bytes at _ _,
                                          (
                                            sized-Behind bytes at _ _,
                                            (
                                              sized-Behind bytes at _ _,
                                              (
                                                counted-Behind bytes at _ _,
                                                (
                                                  counted-Behind bytes at _ _,
                                                  (counted-Behind bytes at _ _, tt),
                                                ),
                                              ),
                                            ),
                                          ),
                                        ),
                                      ),
                                    ),
                                  ),
                                ),
                              ),
                            ),
                          ),
                        ),
                      ),
                    ),
                  ),
                ),
              ),
            ),
          ),
        ),
      )
      (counted-Behind bytes at 4 2)

Behind-ok : (at : ℕ) (m : Marker) (r : Result Marker) → Behind at r → r ≡ ok m → at ≤ m.at
Behind-ok at m _ (found {m = m'} h) e = ground arith
Behind-ok at m _ failed e = cc

length-push :
    (children : ℕ) (expected : List ℕ) → length (push children expected) ≤ 1 + length expected
length-push children expected = ground arith

-- Each round pops the stack, or reads at least one byte and pushes at most once.
guard_loop_total :
    (fuel : ℕ) (bytes : Bytes) (expected : List ℕ) (at : ℕ)
    → at ≤ length bytes
    → 2 * (length bytes - at) + length expected < fuel
    → guard_loop fuel bytes expected at ≢ none
unfolding guard_loop
guard_loop_total zero bytes expected at h f e = absurd (omega arith)
guard_loop_total (suc fuel) bytes [] at h f e = cc
guard_loop_total (suc fuel) bytes (zero ∷ rest) at h f e =
    guard_loop_total fuel bytes rest at h (omega arith) e
guard_loop_total (suc fuel) bytes (suc n ∷ rest) at h f e =
    elim (Option-cases (get_elem? bytes at)) [
      | inl no_marker ↦ ground (arith, no_marker)
      | inr (marker, there) ↦ elim (Result-cases (read_marker bytes (at + 1) marker)) [
        | inr (x, bad) ↦ ground arith
        | inl (m, read) ↦
            let behind : at + 1 ≤ m.at =
              Behind-ok (at + 1) m _ (read_marker-Behind bytes (at + 1) marker) read in
            let go : (m.at + m.skip ≤ length bytes
                → guard_loop fuel bytes (push m.children (n ∷ rest)) (m.at + m.skip) ≢ none) =
              λ inside.
                guard_loop_total fuel bytes (push m.children (n ∷ rest)) (m.at + m.skip) inside
                  (omega (arith, length-push m.children (n ∷ rest))) in
            ground (arith, go)
      ]
    ]

-- The guard ends on every input, so its result is that of the loop.
pub guard_msgpack_depth_lem :
    (bytes : Bytes)
    → guard_loop (2 * length bytes + 2) bytes (1 ∷ []) 0 ≡ some (guard_msgpack_depth bytes)
unfolding guard_msgpack_depth
guard_msgpack_depth_lem bytes =
    elim (Option-cases (guard_loop (2 * length bytes + 2) bytes (1 ∷ []) 0)) [
      | inl stuck ↦ absurd (
          guard_loop_total (2 * length bytes + 2) bytes (1 ∷ []) 0 (omega arith) (omega arith)
            stuck)
      | inr (r, done) ↦ rw done
    ]
