-- ===== src/Sparse.antt =====
-- crates/veclite/src/point.rs: sparse vectors, their validation and their dot product. f32 is a
-- parameter.
pub mod Dot
use veclite.Base.{
  ℕ, zero, suc, ◌+◌, ◌==◌, Bool, true, false, not, ◌&&◌, ◌||◌, ltb, leb, List, [], ◌∷◌,
  if◌then◌else◌, length,
}
use veclite.Error.{VecLiteError, invalid_argument, Result, ok, err, guard, ◌>>=◌, ◌>>◌}

-- What the code does with f32.
pub record Floats : Type 1 where
  pub Float : Type 0
  pub zero : Float
  pub add : Float → Float → Float
  pub mul : Float → Float → Float
  pub is_finite : Float → Bool

pub record SparseVector (F : Type 0) : Type 0 where
  pub indices : List ℕ
  pub values : List F

-- `windows(2).any(|w| w[0] >= w[1])`
unfoldable pub any_descent : List ℕ → Bool
any_descent [] = false
any_descent (i ∷ []) = false
any_descent (i ∷ j ∷ is) = leb j i || any_descent (j ∷ is)

module _ (f32 : Floats) where
  open f32 use {Float}

  unfoldable pub any_infinite : List Float → Bool
  any_infinite [] = false
  any_infinite (v ∷ vs) = not (f32.is_finite v) || any_infinite vs

  unfoldable pub validate : SparseVector Float → Result (Unit {0})
  unfolding any_descent any_infinite
  validate v = do
    guard (length (v.indices) == length (v.values))
        (invalid_argument "sparse vector has {} indices but {} values")
    guard (not (any_infinite (v.values))) (invalid_argument "sparse vector values must be finite")
    guard (not (any_descent (v.indices)))
        (invalid_argument "sparse vector indices must be strictly increasing (sorted, unique)")
    ok tt

  -- The indices with their values, for a vector that has as many of them.
  unfoldable pub terms : List ℕ → List Float → List (ℕ × Float)
  terms [] vs = []
  terms (i ∷ is) [] = []
  terms (i ∷ is) (v ∷ vs) = (i, v) ∷ terms is vs

  -- The loop `while i < self.indices.len() && j < other.indices.len()`, on what is left of the two.
  unfoldable pub dot_loop : ℕ → Float → List (ℕ × Float) → List (ℕ × Float) → Float
  dot_loop zero sum ts us = sum
  dot_loop (suc fuel) sum [] us = sum
  dot_loop (suc fuel) sum (t ∷ ts) [] = sum
  dot_loop (suc fuel) sum ((i, v) ∷ ts) ((j, w) ∷ us) =
      let less = dot_loop fuel sum ts ((j, w) ∷ us) in
      let greater = dot_loop fuel sum ((i, v) ∷ ts) us in
      let equal = dot_loop fuel (f32.add sum (f32.mul v w)) ts us in
      if ltb i j then less else if ltb j i then greater else equal

  -- Every round takes an entry of one of the two vectors.
  unfoldable pub dot : SparseVector Float → SparseVector Float → Float
  unfolding dot_loop terms
  dot a b =
      dot_loop (length (a.indices) + length (b.indices)) (f32.zero) (terms (a.indices) (a.values))
        (terms (b.indices) (b.values))
