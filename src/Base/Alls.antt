-- ===== src/Base/Alls.antt =====
-- Facts about `All`.
use Prim.Native.Nat.{ℕ, zero, suc}
use mathlib.Core.List.{List, [], ◌∷◌, ◌++◌}
use veclite.Base.Lists.{All, set, get_or, replicate}

module _ {A : Type 0} (P : A → Type 0) where
  pub All-append : (xs ys : List A) → All P xs → All P ys → All P (xs ++ ys)
  All-append [] ys p q = q
  All-append (x ∷ xs) ys p q = (p.0, All-append xs ys (p.1) q)

  pub All-set : (xs : List A) (i : ℕ) (v : A) → All P xs → P v → All P (set xs i v)
  All-set [] i v p q = tt
  All-set (x ∷ xs) zero v p q = (q, p.1)
  All-set (x ∷ xs) (suc i) v p q = (p.0, All-set xs i v (p.1) q)

  pub All-get_or : (xs : List A) (i : ℕ) (d : A) → All P xs → P d → P (get_or xs i d)
  All-get_or [] i d p q = q
  All-get_or (x ∷ xs) zero d p q = p.0
  All-get_or (x ∷ xs) (suc i) d p q = All-get_or xs i d (p.1) q

  pub All-replicate : (n : ℕ) (a : A) → P a → All P (replicate n a)
  All-replicate zero a p = tt
  All-replicate (suc n) a p = (p, All-replicate n a p)

  pub All_weaken : (Q : A → Type 0) → ((a : A) → P a → Q a) → (xs : List A) → All P xs → All Q xs
  All_weaken Q f [] p = tt
  All_weaken Q f (x ∷ xs) p = (f x (p.0), All_weaken Q f xs (p.1))

  pub All_of_each : ((a : A) → P a) → (xs : List A) → All P xs
  All_of_each h [] = tt
  All_of_each h (x ∷ xs) = (h x, All_of_each h xs)
