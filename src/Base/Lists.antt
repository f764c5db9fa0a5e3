-- ===== src/Base/Lists.antt =====
-- Lists measured and indexed by native numbers, under the library's names; byte strings.
use Prim.Native.Nat.{ℕ, zero, suc, ◌+◌, ◌-◌, ◌≤◌, ◌<◌, min}
use mathlib.Core.Path.{◌≡◌, refl, sym, ap, ◌∙◌}
use mathlib.Core.Logic.{◌≢◌}
use mathlib.Core.List.{List, [], ◌∷◌, ◌++◌}
use mathlib.Core.Option.{Option, none, some}
use native.Mathlib.Omega.{arith}

-- One more than the largest `usize`, which has 64 bits.
abbrev pub usize_limit : ℕ
usize_limit = 18446744073709551616

-- `Option::and_then`, and the operator `?` on options.
infixl 5 ◌>>=?◌
abbrev pub ◌>>=?◌ : {A B : Type 0} → Option A → (A → Option B) → Option B
none >>=? f = none
some a >>=? f = f a

-- A byte is a number below 256, and a file or a buffer is a list of bytes.
abbrev pub Bytes : Type 0
Bytes = List ℕ

abbrev pub All {ℓ κ} : {A : Type ℓ} → (A → Type κ) → List A → Type κ
All P [] = Unit
All P (x ∷ xs) = P x × All P xs

module _ {ℓ} {A : Type ℓ} where
  abbrev pub length : List A → ℕ
  length [] = 0
  length (x ∷ xs) = suc (length xs)

  abbrev pub get_elem? : List A → ℕ → Option A
  get_elem? [] i = none
  get_elem? (x ∷ xs) zero = some x
  get_elem? (x ∷ xs) (suc i) = get_elem? xs i

  abbrev pub get_or : List A → ℕ → A → A
  get_or [] i d = d
  get_or (x ∷ xs) zero d = x
  get_or (x ∷ xs) (suc i) d = get_or xs i d

  -- A write out of bounds changes nothing.
  abbrev pub set : List A → ℕ → A → List A
  set [] i v = []
  set (x ∷ xs) zero v = v ∷ xs
  set (x ∷ xs) (suc i) v = x ∷ set xs i v

  abbrev pub take : ℕ → List A → List A
  take zero xs = []
  take (suc n) [] = []
  take (suc n) (x ∷ xs) = x ∷ take n xs

  abbrev pub drop : ℕ → List A → List A
  drop zero xs = xs
  drop (suc n) [] = []
  drop (suc n) (x ∷ xs) = drop n xs

  abbrev pub replicate : ℕ → A → List A
  replicate zero a = []
  replicate (suc n) a = a ∷ replicate n a

  pub length-append : (xs ys : List A) → length (xs ++ ys) ≡ length xs + length ys
  length-append [] ys = omega arith
  length-append (x ∷ xs) ys = omega (arith, length-append xs ys)

  pub length-take : (n : ℕ) (xs : List A) → length (take n xs) ≡ min n (length xs)
  length-take zero xs = omega arith
  length-take (suc n) [] = omega arith
  length-take (suc n) (x ∷ xs) = omega (arith, length-take n xs)

  pub length-drop : (n : ℕ) (xs : List A) → length (drop n xs) ≡ length xs - n
  length-drop zero xs = omega arith
  length-drop (suc n) [] = omega arith
  length-drop (suc n) (x ∷ xs) = omega (arith, length-drop n xs)

  pub length-replicate : (n : ℕ) (a : A) → length (replicate n a) ≡ n
  length-replicate zero a = refl
  length-replicate (suc n) a = ap suc (length-replicate n a)

  pub get_or-replicate : (n s : ℕ) (a : A) → get_or (replicate n a) s a ≡ a
  get_or-replicate zero s a = refl
  get_or-replicate (suc n) zero a = refl
  get_or-replicate (suc n) (suc s) a = get_or-replicate n s a

  pub drop-nil : (n : ℕ) → drop n [] ≡ []
  drop-nil zero = refl
  drop-nil (suc n) = refl

  pub take-append : (xs ys : List A) → take (length xs) (xs ++ ys) ≡ xs
  take-append [] ys = refl
  take-append (x ∷ xs) ys = ap (λ t. x ∷ t) (take-append xs ys)

  pub drop-append : (xs ys : List A) → drop (length xs) (xs ++ ys) ≡ ys
  drop-append [] ys = refl
  drop-append (x ∷ xs) ys = drop-append xs ys

  pub take-append-drop : (n : ℕ) (xs : List A) → take n xs ++ drop n xs ≡ xs
  take-append-drop zero xs = refl
  take-append-drop (suc n) [] = refl
  take-append-drop (suc n) (x ∷ xs) = ap (λ t. x ∷ t) (take-append-drop n xs)

  pub drop-suc : (n : ℕ) (xs ys : List A) (y : A) → drop n xs ≡ y ∷ ys → drop (suc n) xs ≡ ys
  drop-suc n [] ys y e = cc (sym (drop-nil n) ∙ e)
  drop-suc zero (x ∷ xs) ys y e = cc
  drop-suc (suc n) (x ∷ xs) ys y e = drop-suc n xs ys y e

  drop-drop_lem : (n : ℕ) (k m : ℕ) (xs : List A) → k ≡ n + m → drop m (drop n xs) ≡ drop k xs
  drop-drop_lem zero k m xs e = ap (λ t. drop t xs) (omega arith)
  drop-drop_lem (suc n) zero m xs e = absurd (omega arith)
  drop-drop_lem (suc n) (suc k) m [] e = drop-nil m
  drop-drop_lem (suc n) (suc k) m (x ∷ xs) e = drop-drop_lem n k m xs (omega arith)

  pub drop-drop : (n m : ℕ) (xs : List A) → drop m (drop n xs) ≡ drop (n + m) xs
  drop-drop n m xs = drop-drop_lem n (n + m) m xs refl

  pub take-take : (n m : ℕ) (xs : List A) → n ≤ m → take n (take m xs) ≡ take n xs
  take-take zero m xs h = refl
  take-take (suc n) zero xs h = absurd (omega arith)
  take-take (suc n) (suc m) [] h = refl
  take-take (suc n) (suc m) (x ∷ xs) h = ap (λ t. x ∷ t) (take-take n m xs (omega arith))

  -- A prefix that a longer list is cut to.
  pub take-append_le : (n : ℕ) (xs ys : List A) → n ≤ length xs → take n (xs ++ ys) ≡ take n xs
  take-append_le zero xs ys h = refl
  take-append_le (suc n) [] ys h = absurd (omega arith)
  take-append_le (suc n) (x ∷ xs) ys h = ap (λ t. x ∷ t) (take-append_le n xs ys (omega arith))

  pub take-append_ge :
      (n : ℕ) (xs ys : List A) → length xs ≤ n → take n (xs ++ ys) ≡ xs ++ take (n - length xs) ys
  take-append_ge n [] ys h = ap (λ t. take t ys) (omega arith)
  take-append_ge zero (x ∷ xs) ys h = absurd (omega arith)
  take-append_ge (suc n) (x ∷ xs) ys h =
      ap (λ t. x ∷ t)
        (take-append_ge n xs ys (omega arith) ∙ ap (λ t. xs ++ take t ys) (omega arith))

  pub drop-append_ge :
      (n : ℕ) (xs ys : List A) → length xs ≤ n → drop n (xs ++ ys) ≡ drop (n - length xs) ys
  drop-append_ge n [] ys h = ap (λ t. drop t ys) (omega arith)
  drop-append_ge zero (x ∷ xs) ys h = absurd (omega arith)
  drop-append_ge (suc n) (x ∷ xs) ys h =
      drop-append_ge n xs ys (omega arith) ∙ ap (λ t. drop t ys) (omega arith)

  pub drop-append_le :
      (n : ℕ) (xs ys : List A) → n ≤ length xs → drop n (xs ++ ys) ≡ drop n xs ++ ys
  drop-append_le zero xs ys h = refl
  drop-append_le (suc n) [] ys h = absurd (omega arith)
  drop-append_le (suc n) (x ∷ xs) ys h = drop-append_le n xs ys (omega arith)

  pub take_all : (n : ℕ) (xs : List A) → length xs ≤ n → take n xs ≡ xs
  take_all zero [] h = refl
  take_all zero (x ∷ xs) h = absurd (omega arith)
  take_all (suc n) [] h = refl
  take_all (suc n) (x ∷ xs) h = ap (λ t. x ∷ t) (take_all n xs (omega arith))

  pub drop_all : (n : ℕ) (xs : List A) → length xs ≤ n → drop n xs ≡ []
  drop_all zero [] h = refl
  drop_all zero (x ∷ xs) h = absurd (omega arith)
  drop_all (suc n) [] h = refl
  drop_all (suc n) (x ∷ xs) h = drop_all n xs (omega arith)

  pub get_or-drop : (n : ℕ) (xs ys : List A) (y d : A) → drop n xs ≡ y ∷ ys → get_or xs n d ≡ y
  get_or-drop n [] ys y d e = cc (sym (drop-nil n) ∙ e)
  get_or-drop zero (x ∷ xs) ys y d e = cc
  get_or-drop (suc n) (x ∷ xs) ys y d e = get_or-drop n xs ys y d e

  pub get_or-drop_add :
      (n k j : ℕ) (xs : List A) (d : A) → j ≡ n + k → get_or (drop n xs) k d ≡ get_or xs j d
  get_or-drop_add zero k j xs d e = ap (λ t. get_or xs t d) (omega arith)
  get_or-drop_add (suc n) k zero xs d e = absurd (omega arith)
  get_or-drop_add (suc n) k (suc j) [] d e = refl
  get_or-drop_add (suc n) k (suc j) (x ∷ xs) d e = get_or-drop_add n k j xs d (omega arith)

  pub get_or-append_lt :
      (k : ℕ) (xs ys : List A) (d : A) → k < length xs → get_or (xs ++ ys) k d ≡ get_or xs k d
  get_or-append_lt k [] ys d h = absurd (omega arith)
  get_or-append_lt zero (x ∷ xs) ys d h = refl
  get_or-append_lt (suc k) (x ∷ xs) ys d h = get_or-append_lt k xs ys d (omega arith)

  -- Behind a field of `n` elements that stands at `at`, the rest stands at `k`.
  pub drop_next :
      (buf xs rest : List A) (at n k : ℕ)
      → drop at buf ≡ xs ++ rest
      → length xs ≡ n
      → k ≡ at + n
      → drop k buf ≡ rest
  drop_next buf xs rest at n k h e p =
      ap (λ t. drop t buf) p
      ∙ sym (drop-drop at n buf)
      ∙ ap (drop n) h
      ∙ ap (λ t. drop t (xs ++ rest)) (sym e)
      ∙ drop-append xs rest

  pub take_next :
      (buf xs rest : List A) (at n : ℕ)
      → drop at buf ≡ xs ++ rest
      → length xs ≡ n
      → take n (drop at buf) ≡ xs
  take_next buf xs rest at n h e =
      ap (take n) h ∙ ap (λ t. take t (xs ++ rest)) (sym e) ∙ take-append xs rest

  -- A buffer with a nonempty field at an offset is that long.
  pub fits :
      (buf xs rest : List A) (at n : ℕ)
      → drop at buf ≡ xs ++ rest
      → length xs ≡ n
      → 0 < n
      → at + n ≤ length buf
  fits buf xs rest at n h e p =
      omega (arith, length-drop at buf, ap length h, length-append xs rest)

  pub length-set : (xs : List A) (i : ℕ) (v : A) → length (set xs i v) ≡ length xs
  length-set [] i v = refl
  length-set (x ∷ xs) zero v = refl
  length-set (x ∷ xs) (suc i) v = ap suc (length-set xs i v)

  pub get_elem?-set_ne :
      (xs : List A) (i j : ℕ) (v : A) → j ≢ i → get_elem? (set xs i v) j ≡ get_elem? xs j
  get_elem?-set_ne [] i j v h = refl
  get_elem?-set_ne (x ∷ xs) zero zero v h = absurd (h refl)
  get_elem?-set_ne (x ∷ xs) zero (suc j) v h = refl
  get_elem?-set_ne (x ∷ xs) (suc i) zero v h = refl
  get_elem?-set_ne (x ∷ xs) (suc i) (suc j) v h = get_elem?-set_ne xs i j v (λ e. h (ap suc e))

  pub get_elem?-lt : (xs : List A) (i : ℕ) {a : A} → get_elem? xs i ≡ some a → i < length xs
  get_elem?-lt [] i h = cc
  get_elem?-lt (x ∷ xs) zero h = omega arith
  get_elem?-lt (x ∷ xs) (suc i) h = omega (arith, get_elem?-lt xs i h)

  pub get_elem?-append_lt :
      (xs ys : List A) (i : ℕ) → i < length xs → get_elem? (xs ++ ys) i ≡ get_elem? xs i
  get_elem?-append_lt [] ys i h = absurd (omega arith)
  get_elem?-append_lt (x ∷ xs) ys zero h = refl
  get_elem?-append_lt (x ∷ xs) ys (suc i) h = get_elem?-append_lt xs ys i (omega arith)

  pub get_elem?-append_end :
      (xs : List A) (a : A) (n : ℕ) → n ≡ length xs → get_elem? (xs ++ a ∷ []) n ≡ some a
  get_elem?-append_end [] a zero h = refl
  get_elem?-append_end [] a (suc n) h = absurd (omega arith)
  get_elem?-append_end (x ∷ xs) a zero h = absurd (omega arith)
  get_elem?-append_end (x ∷ xs) a (suc n) h = get_elem?-append_end xs a n (omega arith)

  pub get_elem?-some : (xs : List A) (i : ℕ) → i < length xs → (a : A) × (get_elem? xs i ≡ some a)
  get_elem?-some [] i h = absurd (omega arith)
  get_elem?-some (x ∷ xs) zero h = (x, refl)
  get_elem?-some (x ∷ xs) (suc i) h = get_elem?-some xs i (omega arith)
