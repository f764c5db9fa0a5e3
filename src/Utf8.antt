-- ===== src/Utf8.antt =====
-- `as_bytes` and `String::from_utf8` of the standard library, which the storage code calls.
use Prim.Native.Nat.{compare, Ordering}
use Prim.Native.Char.{Char, char, code, IsLt, IsScalar}
use veclite.Base.{
  ℕ, zero, suc, ◌+◌, ◌*◌, ◌-◌, ◌/◌, ◌%◌, ◌<◌, ◌≤◌, ◌≡◌, refl, ap, ap₂, ◌∙◌, leb_of_le, String, true,
  ◌&&◌, Option, none, some, [], ◌∷◌, ◌++◌, arith, Bytes, ltb, leb, if◌then◌else◌, Bool-cases, inl,
  inr, ltb→lt, ltb→le, lt→ltb, le→ltb,
}

-- What `IsScalar` says of the three comparisons.
abbrev IsBoth : Ordering → Ordering → Type 0
IsBoth Ordering.lt o = IsLt o
IsBoth Ordering.eq _ = ⊥
IsBoth Ordering.gt _ = ⊥

abbrev IsOneOf : Ordering → Ordering → Ordering → Type 0
IsOneOf Ordering.lt _ _ = Unit
IsOneOf Ordering.eq o p = IsBoth o p
IsOneOf Ordering.gt o p = IsBoth o p

below : (o : Ordering) → Option (IsLt o)
below Ordering.lt = some tt
below Ordering.eq = none
below Ordering.gt = none

check_both : (o p : Ordering) → Option (IsBoth o p)
unfolding below
check_both Ordering.lt p = below p
check_both Ordering.eq p = none
check_both Ordering.gt p = none

check_scalar : (o p q : Ordering) → Option (IsOneOf o p q)
unfolding check_both
check_scalar Ordering.lt p q = some tt
check_scalar Ordering.eq p q = check_both p q
check_scalar Ordering.gt p q = check_both p q

below_lem : (o : Ordering) (h : IsLt o) → below o ≡ some h
unfolding below
below_lem Ordering.lt h = refl
below_lem Ordering.eq h = elim h [ ]
below_lem Ordering.gt h = elim h [ ]

check_both_lem : (o p : Ordering) (h : IsBoth o p) → check_both o p ≡ some h
unfolding check_both
check_both_lem Ordering.lt p h = below_lem p h
check_both_lem Ordering.eq p h = elim h [ ]
check_both_lem Ordering.gt p h = elim h [ ]

check_scalar_lem : (o p q : Ordering) (h : IsOneOf o p q) → check_scalar o p q ≡ some h
unfolding check_scalar
check_scalar_lem Ordering.lt p q h = refl
check_scalar_lem Ordering.eq p q h = check_both_lem p q h
check_scalar_lem Ordering.gt p q h = check_both_lem p q h

abbrev with_proof : (n : ℕ) → Option (IsScalar n) → Option Char
with_proof n none = none
with_proof n (some h) = some (char n h)

-- `char::from_u32`
unfoldable pub from_u32 : ℕ → Option Char
unfolding check_scalar
from_u32 n = with_proof n (check_scalar (compare n 55296) (compare 57343 n) (compare n 1114112))

from_u32-code : (c : Char) → from_u32 (code c) ≡ some c
unfolding from_u32
from_u32-code (char n h) =
    ap (with_proof n) (check_scalar_lem (compare n 55296) (compare 57343 n) (compare n 1114112) h)

scalar_lt : (n : ℕ) → IsScalar n → n < 1114112
scalar_lt n h = ground arith

unfoldable pub encode_utf8 : ℕ → Bytes
encode_utf8 n =
    if ltb n 128
    then n ∷ []
    else if ltb n 2048
    then (192 + n / 64) ∷ (128 + n % 64) ∷ []
    else if ltb n 65536
    then (224 + n / 4096) ∷ (128 + n / 64 % 64) ∷ (128 + n % 64) ∷ []
    else (240 + n / 262144) ∷ (128 + n / 4096 % 64) ∷ (128 + n / 64 % 64) ∷ (128 + n % 64) ∷ []

unfoldable pub as_bytes : String → Bytes
unfolding encode_utf8
as_bytes String.[] = []
as_bytes (String.◌∷◌ c s) = encode_utf8 (code c) ++ as_bytes s

abbrev cons : Option Char → Option String → Option String
cons none s = none
cons (some c) none = none
cons (some c) (some s) = some (String.◌∷◌ c s)

-- A sequence of `need` more bytes, behind which the character's number is at least `low`.
unfoldable pub decode_utf8 : Bytes → ℕ → ℕ → ℕ → Option String
unfolding from_u32
decode_utf8 [] zero acc low = some String.[]
decode_utf8 [] (suc need) acc low = none
decode_utf8 (b ∷ bs) zero acc low =
    let one = cons (from_u32 b) (decode_utf8 bs 0 0 0) in
    let two = decode_utf8 bs 1 (b - 192) 128 in
    let three = decode_utf8 bs 2 (b - 224) 2048 in
    let four = decode_utf8 bs 3 (b - 240) 65536 in
    if ltb b 128
    then one
    else if ltb b 192
    then none
    else if ltb b 224
    then two
    else if ltb b 240
    then three
    else if ltb b 248
    then four
    else none
decode_utf8 (b ∷ bs) (suc zero) acc low =
    let rest = cons (from_u32 (acc * 64 + (b - 128))) (decode_utf8 bs 0 0 0) in
    if leb 128 b && ltb b 192 && leb low (acc * 64 + (b - 128)) then rest else none
decode_utf8 (b ∷ bs) (suc (suc need)) acc low =
    let rest = decode_utf8 bs (suc need) (acc * 64 + (b - 128)) low in
    if leb 128 b && ltb b 192 then rest else none

unfoldable pub from_utf8 : Bytes → Option String
unfolding decode_utf8
from_utf8 bytes = decode_utf8 bytes 0 0 0

-- A byte 128 + r continues a sequence.
continue_last :
    (bs : Bytes) (acc r n low : ℕ)
    → r < 64
    → n ≡ acc * 64 + r
    → low ≤ n
    → decode_utf8 ((128 + r) ∷ bs) 1 acc low ≡ cons (from_u32 n) (decode_utf8 bs 0 0 0)
unfolding decode_utf8
continue_last bs acc r n low h e l =
    let total : acc * 64 + (128 + r - 128) ≡ n = omega arith in
    rw
      (
        leb_of_le 128 (128 + r) (omega arith),
        lt→ltb (128 + r) 192 (omega arith),
        total,
        leb_of_le low n l,
      )
      refl

continue_more :
    (bs : Bytes) (need acc r n low : ℕ)
    → r < 64
    → n ≡ acc * 64 + r
    → decode_utf8 ((128 + r) ∷ bs) (suc (suc need)) acc low ≡ decode_utf8 bs (suc need) n low
unfolding decode_utf8
continue_more bs need acc r n low h e =
    rw (leb_of_le 128 (128 + r) (omega arith), lt→ltb (128 + r) 192 (omega arith))
      (ap (λ t. decode_utf8 bs (suc need) t low) (omega arith))

start_two :
    (bs : Bytes) (q : ℕ) → q < 32 → decode_utf8 ((192 + q) ∷ bs) 0 0 0 ≡ decode_utf8 bs 1 q 128
unfolding decode_utf8
start_two bs q h =
    rw
      (
        le→ltb (192 + q) 128 (omega arith),
        le→ltb (192 + q) 192 (omega arith),
        lt→ltb (192 + q) 224 (omega arith),
      )
      (ap (λ t. decode_utf8 bs 1 t 128) (omega arith))

start_three :
    (bs : Bytes) (q : ℕ) → q < 16 → decode_utf8 ((224 + q) ∷ bs) 0 0 0 ≡ decode_utf8 bs 2 q 2048
unfolding decode_utf8
start_three bs q h =
    rw
      (
        le→ltb (224 + q) 128 (omega arith),
        le→ltb (224 + q) 192 (omega arith),
        le→ltb (224 + q) 224 (omega arith),
        lt→ltb (224 + q) 240 (omega arith),
      )
      (ap (λ t. decode_utf8 bs 2 t 2048) (omega arith))

start_four :
    (bs : Bytes) (q : ℕ) → q < 8 → decode_utf8 ((240 + q) ∷ bs) 0 0 0 ≡ decode_utf8 bs 3 q 65536
unfolding decode_utf8
start_four bs q h =
    rw
      (
        le→ltb (240 + q) 128 (omega arith),
        le→ltb (240 + q) 192 (omega arith),
        le→ltb (240 + q) 224 (omega arith),
        le→ltb (240 + q) 240 (omega arith),
        lt→ltb (240 + q) 248 (omega arith),
      )
      (ap (λ t. decode_utf8 bs 3 t 65536) (omega arith))

decode_one :
    (n : ℕ) (bs : Bytes)
    → ltb n 128 ≡ true
    → decode_utf8 (n ∷ bs) 0 0 0 ≡ cons (from_u32 n) (decode_utf8 bs 0 0 0)
unfolding decode_utf8
decode_one n bs a = rw (a) refl

-- The bytes of a character decode to it.
decode-encode_char :
    (n : ℕ) (bs : Bytes)
    → n < 1114112
    → decode_utf8 (encode_utf8 n ++ bs) 0 0 0 ≡ cons (from_u32 n) (decode_utf8 bs 0 0 0)
unfolding encode_utf8
decode-encode_char n bs h = elim (Bool-cases (ltb n 128)) [
  | inl a ↦ rw (a) (decode_one n bs a)
  | inr a ↦ elim (Bool-cases (ltb n 2048)) [
    | inl b ↦
        rw (a, b)
          (start_two _ (n / 64) (omega (arith, ltb→lt n 2048 b))
            ∙ continue_last bs (n / 64) (n % 64) n 128 (omega arith) (omega arith) (ltb→le n 128 a))
    | inr b ↦ elim (Bool-cases (ltb n 65536)) [
      | inl c ↦
          rw (a, b, c)
            (start_three _ (n / 4096) (omega (arith, ltb→lt n 65536 c))
              ∙ continue_more _ 0 (n / 4096) (n / 64 % 64) (n / 64) 2048 (omega arith) (omega arith)
              ∙ continue_last bs (n / 64) (n % 64) n 2048 (omega arith) (omega arith)
                  (ltb→le n 2048 b))
      | inr c ↦
          rw (a, b, c)
            (start_four _ (n / 262144) (omega arith)
              ∙ continue_more _ 1 (n / 262144) (n / 4096 % 64) (n / 4096) 65536 (omega arith)
                  (omega arith)
              ∙ continue_more _ 0 (n / 4096) (n / 64 % 64) (n / 64) 65536 (omega arith)
                  (omega arith)
              ∙ continue_last bs (n / 64) (n % 64) n 65536 (omega arith) (omega arith)
                  (ltb→le n 65536 c))
    ]
  ]
]

-- The bytes of a text decode to it.
pub from_utf8-as_bytes : (s : String) → from_utf8 (as_bytes s) ≡ some s
unfolding from_utf8 as_bytes
from_utf8-as_bytes String.[] = refl
from_utf8-as_bytes (String.◌∷◌ (char n h) s) =
    decode-encode_char n (as_bytes s) (scalar_lt n h)
    ∙ ap₂ cons (from_u32-code (char n h)) (from_utf8-as_bytes s)
