-- ===== src/Tests/Sparse.antt =====
-- The dot product of two sparse vectors, with numbers for floats.
use veclite.Base.{ℕ, ◌+◌, ◌*◌, ◌≡◌, refl, true, [], ◌∷◌}
use veclite.Error.{ok}
use veclite.Sparse.{Floats, SparseVector, validate, terms, dot}
use veclite.Sparse.Dot.{mutual_sum, dot_lem}

abbrev f32 : Floats
f32 = record { Float = ℕ; zero = 0; add = λ x y. x + y; mul = λ x y. x * y; is_finite = λ _. true }

abbrev first : SparseVector ℕ
first = record { indices = 1 ∷ 4 ∷ 7 ∷ []; values = 2 ∷ 3 ∷ 5 ∷ [] }

abbrev second : SparseVector ℕ
second = record { indices = 0 ∷ 4 ∷ 7 ∷ 9 ∷ []; values = 1 ∷ 10 ∷ 100 ∷ 1 ∷ [] }

first_valid : validate f32 first ≡ ok tt
unfolding validate
first_valid = refl

second_valid : validate f32 second ≡ ok tt
unfolding validate
second_valid = refl

dot_value : dot f32 first second ≡ 530
unfolding dot
dot_value = refl

dot_lem_example :
    dot f32 first second
    ≡ mutual_sum f32
        (terms f32 (first.indices) (first.values))
        (terms f32 (second.indices) (second.values))
        0
dot_lem_example = dot_lem f32 first second first_valid second_valid
