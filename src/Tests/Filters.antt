-- ===== src/Tests/Filters.antt =====
-- Filters and payload indexes at concrete documents.
use veclite.Base.{
  ℕ, ◌≡◌, ◌↔◌, refl, String, Bool, true, false, not, ◌&&◌, ◌||◌, ◌==◌, ==_iff, Option, none, some,
  List, [], ◌∷◌, ltb, leb, subst, some_inj, if◌then◌else◌, ◌⊎◌, inl, inr, same,
}
use veclite.Dict
use veclite.Error.{ok}
use veclite.Filter.{
  Numbers, Value, number, string, object, array, last, field, end, item, Condition, is_eq, in_range,
  Conditions, none_left, cond_then, Filter, filter, keyword, integer, lookup, get_field, as_object,
  as_str,
}
use veclite.Filter.Eval.{matches}
use veclite.Filter.Validate.{validate, has_dot}
use veclite.Filter.Parse.{from_json, clauses_from_json, plain_condition, match_from_json}
use veclite.Filter.Print.{
  FiniteBound, FiniteRange, FiniteCondition, FiniteConditions, FiniteFilter, from_json_onto,
}
use veclite.Filter.Keys.{names_must, named_here, names_eq, from_json-Names}
use veclite.Filter.Meaning.{
  matches_iff, matches-SameMembers, ◌∈◌, here, there, SameMembers, AllMatch, SomeMatch, NoneMatches,
}
use veclite.Filter.Postings.{Bitmaps}
use veclite.Filter.KeyIndex.{KeyIndex, keywords, integers, keyword_kind, integer_kind}
use veclite.Filter.KeyIndex
use veclite.Filter.Index.{
  PayloadIndexes, new, collect, insert, answer, each_indexed, index_of, candidates,
}
use veclite.Filter.Index.Superset.{Exact, exact_keyword, exact_integer, ExactAt}
use veclite.Filter.Index.History.{inserted, then_insert, candidates-Since}

-- Whole numbers, and fractions that no test compares.
abbrev whole : ℕ ⊎ ℕ → Option ℕ
whole (inl i) = some i
whole (inr x) = none

abbrev value : ℕ ⊎ ℕ → Option ℕ
value (inl i) = some i
value (inr x) = some x

abbrev pub num : Numbers
num = record {
  Number = ℕ ⊎ ℕ;
  Int = ℕ;
  Float = ℕ;
  as_i64 = whole;
  as_f64 = value;
  of_i64 = λ i. i;
  int_eq = λ i j. i == j;
  int_eq_iff = ==_iff;
  eq = λ x y. x == y;
  lt = ltb;
  le = leb;
  total_eq = λ x y. x == y;
  total_eq_iff = ==_iff;
}

abbrev pub bits : Bitmaps
bits = record {
  Bitmap = ℕ → Bool;
  new = λ _. false;
  contains = λ s b. b s;
  insert = λ s b t. (s == t) || b t;
  remove = λ s b t. not (s == t) && b t;
  or = λ a b t. a t || b t;
  and = λ a b t. a t && b t;
  contains-new = λ _. refl;
  contains-insert = λ t s b. refl;
  contains-remove = λ t s b. refl;
  contains-or = λ t a b. refl;
  contains-and = λ t a b. refl;
}

abbrev payload : Option (Value (ℕ ⊎ ℕ))
payload = some (object (field "lang" (string "en") (field "year" (number (inl 2024)) last)))

abbrev recent : Condition ℕ ℕ
recent = in_range "year" (record { gt = none; gte = some 2020; lt = none; lte = none })

abbrev english : Filter ℕ ℕ
english =
    filter (cond_then (is_eq "lang" (keyword "en")) (cond_then recent none_left)) none_left
      none_left

english_found : matches num english payload ≡ true
unfolding matches same
english_found = refl

english_valid : validate english ≡ ok tt
unfolding validate has_dot
english_valid = refl

-- Every fraction is finite, and a JSON number.
english_finite :
    FiniteFilter num inl
      (λ _. refl)
      (λ _. Unit)
      (λ x. number (inr x))
      (λ x _. (inr x, refl, refl))
      english
unfolding FiniteFilter FiniteConditions FiniteCondition FiniteRange FiniteBound
english_finite = ((tt, ((tt, tt, tt, tt), tt)), tt, tt)

from_json_onto_example : (document : Value (ℕ ⊎ ℕ)) × (from_json num document ≡ ok english)
from_json_onto_example =
    from_json_onto num inl (λ _. refl) (λ _. Unit) (λ x. number (inr x))
      (λ x _. (inr x, refl, refl)) english english_finite english_valid

-- `{"must": [{"key": "lang", "match": {"value": "en"}}]}`
abbrev document : Value (ℕ ⊎ ℕ)
document = object (
    field "must"
      (array (
        item
          (object (
            field "key" (string "lang")
              (field "match" (object (field "value" (string "en") last)) last)))
          end))
      last)

abbrev in_english : Filter ℕ ℕ
in_english = filter (cond_then (is_eq "lang" (keyword "en")) none_left) none_left none_left

document_read : from_json num document ≡ ok in_english
unfolding from_json clauses_from_json plain_condition match_from_json validate has_dot same
    get_field as_str
document_read = refl

from_json-Names_example : has_dot "lang" ≡ false
from_json-Names_example =
    from_json-Names num document in_english "lang" document_read (names_must (named_here names_eq))

abbrev lang_clause : Conditions ℕ ℕ
lang_clause = cond_then (is_eq "lang" (keyword "en")) (cond_then recent none_left)

abbrev year_clause : Conditions ℕ ℕ
year_clause = cond_then recent (cond_then (is_eq "lang" (keyword "en")) none_left)

swap_two :
    {c d : Condition ℕ ℕ} (e : Condition ℕ ℕ)
    → e ∈ cond_then c (cond_then d none_left)
    → e ∈ cond_then d (cond_then c none_left)
swap_two _ here = there here
swap_two _ (there here) = here
swap_two e (there (there m)) = elim m [ ]

clauses_same : SameMembers num lang_clause year_clause
clauses_same c = (swap_two c, swap_two c)

none_same : SameMembers num none_left none_left
none_same c = (λ m. m, λ m. m)

order_of_conditions :
    matches num english payload ≡ matches num (filter year_clause none_left none_left) payload
order_of_conditions =
    matches-SameMembers num lang_clause none_left none_left year_clause none_left none_left payload
      clauses_same none_same none_same

abbrev no_conditions : Conditions ℕ ℕ
no_conditions = none_left

matches_iff_example : (matches num english payload ≡ true) ↔ (
    AllMatch num lang_clause payload
    × ((no_conditions ≡ none_left) ⊎ SomeMatch num none_left payload)
    × NoneMatches num none_left payload)
matches_iff_example = matches_iff num lang_clause none_left none_left payload

-- Two indexes, with the payload in slot 1 and a year in slot 2.
abbrev other : Option (Value (ℕ ⊎ ℕ))
other = some (object (field "year" (number (inl 2018)) last))

abbrev declared : PayloadIndexes num bits
declared = new num bits (("year", integer_kind) ∷ ("lang", keyword_kind) ∷ [])

abbrev indexes : PayloadIndexes num bits
indexes = insert num bits (insert num bits declared 1 payload) 2 other

abbrev Index : Type 0
Index = KeyIndex ℕ ℕ (ℕ → Bool)

index_kinds :
    (m : List (String × (ℕ → Bool))) (n : List (ℕ × (ℕ → Bool))) (a b : Bool) (idx : Index)
    (v : Value (ℕ ⊎ ℕ))
    → (if a then some (keywords m) else if b then some (integers n) else none) ≡ some idx
    → (if a then some (string "en") else if b then some (number (inl 2024)) else none) ≡ some v
    → Exact num bits idx v
index_kinds m n true b idx v i l =
    subst (λ x. Exact num bits x v) (some_inj i)
      (subst (λ w. Exact num bits (keywords m) w) (some_inj l) exact_keyword)
index_kinds m n false true idx v i l =
    subst (λ x. Exact num bits x v) (some_inj i)
      (subst (λ w. Exact num bits (integers n) w) (some_inj l)
        (exact_integer 2024 refl refl (λ i e. (==_iff 2024 i).0 e)))
index_kinds m n false false idx v i l = cc

indexes_exact : ExactAt num bits indexes payload
unfolding insert new collect Dict.insert Dict.remove lookup each_indexed index_of KeyIndex.add same
    as_object get_field
indexes_exact key idx v i l = index_kinds _ _ (same "lang" key) (same "year" key) idx v i l

abbrev or_none : Option (ℕ → Bool) → ℕ → Bool
or_none none t = false
or_none (some b) t = b t

abbrev found : ℕ → Bool
found = or_none (candidates num bits indexes english)

found_eq : candidates num bits indexes english ≡ some found
unfolding candidates insert new collect Dict.insert Dict.remove each_indexed index_of KeyIndex.add
    same as_object get_field answer
found_eq = refl

candidates-Since_example : found 1 ≡ true
candidates-Since_example =
    candidates-Since num bits indexes 1 payload english found
      (then_insert 2 other (inserted declared)) indexes_exact english_found found_eq

-- Without the condition on the kinds it fails: 2024.0 at an integer index.
abbrev year_only : Filter ℕ ℕ
year_only = filter (cond_then (is_eq "year" (integer 2024)) none_left) none_left none_left

abbrev fraction : Option (Value (ℕ ⊎ ℕ))
fraction = some (object (field "year" (number (inr 2024)) last))

fraction_found : matches num year_only fraction ≡ true
unfolding matches same
fraction_found = refl

fraction_missed :
    or_none (candidates num bits (insert num bits indexes 3 fraction) year_only) 3 ≡ false
unfolding candidates insert new collect Dict.insert Dict.remove each_indexed index_of KeyIndex.add
    same as_object get_field answer
fraction_missed = refl
