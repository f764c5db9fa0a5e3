-- ===== src/Filter/Print.antt =====
-- Which filters `Filter::from_json` of filter/mod.rs can return. The code prints no filters: the documents
-- here are the witnesses of the proof. As in serde_json, an i64 is a number that is read back, and a
-- finite f64 is; of NaN and the infinities, which have no number, nothing is supposed.
use veclite.Base.{ap, ◌∙◌, ◌≡◌, refl, String, true, same, Option, none, some, List, [], ◌∷◌}
use veclite.Error.{ok, ◌>>◌, >>=-eq-ok}
use veclite.Filter.{
  Numbers, Value, null, boolean, number, string, array, object, Fields, last, field, Items, end,
  item, Condition, is_eq, is_in, in_range, exists, nested, Conditions, none_left, cond_then, Filter,
  filter, MatchValue, keyword, integer, flag, Range, get_field, as_str,
}
use veclite.Filter.Validate.{validate_condition, validate_all, validate, check_key}
use veclite.Filter.Parse.{
  from_json, condition_from_json, conditions_from_json, clauses_from_json, match_from_json,
  matches_from_json, bound, plain_condition, empty_filter,
}
use veclite.Filter.Keys.{check_key-plain}

module _ (num : Numbers) where
  open num use {Number, Int, Float}

  module _ (number_of_i64 : Int → Number)
      (as_i64-number : (i : Int) → num.as_i64 (number_of_i64 i) ≡ some i) (Finite : Float → Type 0)
      (value_of_f64 : Float → Value Number)
      (value_of_f64-finite : (x : Float)
        → Finite x
        → (n : Number) × (value_of_f64 x ≡ number n) × (num.as_f64 n ≡ some x)) where
    unfoldable pub FiniteBound : Option Float → Type 0
    FiniteBound none = Unit
    FiniteBound (some x) = Finite x

    unfoldable pub FiniteRange : Range Float → Type 0
    FiniteRange r =
        FiniteBound (r.gt) × FiniteBound (r.gte) × FiniteBound (r.lt) × FiniteBound (r.lte)

    -- All bounds of the ranges of a filter are finite, at any depth.
    unfoldable mutual
      pub FiniteCondition : Condition Int Float → Type 0
      FiniteCondition (is_eq key value) = Unit
      FiniteCondition (is_in key values) = Unit
      FiniteCondition (in_range key range) = FiniteRange range
      FiniteCondition (exists key) = Unit
      FiniteCondition (nested inner) = FiniteFilter inner

      pub FiniteConditions : Conditions Int Float → Type 0
      FiniteConditions none_left = Unit
      FiniteConditions (cond_then c cs) = FiniteCondition c × FiniteConditions cs

      pub FiniteFilter : Filter Int Float → Type 0
      FiniteFilter (filter must should must_not) =
          FiniteConditions must × FiniteConditions should × FiniteConditions must_not

    match_to_json : MatchValue Int → Value Number
    match_to_json (keyword s) = string s
    match_to_json (integer i) = number (number_of_i64 i)
    match_to_json (flag b) = boolean b

    matches_to_json : List (MatchValue Int) → Items Number
    matches_to_json [] = end
    matches_to_json (m ∷ ms) = item (match_to_json m) (matches_to_json ms)

    bound_to_json : Option Float → Value Number
    bound_to_json none = null
    bound_to_json (some x) = value_of_f64 x

    range_to_json : Range Float → Value Number
    range_to_json r = object (
        field "gt" (bound_to_json (r.gt)) (
          field "gte" (bound_to_json (r.gte))
            (field "lt" (bound_to_json (r.lt)) (field "lte" (bound_to_json (r.lte)) last))))

    match_clause_to_json : String → String → Value Number → Value Number
    match_clause_to_json key name v =
        object (field "key" (string key) (field "match" (object (field name v last)) last))

    mutual
      condition_to_json : Condition Int Float → Value Number
      condition_to_json (is_eq key value) = match_clause_to_json key "value" (match_to_json value)
      condition_to_json (is_in key values) =
          match_clause_to_json key "any" (array (matches_to_json values))
      condition_to_json (in_range key range) =
          object (field "key" (string key) (field "range" (range_to_json range) last))
      condition_to_json (exists key) =
          object (field "key" (string key) (field "exists" (boolean true) last))
      condition_to_json (nested inner) = object (to_fields inner)

      conditions_to_json : Conditions Int Float → Items Number
      conditions_to_json none_left = end
      conditions_to_json (cond_then c cs) = item (condition_to_json c) (conditions_to_json cs)

      to_fields : Filter Int Float → Fields Number
      to_fields (filter must should must_not) = field "must" (array (conditions_to_json must)) (
          field "should" (array (conditions_to_json should))
            (field "must_not" (array (conditions_to_json must_not)) last))

    match_from_json-match_to_json :
        (m : MatchValue Int) → match_from_json num (match_to_json m) ≡ ok m
    unfolding match_from_json match_to_json
    match_from_json-match_to_json (keyword s) = refl
    match_from_json-match_to_json (integer i) = rw (as_i64-number i) refl
    match_from_json-match_to_json (flag b) = refl

    matches_from_json-matches_to_json :
        (ms : List (MatchValue Int)) → matches_from_json num (matches_to_json ms) ≡ ok ms
    unfolding matches_from_json matches_to_json
    matches_from_json-matches_to_json [] = refl
    matches_from_json-matches_to_json (m ∷ ms) =
        rw (match_from_json-match_to_json m, matches_from_json-matches_to_json ms) refl

    bound-bound_to_json :
        (o : Option Float) → FiniteBound o → bound num (some (bound_to_json o)) ≡ ok o
    unfolding bound bound_to_json FiniteBound
    bound-bound_to_json none h = refl
    bound-bound_to_json (some x) h =
        let (n, printed, read) = value_of_f64-finite x h in
        ap (λ v. bound num (some v)) printed ∙ rw read refl

    read_eq :
        (key : String) (m : MatchValue Int)
        → check_key key ≡ ok tt
        → condition_from_json num (condition_to_json (is_eq key m)) ≡ ok (is_eq key m)
    unfolding condition_from_json plain_condition condition_to_json match_clause_to_json get_field
        same as_str
    read_eq key m h = rw (check_key-plain key h, match_from_json-match_to_json m) refl

    read_in :
        (key : String) (ms : List (MatchValue Int))
        → check_key key ≡ ok tt
        → condition_from_json num (condition_to_json (is_in key ms)) ≡ ok (is_in key ms)
    unfolding condition_from_json plain_condition condition_to_json match_clause_to_json get_field
        same as_str
    read_in key ms h = rw (check_key-plain key h, matches_from_json-matches_to_json ms) refl

    read_range :
        (key : String) (r : Range Float)
        → FiniteRange r
        → check_key key ≡ ok tt
        → condition_from_json num (condition_to_json (in_range key r)) ≡ ok (in_range key r)
    unfolding condition_from_json plain_condition condition_to_json range_to_json get_field same
        as_str FiniteRange
    read_range key r (a, b, c, d) h =
        rw
          (
            check_key-plain key h,
            bound-bound_to_json (r.gt) a,
            bound-bound_to_json (r.gte) b,
            bound-bound_to_json (r.lt) c,
            bound-bound_to_json (r.lte) d,
          )
          refl

    read_exists :
        (key : String)
        → check_key key ≡ ok tt
        → condition_from_json num (condition_to_json (exists key)) ≡ ok (exists key)
    unfolding condition_from_json plain_condition condition_to_json get_field same as_str
    read_exists key h = rw (check_key-plain key h) refl

    mutual
      unfolding condition_from_json conditions_from_json clauses_from_json condition_to_json
          conditions_to_json to_fields FiniteCondition FiniteConditions FiniteFilter
          validate_condition validate_all validate get_field same

      read_condition :
          (c : Condition Int Float)
          → FiniteCondition c
          → validate_condition c ≡ ok tt
          → condition_from_json num (condition_to_json c) ≡ ok c
      read_condition (is_eq key m) w h = read_eq key m h
      read_condition (is_in key ms) w h = read_in key ms h
      read_condition (in_range key r) w h = read_range key r w h
      read_condition (exists key) w h = read_exists key h
      read_condition (nested (filter must should must_not)) w h =
          rw (read_fields (filter must should must_not) w h, h) refl

      read_conditions :
          (cs : Conditions Int Float)
          → FiniteConditions cs
          → validate_all cs ≡ ok tt
          → conditions_from_json num (conditions_to_json cs) ≡ ok cs
      read_conditions none_left w h = refl
      read_conditions (cond_then c cs) w h =
          let s = >>=-eq-ok (validate_condition c) (λ _. validate_all cs) h in
          rw (read_condition c (w.0) (s.1), read_conditions cs (w.1) (s.2)) refl

      read_fields :
          (f : Filter Int Float)
          → FiniteFilter f
          → validate f ≡ ok tt
          → clauses_from_json num (to_fields f) (empty_filter num) ≡ ok f
      read_fields (filter must should must_not) w h =
          let s =
            >>=-eq-ok (validate_all must) (λ _. validate_all should >> validate_all must_not) h in
          let t = >>=-eq-ok (validate_all should) (λ _. validate_all must_not) (s.2) in
          rw
            (
              read_conditions must (w.0) (s.1),
              read_conditions should (w.1) (t.1),
              read_conditions must_not (w.2) (t.2),
            )
            refl

    -- The parser returns every filter that `validate` accepts and whose bounds are finite.
    pub from_json_onto :
        (f : Filter Int Float)
        → FiniteFilter f
        → validate f ≡ ok tt
        → (document : Value Number) × (from_json num document ≡ ok f)
    unfolding from_json
    from_json_onto f w h = (object (to_fields f), rw (read_fields f w h, h) refl)
