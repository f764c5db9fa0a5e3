-- ===== src/Filter/Parse.antt =====
-- `Filter::from_json` and `Condition::from_json` of filter/mod.rs. The two call each other on one
-- document, here on the fields of its object.
use veclite.Base.{
  ◌≡◌, ap, sym, ◌∙◌, String, Bool, true, false, ◌||◌, Option, none, some, List, [], ◌∷◌,
  if◌then◌else◌, same,
}
use veclite.Error.{Result, ok, err, invalid_argument, ◌>>=◌, ◌>>◌, >>=-eq-ok, ok_inj}
use veclite.Filter.{
  Numbers, Value, null, boolean, number, string, array, object, Fields, last, field, Items, end,
  item, MatchValue, keyword, integer, flag, Condition, is_eq, is_in, in_range, exists, nested,
  Conditions, none_left, cond_then, Filter, filter, get_field, as_str, is_some_and,
}
use veclite.Filter.Validate.{has_dot, unsupported, validate}

abbrev contains_key : {N : Type 0} → Fields N → String → Bool
contains_key fs key = is_some_and (get_field key fs) (λ _. true)

module _ (num : Numbers) where
  open num use {Number, Int, Float}

  match_integer : Option Int → Result (MatchValue Int)
  match_integer (some i) = ok (integer i)
  match_integer none =
      err (unsupported "unsupported filter feature: float match value (use a range condition)")

  unfoldable pub match_from_json : Value Number → Result (MatchValue Int)
  unfolding match_integer
  match_from_json (string s) = ok (keyword s)
  match_from_json (boolean b) = ok (flag b)
  match_from_json (number n) = match_integer (num.as_i64 n)
  match_from_json _ = err (unsupported "unsupported filter feature: match value {}")

  unfoldable pub matches_from_json : Items Number → Result (List (MatchValue Int))
  unfolding match_from_json
  matches_from_json end = ok []
  matches_from_json (item v vs) = do m ← match_from_json v; ms ← matches_from_json vs; ok (m ∷ ms)

  match_any_clause : String → Option (Value Number) → Result (Condition Int Float)
  unfolding matches_from_json
  match_any_clause key none = err (invalid_argument "'match' must have 'value' or 'any'")
  match_any_clause key (some (array vs)) = do values ← matches_from_json vs; ok (is_in key values)
  match_any_clause key (some _) = err (invalid_argument "'match.any' must be an array")

  match_value_clause :
      String → Option (Value Number) → Option (Value Number) → Result (Condition Int Float)
  unfolding match_any_clause
  match_value_clause key (some v) any = do value ← match_from_json v; ok (is_eq key value)
  match_value_clause key none any = match_any_clause key any

  match_clause : String → Value Number → Result (Condition Int Float)
  unfolding match_value_clause
  match_clause key (object m) = match_value_clause key (get_field "value" m) (get_field "any" m)
  match_clause key _ = err (invalid_argument "'match' must be an object")

  bound_value : Option Float → Result (Option Float)
  bound_value (some x) = ok (some x)
  bound_value none = err (invalid_argument "range '{}' must be a number")

  unfoldable pub bound : Option (Value Number) → Result (Option Float)
  unfolding bound_value
  bound none = ok none
  bound (some null) = ok none
  bound (some (boolean b)) = err (invalid_argument "range '{}' must be a number")
  bound (some (number n)) = bound_value (num.as_f64 n)
  bound (some (string s)) = err (invalid_argument "range '{}' must be a number")
  bound (some (array vs)) = err (invalid_argument "range '{}' must be a number")
  bound (some (object o)) = err (invalid_argument "range '{}' must be a number")

  range_clause : String → Value Number → Result (Condition Int Float)
  unfolding bound
  range_clause key (object r) = do
    gt ← bound (get_field "gt" r)
    gte ← bound (get_field "gte" r)
    lt ← bound (get_field "lt" r)
    lte ← bound (get_field "lte" r)
    ok (in_range key (record { gt = gt; gte = gte; lt = lt; lte = lte }))
  range_clause key _ = err (invalid_argument "'range' must be an object")

  presence_clause : String → Bool → Result (Condition Int Float)
  presence_clause key true = ok (exists key)
  presence_clause key false =
      err (invalid_argument "condition on '{}' has no match/range/exists clause")

  range_or_presence : String → Option (Value Number) → Fields Number → Result (Condition Int Float)
  unfolding range_clause presence_clause
  range_or_presence key (some r) o = range_clause key r
  range_or_presence key none o =
      presence_clause key (contains_key o "exists" || contains_key o "is_empty")

  clause_on : String → Option (Value Number) → Fields Number → Result (Condition Int Float)
  unfolding match_clause range_or_presence
  clause_on key (some m) o = match_clause key m
  clause_on key none o = range_or_presence key (get_field "range" o) o

  keyed : Option String → Fields Number → Result (Condition Int Float)
  unfolding clause_on
  keyed none o = err (invalid_argument "condition missing 'key'")
  keyed (some key) o =
      if has_dot key
      then err (unsupported "unsupported filter feature: nested-path key '{}'")
      else clause_on key (get_field "match" o) o

  text_of : Option (Value Number) → Option String
  text_of none = none
  text_of (some v) = as_str v

  -- A condition that is not itself a filter.
  unfoldable pub plain_condition : Fields Number → Result (Condition Int Float)
  unfolding keyed text_of
  plain_condition o =
      if contains_key o "geo_radius"
        || (contains_key o "geo_bounding_box" || contains_key o "geo_polygon")
      then err (unsupported "unsupported filter feature: geo condition '{}'")
      else keyed (text_of (get_field "key" o)) o

  abbrev is_filter : Fields Number → Bool
  is_filter o = contains_key o "must" || (contains_key o "should" || contains_key o "must_not")

  set_clause : String → Conditions Int Float → Filter Int Float → Result (Filter Int Float)
  set_clause clause parsed (filter must should must_not) =
      if same clause "must"
      then ok (filter parsed should must_not)
      else if same clause "should"
      then ok (filter must parsed must_not)
      else if same clause "must_not"
      then ok (filter must should parsed)
      else err (invalid_argument "unknown filter clause '{}' (expected must/should/must_not)")

  validated : Filter Int Float → Result (Filter Int Float)
  validated f = validate f >> ok f

  abbrev pub empty_filter : Filter Int Float
  empty_filter = filter none_left none_left none_left

  unfoldable mutual
    unfolding set_clause validated plain_condition

    pub condition_from_json : Value Number → Result (Condition Int Float)
    condition_from_json (object o) = elim (is_filter o) [
      | true ↦ do f ← clauses_from_json o empty_filter; g ← validated f; ok (nested g)
      | false ↦ plain_condition o
    ]
    condition_from_json _ = err (invalid_argument "condition must be a JSON object")

    pub conditions_from_json : Items Number → Result (Conditions Int Float)
    conditions_from_json end = ok none_left
    conditions_from_json (item v vs) = do
      c ← condition_from_json v
      cs ← conditions_from_json vs
      ok (cond_then c cs)

    pub list_from_json : Value Number → Result (Conditions Int Float)
    list_from_json (array vs) = conditions_from_json vs
    list_from_json _ = err (invalid_argument "filter clause '{}' must be an array")

    -- The loop over the clauses of a filter, which fills `acc`.
    pub clauses_from_json : Fields Number → Filter Int Float → Result (Filter Int Float)
    clauses_from_json last acc = ok acc
    clauses_from_json (field clause conds rest) acc = do
      parsed ← list_from_json conds
      acc' ← set_clause clause parsed acc
      clauses_from_json rest acc'

  unfoldable pub from_json : Value Number → Result (Filter Int Float)
  unfolding validated
  from_json (object o) = do f ← clauses_from_json o empty_filter; validated f
  from_json _ = err (invalid_argument "filter must be a JSON object")

  validated-eq : (f g : Filter Int Float) → validated f ≡ ok g → validate g ≡ ok tt
  unfolding validated
  validated-eq f g h =
      let r = >>=-eq-ok (validate f) (λ _. ok f) h in ap validate (sym (ok_inj (r.2))) ∙ r.1

  pub from_json-validate :
      (v : Value Number) (f : Filter Int Float) → from_json v ≡ ok f → validate f ≡ ok tt
  unfolding from_json
  from_json-validate (object o) f h =
      let r = >>=-eq-ok (clauses_from_json o empty_filter) (λ g. validated g) h in
      validated-eq (r.0) f (r.2)
  from_json-validate null f h = cc
  from_json-validate (boolean b) f h = cc
  from_json-validate (number n) f h = cc
  from_json-validate (string s) f h = cc
  from_json-validate (array vs) f h = cc
