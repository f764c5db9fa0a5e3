-- ===== src/Filter/Eval.antt =====
-- `Filter::matches` of filter/mod.rs and the functions it calls.
use veclite.Base.{Bool, true, false, not, ◌&&◌, ◌||◌, Option, List, [], ◌∷◌, same, ◌>>=?◌}
use veclite.Filter.{
  Numbers, Value, MatchValue, keyword, integer, flag, Range, Condition, is_eq, is_in, in_range,
  exists, nested, Conditions, none_left, cond_then, Filter, filter, as_str, as_bool, as_number,
  lookup, is_some_and, is_none_or, bool_eq,
}

module _ (num : Numbers) where
  open num use {Number, Int, Float}

  unfoldable pub value_as_i64 : Value Number → Option Int
  unfolding as_number
  value_as_i64 v = as_number v >>=? num.as_i64

  unfoldable pub value_as_f64 : Value Number → Option Float
  unfolding as_number
  value_as_f64 v = as_number v >>=? num.as_f64

  unfoldable pub matches_stored : MatchValue Int → Value Number → Bool
  unfolding as_str as_bool value_as_i64 value_as_f64
  matches_stored (keyword s) stored = is_some_and (as_str stored) (λ t. same t s)
  matches_stored (flag b) stored = is_some_and (as_bool stored) (λ c. bool_eq c b)
  matches_stored (integer i) stored =
      is_some_and (value_as_i64 stored) (λ j. num.int_eq j i)
      || is_some_and (value_as_f64 stored) (λ x. num.eq x (num.of_i64 i))

  unfoldable pub matches_any : List (MatchValue Int) → Value Number → Bool
  unfolding matches_stored
  matches_any [] stored = false
  matches_any (v ∷ vs) stored = matches_stored v stored || matches_any vs stored

  -- `Range::contains`; `x > b` is `b < x`.
  unfoldable pub range_contains : Range Float → Float → Bool
  range_contains r x =
      is_none_or r.gt (λ b. num.lt b x)
      && (is_none_or r.gte (λ b. num.le b x)
          && (is_none_or r.lt (λ b. num.lt x b) && is_none_or r.lte (λ b. num.le x b)))

  abbrev pub is_empty : Conditions Int Float → Bool
  is_empty none_left = true
  is_empty (cond_then c cs) = false

  unfoldable mutual
    unfolding lookup matches_stored matches_any range_contains value_as_f64

    pub condition_matches : Condition Int Float → Option (Value Number) → Bool
    condition_matches (is_eq key value) payload =
        is_some_and (lookup payload key) (λ stored. matches_stored value stored)
    condition_matches (is_in key values) payload =
        is_some_and (lookup payload key) (λ stored. matches_any values stored)
    condition_matches (in_range key range) payload =
        is_some_and (lookup payload key >>=? value_as_f64) (λ x. range_contains range x)
    condition_matches (exists key) payload = is_some_and (lookup payload key) (λ _. true)
    condition_matches (nested inner) payload = matches inner payload

    pub all_match : Conditions Int Float → Option (Value Number) → Bool
    all_match none_left payload = true
    all_match (cond_then c cs) payload = condition_matches c payload && all_match cs payload

    pub any_matches : Conditions Int Float → Option (Value Number) → Bool
    any_matches none_left payload = false
    any_matches (cond_then c cs) payload = condition_matches c payload || any_matches cs payload

    pub matches : Filter Int Float → Option (Value Number) → Bool
    matches (filter must should must_not) payload =
        all_match must payload
        && ((is_empty should || any_matches should payload) && not (any_matches must_not payload))
