-- ===== src/Filter/Keys.antt =====
-- The keys that a filter names, and what `Filter::validate` of filter/mod.rs says of them.
use veclite.Base.{◌≡◌, String, false, List, arith}
use veclite.Error.{ok, ◌>>◌, >>=-eq-ok}
use veclite.Filter.{
  Numbers, Value, Condition, is_eq, is_in, in_range, exists, nested, Conditions, cond_then, Filter,
  filter, MatchValue, Range,
}
use veclite.Filter.Validate.{has_dot, validate_condition, validate_all, validate, check_key}
use veclite.Filter.Parse.{from_json, from_json-validate}

pub check_key-plain : (k : String) → check_key k ≡ ok tt → has_dot k ≡ false
check_key-plain k h = ground arith

module _ {I F : Type 0} where
  -- A filter names a key, at any depth.
  mutual
    pub data ConditionNames : String → Condition I F → Type 0 where
      names_eq : {k : String} {v : MatchValue I} → ConditionNames k (is_eq k v)
      names_in : {k : String} {vs : List (MatchValue I)} → ConditionNames k (is_in k vs)
      names_range : {k : String} {r : Range F} → ConditionNames k (in_range k r)
      names_exists : {k : String} → ConditionNames k (exists k)
      names_nested : {k : String} {f : Filter I F} → Names k f → ConditionNames k (nested f)

    pub data SomeNames : String → Conditions I F → Type 0 where
      named_here :
          {k : String} {c : Condition I F} {cs : Conditions I F}
          → ConditionNames k c
          → SomeNames k (cond_then c cs)
      named_there :
          {k : String} {c : Condition I F} {cs : Conditions I F}
          → SomeNames k cs
          → SomeNames k (cond_then c cs)

    pub data Names : String → Filter I F → Type 0 where
      names_must : {k : String} {a b c : Conditions I F} → SomeNames k a → Names k (filter a b c)
      names_should : {k : String} {a b c : Conditions I F} → SomeNames k b → Names k (filter a b c)
      names_must_not :
          {k : String} {a b c : Conditions I F} → SomeNames k c → Names k (filter a b c)

  mutual
    unfolding validate_condition validate_all validate

    pub validate_condition-plain :
        {k : String} {c : Condition I F}
        → ConditionNames k c
        → validate_condition c ≡ ok tt
        → has_dot k ≡ false
    validate_condition-plain {k = k} names_eq h = check_key-plain k h
    validate_condition-plain {k = k} names_in h = check_key-plain k h
    validate_condition-plain {k = k} names_range h = check_key-plain k h
    validate_condition-plain {k = k} names_exists h = check_key-plain k h
    validate_condition-plain (names_nested n) h = validate-plain n h

    pub validate_all-plain :
        {k : String} {cs : Conditions I F}
        → SomeNames k cs
        → validate_all cs ≡ ok tt
        → has_dot k ≡ false
    validate_all-plain {cs = cond_then c cs} (named_here n) h =
        let s = >>=-eq-ok (validate_condition c) (λ _. validate_all cs) h in
        validate_condition-plain n (s.1)
    validate_all-plain {cs = cond_then c cs} (named_there n) h =
        let s = >>=-eq-ok (validate_condition c) (λ _. validate_all cs) h in
        validate_all-plain n (s.2)

    pub validate-plain :
        {k : String} {f : Filter I F} → Names k f → validate f ≡ ok tt → has_dot k ≡ false
    validate-plain {f = filter a b c} (names_must n) h =
        let s = >>=-eq-ok (validate_all a) (λ _. validate_all b >> validate_all c) h in
        validate_all-plain n (s.1)
    validate-plain {f = filter a b c} (names_should n) h =
        let s = >>=-eq-ok (validate_all a) (λ _. validate_all b >> validate_all c) h in
        let t = >>=-eq-ok (validate_all b) (λ _. validate_all c) (s.2) in validate_all-plain n (t.1)
    validate-plain {f = filter a b c} (names_must_not n) h =
        let s = >>=-eq-ok (validate_all a) (λ _. validate_all b >> validate_all c) h in
        let t = >>=-eq-ok (validate_all b) (λ _. validate_all c) (s.2) in validate_all-plain n (t.2)

module _ (num : Numbers) where
  open num use {Number, Int, Float}

  -- A filter that from_json accepts names no key with a dot, at any depth.
  pub from_json-Names :
      (v : Value Number) (f : Filter Int Float) (k : String)
      → from_json num v ≡ ok f
      → Names k f
      → has_dot k ≡ false
  from_json-Names v f k h n = validate-plain n (from_json-validate num v f h)
