-- ===== src/Filter/Validate.antt =====
-- `Filter::validate` of filter/mod.rs.
use text.Mathlib.Text.{find?}
use veclite.Base.{String, Bool, true, if◌then◌else◌}
use veclite.Error.{VecLiteError, Result, ok, err, invalid_argument, ◌>>◌}
use veclite.Filter.{
  Condition, is_eq, is_in, in_range, exists, nested, Conditions, none_left, cond_then, Filter,
  filter, is_some_and,
}

-- `contains('.')`
unfoldable pub has_dot : String → Bool
has_dot key = is_some_and (find? key ".") (λ _. true)

unfoldable pub unsupported : String → VecLiteError
unsupported feature = invalid_argument feature

-- What is checked of a condition that has a key.
abbrev pub check_key : String → Result (Unit {0})
check_key key =
    if has_dot key
    then err (unsupported "unsupported filter feature: nested-path key '{}'")
    else ok tt

module _ {I F : Type 0} where
  unfoldable mutual
    unfolding has_dot unsupported

    pub validate_condition : Condition I F → Result (Unit {0})
    validate_condition (nested inner) = validate inner
    validate_condition (is_eq key value) = check_key key
    validate_condition (is_in key values) = check_key key
    validate_condition (in_range key range) = check_key key
    validate_condition (exists key) = check_key key

    pub validate_all : Conditions I F → Result (Unit {0})
    validate_all none_left = ok tt
    validate_all (cond_then c cs) = validate_condition c >> validate_all cs

    pub validate : Filter I F → Result (Unit {0})
    validate (filter must should must_not) =
        validate_all must >> (validate_all should >> validate_all must_not)
