-- ===== src/Filter.antt =====
-- crates/veclite/src/filter/mod.rs: payload filters, their evaluation and their validation. JSON
-- values are those of the crate serde_json; its numbers, and i64 and f64, are a parameter.
pub mod Eval
pub mod Validate
pub mod Parse
pub mod Meaning
pub mod Keys
pub mod Print
pub mod Postings
pub mod KeyIndex
pub mod Index
pub mod Sealed
use veclite.Base.{
  ℕ, ◌≡◌, ◌↔◌, String, Bool, true, false, not, ◌&&◌, ◌||◌, Option, none, some, List, [], ◌∷◌,
  if◌then◌else◌, same, ◌>>=?◌,
}
use veclite.Error.{VecLiteError, Result, ok, err, invalid_argument, ◌>>=◌, ◌>>◌}

-- What the code does with serde_json's `Number`, i64 and f64.
pub record Numbers : Type 1 where
  pub Number : Type 0
  pub Int : Type 0
  pub Float : Type 0
  pub as_i64 : Number → Option Int
  pub as_f64 : Number → Option Float
  pub of_i64 : Int → Float
  pub int_eq : Int → Int → Bool
  pub int_eq_iff : (i j : Int) → (int_eq i j ≡ true) ↔ (i ≡ j)
  pub eq : Float → Float → Bool
  pub lt : Float → Float → Bool
  pub le : Float → Float → Bool
  -- `total_cmp(..) == Equal`
  pub total_eq : Float → Float → Bool
  pub total_eq_iff : (x y : Float) → (total_eq x y ≡ true) ↔ (x ≡ y)

-- `Value` of serde_json.
mutual
  pub data Value (N : Type 0) : Type 0 where
    null : Value N
    boolean : Bool → Value N
    number : N → Value N
    string : String → Value N
    array : Items N → Value N
    object : Fields N → Value N

  pub data Items (N : Type 0) : Type 0 where
    end : Items N
    item : Value N → Items N → Items N

  pub data Fields (N : Type 0) : Type 0 where
    last : Fields N
    field : String → Value N → Fields N → Fields N

pub data MatchValue (I : Type 0) : Type 0 where
  keyword : String → MatchValue I
  integer : I → MatchValue I
  flag : Bool → MatchValue I

pub record Range (F : Type 0) : Type 0 where
  pub gt : Option F
  pub gte : Option F
  pub lt : Option F
  pub lte : Option F

mutual
  pub data Condition (I F : Type 0) : Type 0 where
    is_eq : String → MatchValue I → Condition I F
    is_in : String → List (MatchValue I) → Condition I F
    in_range : String → Range F → Condition I F
    exists : String → Condition I F
    nested : Filter I F → Condition I F

  pub data Conditions (I F : Type 0) : Type 0 where
    none_left : Conditions I F
    cond_then : Condition I F → Conditions I F → Conditions I F

  -- `must`, `should`, `must_not`.
  pub data Filter (I F : Type 0) : Type 0 where
    filter : Conditions I F → Conditions I F → Conditions I F → Filter I F

module _ {N : Type 0} where
  -- `get` of a JSON object.
  unfoldable pub get_field : String → Fields N → Option (Value N)
  get_field k last = none
  get_field k (field j v fs) = if same j k then some v else get_field k fs

  unfoldable pub as_object : Value N → Option (Fields N)
  as_object (object fs) = some fs
  as_object _ = none

  unfoldable pub as_str : Value N → Option String
  as_str (string s) = some s
  as_str _ = none

  unfoldable pub as_bool : Value N → Option Bool
  as_bool (boolean b) = some b
  as_bool _ = none

  unfoldable pub as_number : Value N → Option N
  as_number (number n) = some n
  as_number _ = none

-- `is_some_and` and `is_none_or`.
abbrev pub is_some_and : {A : Type 0} → Option A → (A → Bool) → Bool
is_some_and none test = false
is_some_and (some a) test = test a

abbrev pub is_none_or : {A : Type 0} → Option A → (A → Bool) → Bool
is_none_or none test = true
is_none_or (some a) test = test a

unfoldable pub lookup : {N : Type 0} → Option (Value N) → String → Option (Value N)
unfolding as_object get_field
lookup payload key = payload >>=? λ v. as_object v >>=? λ o. get_field key o

abbrev pub bool_eq : Bool → Bool → Bool
bool_eq true b = b
bool_eq false b = not b
