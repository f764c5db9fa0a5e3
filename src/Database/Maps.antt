-- ===== src/Database/Maps.antt =====
-- The loops of database.rs over the aliases of a collection.
use veclite.Base.{
  ◌≡◌, refl, ap, sym, ◌∙◌, subst, String, Bool, true, false, ◌||◌, none, some, List, [], ◌∷◌, ◌++◌,
  same, same-eq, if◌then◌else◌, Bool-cases, inl, inr,
}
use veclite.Dict.{get, insert, remove, get-insert, get-insert_other, get-remove, get-remove_other}

-- `retain(|a| a != name)`
unfoldable pub without : String → List String → List String
without name [] = []
without name (a ∷ names) = if same a name then without name names else a ∷ without name names

-- `for alias in inner.aliases { aliases.remove(alias) }`
unfoldable pub remove_all : List String → List (String × String) → List (String × String)
unfolding remove
remove_all [] m = m
remove_all (a ∷ names) m = remove_all names (remove a m)

-- `for alias in inner.aliases { aliases.insert(alias, to) }`
unfoldable pub repoint : List String → String → List (String × String) → List (String × String)
unfolding insert
repoint [] to m = m
repoint (a ∷ names) to m = repoint names to (insert a to m)

-- `contains`
unfoldable pub listed : String → List String → Bool
listed name [] = false
listed name (a ∷ names) = same a name || listed name names

or_false : (b : Bool) → (b || false) ≡ b
or_false true = refl
or_false false = refl

or_assoc : (a b c : Bool) → ((a || b) || c) ≡ (a || (b || c))
or_assoc true b c = refl
or_assoc false b c = refl

if_same : {A : Type 0} (b : Bool) {x : A} → (if b then x else x) ≡ x
if_same true = refl
if_same false = refl

pub listed-append :
    (a b : String) (names : List String) → listed a (names ++ b ∷ []) ≡ (listed a names || same b a)
unfolding listed
listed-append a b [] = or_false (same b a)
listed-append a b (c ∷ names) =
    ap (λ r. same c a || r) (listed-append a b names)
    ∙ sym (or_assoc (same c a) (listed a names) (same b a))

pub listed-without : (a : String) (names : List String) → listed a (without a names) ≡ false
unfolding listed without
listed-without a [] = refl
listed-without a (c ∷ names) = elim (Bool-cases (same c a)) [
  | inl e ↦ rw (e) (listed-without a names)
  | inr e ↦ rw (e) (rw (e) (listed-without a names))
]

pub listed-without_other :
    (a b : String) (names : List String)
    → same b a ≡ false
    → listed a (without b names) ≡ listed a names
unfolding listed without
listed-without_other a b [] d = refl
listed-without_other a b (c ∷ names) d = elim (Bool-cases (same c b)) [
  | inl e ↦
      let h : same c a ≡ false = ap (λ x. same x a) (same-eq c b e) ∙ d in
      rw (e) (rw (h) (listed-without_other a b names d))
  | inr e ↦ rw (e) (ap (λ r. same c a || r) (listed-without_other a b names d))
]

pub get-remove_all :
    (a : String) (names : List String) (m : List (String × String))
    → get a (remove_all names m) ≡ (if listed a names then none else get a m)
unfolding remove_all listed
get-remove_all a [] m = refl
get-remove_all a (c ∷ names) m = elim (Bool-cases (same c a)) [
  | inl e ↦
      get-remove_all a names (remove c m)
      ∙ ap (λ r. if listed a names then none else r)
          (subst (λ k. get k (remove c m) ≡ none) (same-eq c a e) (get-remove c m))
      ∙ if_same (listed a names)
      ∙ sym (ap (λ b. if b || listed a names then none else get a m) e)
  | inr e ↦
      get-remove_all a names (remove c m)
      ∙ ap (λ r. if listed a names then none else r) (get-remove_other c a m e)
      ∙ sym (ap (λ b. if b || listed a names then none else get a m) e)
]

pub get-repoint :
    (a : String) (names : List String) (to : String) (m : List (String × String))
    → get a (repoint names to m) ≡ (if listed a names then some to else get a m)
unfolding repoint listed
get-repoint a [] to m = refl
get-repoint a (c ∷ names) to m = elim (Bool-cases (same c a)) [
  | inl e ↦
      get-repoint a names to (insert c to m)
      ∙ ap (λ r. if listed a names then some to else r)
          (subst (λ k. get k (insert c to m) ≡ some to) (same-eq c a e) (get-insert c to m))
      ∙ if_same (listed a names)
      ∙ sym (ap (λ b. if b || listed a names then some to else get a m) e)
  | inr e ↦
      get-repoint a names to (insert c to m)
      ∙ ap (λ r. if listed a names then some to else r) (get-insert_other c a to m e)
      ∙ sym (ap (λ b. if b || listed a names then some to else get a m) e)
]
