-- ===== src/Filter/Meaning.antt =====
-- What a filter means: its clauses as sets of conditions.
use veclite.Base.{
  ◌≡◌, refl, ap, ap₂, sym, ◌↔◌, ◌⊎◌, inl, inr, Bool, true, false, not, ◌&&◌, ◌||◌, Option,
  Bool-cases, arith,
}
use veclite.Filter.{Numbers, Value, Condition, Conditions, none_left, cond_then, filter}
use veclite.Filter.Eval.{condition_matches, all_match, any_matches, is_empty, matches}

pub and_left : (a b : Bool) → (a && b) ≡ true → a ≡ true
and_left true b h = refl
and_left false b h = cc

pub and_right : (a b : Bool) → (a && b) ≡ true → b ≡ true
and_right true b h = h
and_right false b h = cc

bool_ext : (a b : Bool) → (a ≡ true → b ≡ true) → (b ≡ true → a ≡ true) → a ≡ b
bool_ext true b f g = sym (f refl)
bool_ext false true f g = g refl
bool_ext false false f g = refl

module _ {I F : Type 0} where
  infix 4 ◌∈◌
  -- A clause has a condition.
  pub data ◌∈◌ : Condition I F → Conditions I F → Type 0 where
    here : {c : Condition I F} {cs : Conditions I F} → c ∈ cond_then c cs
    there : {c d : Condition I F} {cs : Conditions I F} → c ∈ cs → c ∈ cond_then d cs

module _ (num : Numbers) where
  open num use {Number, Int, Float}

  all_match-true :
      (cs : Conditions Int Float) (p : Option (Value Number))
      → all_match num cs p ≡ true
      → (c : Condition Int Float) → c ∈ cs
      → condition_matches num c p ≡ true
  unfolding all_match
  all_match-true none_left p h d m = elim m [ ]
  all_match-true (cond_then c cs) p h _ here =
      and_left (condition_matches num c p) (all_match num cs p) h
  all_match-true (cond_then c cs) p h d (there m) =
      all_match-true cs p (and_right (condition_matches num c p) (all_match num cs p) h) d m

  true-all_match :
      (cs : Conditions Int Float) (p : Option (Value Number))
      → ((c : Condition Int Float) → c ∈ cs → condition_matches num c p ≡ true)
      → all_match num cs p ≡ true
  unfolding all_match
  true-all_match none_left p h = refl
  true-all_match (cond_then c cs) p h =
      ap₂ (λ a b. a && b) (h c here) (true-all_match cs p (λ d m. h d (there m)))

  any_matches-true :
      (cs : Conditions Int Float) (p : Option (Value Number))
      → any_matches num cs p ≡ true
      → (c : Condition Int Float) × (c ∈ cs) × (condition_matches num c p ≡ true)
  unfolding any_matches
  any_matches-true none_left p h = cc
  any_matches-true (cond_then c cs) p h = elim (Bool-cases (condition_matches num c p)) [
    | inl e ↦ (c, here, e)
    | inr e ↦
        let h' : any_matches num cs p ≡ true = ground arith in
        let r = any_matches-true cs p h' in (r.0, there (r.1), r.2)
  ]

  true-any_matches :
      {c : Condition Int Float} (cs : Conditions Int Float) (p : Option (Value Number))
      → c ∈ cs
      → condition_matches num c p ≡ true
      → any_matches num cs p ≡ true
  unfolding any_matches
  true-any_matches none_left p m h = elim m [ ]
  true-any_matches (cond_then c cs) p here h = ground arith
  true-any_matches (cond_then c cs) p (there m) h =
      let r = true-any_matches cs p m h in ground arith

  -- Some condition of a clause matches.
  abbrev pub SomeMatch : Conditions Int Float → Option (Value Number) → Type 0
  SomeMatch cs p = (c : Condition Int Float) × (c ∈ cs) × (condition_matches num c p ≡ true)

  abbrev pub AllMatch : Conditions Int Float → Option (Value Number) → Type 0
  AllMatch cs p = (c : Condition Int Float) → c ∈ cs → condition_matches num c p ≡ true

  abbrev pub NoneMatches : Conditions Int Float → Option (Value Number) → Type 0
  NoneMatches cs p = (c : Condition Int Float) → c ∈ cs → condition_matches num c p ≡ false

  any_matches-false :
      (cs : Conditions Int Float) (p : Option (Value Number))
      → not (any_matches num cs p) ≡ true
      → NoneMatches cs p
  any_matches-false cs p h c m = elim (Bool-cases (condition_matches num c p)) [
    | inl e ↦ let r = true-any_matches cs p m e in ground arith
    | inr e ↦ e
  ]

  false-any_matches :
      (cs : Conditions Int Float) (p : Option (Value Number))
      → NoneMatches cs p
      → not (any_matches num cs p) ≡ true
  false-any_matches cs p h = elim (Bool-cases (any_matches num cs p)) [
    | inl e ↦ let r = any_matches-true cs p e in let f = h (r.0) (r.1) in let t = r.2 in cc
    | inr e ↦ ap not e
  ]

  should_holds :
      (cs : Conditions Int Float) (p : Option (Value Number))
      → (is_empty num cs || any_matches num cs p) ≡ true
      → (cs ≡ none_left) ⊎ SomeMatch cs p
  should_holds none_left p h = inl refl
  should_holds (cond_then c cs) p h = inr (any_matches-true (cond_then c cs) p h)

  holds_should :
      (cs : Conditions Int Float) (p : Option (Value Number))
      → (cs ≡ none_left) ⊎ SomeMatch cs p
      → (is_empty num cs || any_matches num cs p) ≡ true
  holds_should none_left p h = refl
  holds_should (cond_then c cs) p (inl e) = cc
  holds_should (cond_then c cs) p (inr s) = true-any_matches (cond_then c cs) p (s.1) (s.2)

  -- A filter matches a payload if and only if all its `must` conditions do, some condition of
  -- `should` does or there is none, and no condition of `must_not` does.
  pub matches_iff :
      (must should must_not : Conditions Int Float) (p : Option (Value Number))
      → (matches num (filter must should must_not) p ≡ true)
        ↔ (AllMatch must p × ((should ≡ none_left) ⊎ SomeMatch should p) × NoneMatches must_not p)
  unfolding matches
  matches_iff must should must_not p = (
    λ h.
        let a = and_left (all_match num must p) _ h in
        let r = and_right (all_match num must p) _ h in
        (
          all_match-true must p a,
          should_holds should p (and_left (is_empty num should || any_matches num should p) _ r),
          any_matches-false must_not p
              (and_right (is_empty num should || any_matches num should p) _ r),
        ),
    λ m.
        ap₂ (λ a b. a && b) (true-all_match must p (m.0))
          (ap₂ (λ a b. a && b) (holds_should should p (m.1)) (false-any_matches must_not p (m.2))),
  )

  abbrev pub SameMembers : Conditions Int Float → Conditions Int Float → Type 0
  SameMembers xs ys = (c : Condition Int Float) → (c ∈ xs) ↔ (c ∈ ys)

  swap : (xs ys : Conditions Int Float) → SameMembers xs ys → SameMembers ys xs
  swap xs ys same c = ((same c).1, (same c).0)

  should_along :
      (xs ys : Conditions Int Float) (p : Option (Value Number))
      → SameMembers xs ys
      → (xs ≡ none_left) ⊎ SomeMatch xs p
      → (ys ≡ none_left) ⊎ SomeMatch ys p
  should_along xs none_left p same h = inl refl
  should_along none_left (cond_then b ys) p same h = elim ((same b).1 here) [ ]
  should_along (cond_then a xs) (cond_then b ys) p same (inl e) = cc
  should_along (cond_then a xs) (cond_then b ys) p same (inr s) =
      inr (s.0, (same (s.0)).0 (s.1), s.2)

  matches_along :
      (a b c x y z : Conditions Int Float) (p : Option (Value Number))
      → SameMembers a x
      → SameMembers b y
      → SameMembers c z
      → matches num (filter a b c) p ≡ true
      → matches num (filter x y z) p ≡ true
  matches_along a b c x y z p must should must_not h =
      let m = (matches_iff a b c p).0 h in
      (matches_iff x y z p).1 (
        λ d i. m.0 d ((must d).1 i),
        should_along b y p should (m.1),
        λ d i. m.2 d ((must_not d).1 i),
      )

  -- The order and the repetition of the conditions of a clause do not matter: filters with the same
  -- conditions in each clause match the same payloads.
  pub matches-SameMembers :
      (a b c x y z : Conditions Int Float) (p : Option (Value Number))
      → SameMembers a x
      → SameMembers b y
      → SameMembers c z
      → matches num (filter a b c) p ≡ matches num (filter x y z) p
  matches-SameMembers a b c x y z p must should must_not =
      bool_ext (matches num (filter a b c) p) (matches num (filter x y z) p)
        (matches_along a b c x y z p must should must_not)
        (matches_along x y z a b c p (swap a x must) (swap b y should) (swap c z must_not))
