-- ===== src/Dict.antt =====
-- Maps with text keys (`DashMap`, `HashMap`) as association lists.
use mathlib.Core.Option
use veclite.Base.{
  ◌≡◌, refl, ap, sym, ◌∙◌, subst, String, Bool, true, false, Option, none, some, List, [], ◌∷◌,
  same, same-eq, same_refl, if◌then◌else◌, Bool-cases, inl, inr,
}

module _ {A : Type 0} where
  unfoldable pub get : String → List (String × A) → Option A
  get key [] = none
  get key ((k, v) ∷ m) = if same k key then some v else get key m

  unfoldable pub remove : String → List (String × A) → List (String × A)
  remove key [] = []
  remove key ((k, v) ∷ m) = if same k key then remove key m else (k, v) ∷ remove key m

  unfoldable pub insert : String → A → List (String × A) → List (String × A)
  unfolding remove
  insert key value m = (key, value) ∷ remove key m

  unfoldable pub contains_key : String → List (String × A) → Bool
  unfolding get
  contains_key key m = elim (get key m) [ some v ↦ true | none ↦ false ]

  -- `get_mut`: a change of the value of a key, if there is one.
  unfoldable pub modify : String → (A → A) → List (String × A) → List (String × A)
  modify key change [] = []
  modify key change ((k, v) ∷ m) =
      if same k key then (k, change v) ∷ modify key change m else (k, v) ∷ modify key change m

  -- No key stands twice.
  unfoldable pub Unique : List (String × A) → Type 0
  unfolding get
  Unique [] = Unit
  Unique ((k, v) ∷ m) = (get k m ≡ none) × Unique m

  pub get-remove : (key : String) (m : List (String × A)) → get key (remove key m) ≡ none
  unfolding get remove
  get-remove key [] = refl
  get-remove key ((k, v) ∷ m) = elim (Bool-cases (same k key)) [
    | inl e ↦ rw (e) (get-remove key m)
    | inr e ↦ rw (e) (rw (e) (get-remove key m))
  ]

  pub get-remove_other :
      (key other : String) (m : List (String × A))
      → same key other ≡ false
      → get other (remove key m) ≡ get other m
  unfolding get remove
  get-remove_other key other [] d = refl
  get-remove_other key other ((k, v) ∷ m) d = elim (Bool-cases (same k key)) [
    | inl e ↦ rw (e) (
        get-remove_other key other m d
        ∙ sym (
            ap (λ b. if b then some v else get other m)
              (ap (λ x. same x other) (same-eq k key e) ∙ d)))
    | inr e ↦ rw (e) (ap (λ r. if same k other then some v else r) (get-remove_other key other m d))
  ]

  pub get-insert :
      (key : String) (v : A) (m : List (String × A)) → get key (insert key v m) ≡ some v
  unfolding get insert
  get-insert key v m = rw (same_refl key) refl

  pub get-insert_other :
      (key other : String) (v : A) (m : List (String × A))
      → same key other ≡ false
      → get other (insert key v m) ≡ get other m
  unfolding get insert
  get-insert_other key other v m d = rw (d) (get-remove_other key other m d)

  remove_none :
      (key other : String) (m : List (String × A))
      → get other m ≡ none
      → get other (remove key m) ≡ none
  remove_none key other m h = elim (Bool-cases (same key other)) [
    | inl e ↦ subst (λ k. get k (remove key m) ≡ none) (same-eq key other e) (get-remove key m)
    | inr e ↦ get-remove_other key other m e ∙ h
  ]

  pub remove-Unique : (key : String) (m : List (String × A)) → Unique m → Unique (remove key m)
  unfolding Unique remove
  remove-Unique key [] u = tt
  remove-Unique key ((k, v) ∷ m) u = elim (Bool-cases (same k key)) [
    | inl e ↦ rw (e) (remove-Unique key m (u.1))
    | inr e ↦ rw (e) (remove_none key k m (u.0), remove-Unique key m (u.1))
  ]

  pub insert-Unique :
      (key : String) (v : A) (m : List (String × A)) → Unique m → Unique (insert key v m)
  unfolding Unique insert
  insert-Unique key v m u = (get-remove key m, remove-Unique key m u)

  -- A removal leaves what was there under another key.
  pub get-remove-some :
      (key other : String) (m : List (String × A)) (v : A)
      → get other (remove key m) ≡ some v
      → (same key other ≡ false) × (get other m ≡ some v)
  get-remove-some key other m v h = elim (Bool-cases (same key other)) [
    | inl e ↦
        let n = subst (λ k. get k (remove key m) ≡ none) (same-eq key other e) (get-remove key m) in
        cc
    | inr e ↦ (e, sym (get-remove_other key other m e) ∙ h)
  ]

  pub contains_key-false :
      (key : String) (m : List (String × A)) → contains_key key m ≡ false → get key m ≡ none
  unfolding contains_key
  contains_key-false key m h = go (get key m) h
    where
      go :
          (o : Option A)
          → (elim o as (λ _. Bool) [ some v ↦ true | none ↦ false ]) ≡ false
          → o ≡ none
      go none h = refl
      go (some v) h = cc

  pub get-modify :
      (key : String) (change : A → A) (m : List (String × A))
      → get key (modify key change m) ≡ Option.map change (get key m)
  unfolding get modify
  get-modify key change [] = refl
  get-modify key change ((k, v) ∷ m) = elim (Bool-cases (same k key)) [
    | inl e ↦ rw (e) (rw (e) refl)
    | inr e ↦ rw (e) (rw (e) (get-modify key change m))
  ]

  pub get-modify_other :
      (key other : String) (change : A → A) (m : List (String × A))
      → same key other ≡ false
      → get other (modify key change m) ≡ get other m
  unfolding get modify
  get-modify_other key other change [] d = refl
  get-modify_other key other change ((k, v) ∷ m) d = elim (Bool-cases (same k key)) [
    | inl e ↦
        let h : same k other ≡ false = ap (λ x. same x other) (same-eq k key e) ∙ d in
        rw (e) (rw (h) (get-modify_other key other change m d))
    | inr e ↦
        rw (e)
          (ap (λ r. if same k other then some v else r) (get-modify_other key other change m d))
  ]

  modify-none :
      (key other : String) (change : A → A) (m : List (String × A))
      → get other m ≡ none
      → get other (modify key change m) ≡ none
  modify-none key other change m h = elim (Bool-cases (same key other)) [
    | inl e ↦
        subst (λ k. get k (modify key change m) ≡ none) (same-eq key other e)
          (get-modify key change m
            ∙ ap (Option.map change) (subst (λ k. get k m ≡ none) (sym (same-eq key other e)) h))
    | inr e ↦ get-modify_other key other change m e ∙ h
  ]

  pub modify-Unique :
      (key : String) (change : A → A) (m : List (String × A))
      → Unique m
      → Unique (modify key change m)
  unfolding Unique modify
  modify-Unique key change [] u = tt
  modify-Unique key change ((k, v) ∷ m) u = elim (Bool-cases (same k key)) [
    | inl e ↦ rw (e) (modify-none key k change m (u.0), modify-Unique key change m (u.1))
    | inr e ↦ rw (e) (modify-none key k change m (u.0), modify-Unique key change m (u.1))
  ]
