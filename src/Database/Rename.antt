-- ===== src/Database/Rename.antt =====
-- `rename_collection` and `delete_collection` of database.rs keep the invariant of the registry.
use veclite.Base.{
  ℕ, ◌≡◌, refl, ap, sym, ◌∙◌, subst, ◌<◌, String, true, false, none, some, List, same, same-eq,
  same_refl, Bool-cases, some_inj, ◌⊎◌, inl, inr, if◌then◌else◌,
}
use veclite.Error.{ok}
use veclite.Dict.{
  get, insert, remove, get-insert, get-insert_other, get-remove_other, get-remove-some,
  insert-Unique, remove-Unique,
}
use veclite.Database.{Contents, Entry, Database}
use veclite.Database.Maps.{repoint, listed, get-repoint}
use veclite.Database.Edit.{rename_collection, set_name}
use veclite.Database.Registry.{IsRegistry, IsConsistent, rename_collection-ok}

module _ {A : Type 0} where
  -- What an insertion after a removal of another key leaves.
  pub get-insert-cases :
      (key other : String) (v w : A) (m : List (String × A))
      → get other (insert key v m) ≡ some w
      → ((key ≡ other) × (v ≡ w)) ⊎ ((same key other ≡ false) × (get other m ≡ some w))
  get-insert-cases key other v w m h = elim (Bool-cases (same key other)) [
    | inl e ↦ inl (
      same-eq key other e,
      some_inj (
          sym (
            subst (λ k. get k (insert key v m) ≡ some v) (same-eq key other e) (get-insert key v m))
          ∙ h),
    )
    | inr e ↦ inr (e, sym (get-insert_other key other v m e) ∙ h)
  ]

  -- Two keys with different values differ.
  pub differ :
      (j k : String) (v : A) (m : List (String × A))
      → get j m ≡ some v
      → get k m ≡ none
      → same j k ≡ false
  differ j k v m h n = elim (Bool-cases (same j k)) [
    | inl e ↦ let i = subst (λ x. get x m ≡ some v) (same-eq j k e) h in cc
    | inr e ↦ e
  ]

  pub differ_from :
      (j k : String) (v : A) (m : List (String × A))
      → get j m ≡ some v
      → get k m ≡ none
      → same k j ≡ false
  differ_from j k v m h n = elim (Bool-cases (same k j)) [
    | inl e ↦ let i = subst (λ x. get x m ≡ some v) (sym (same-eq k j e)) h in cc
    | inr e ↦ e
  ]

  pub same_value :
      (j k : String) (v w : A) (m : List (String × A))
      → same j k ≡ true
      → get j m ≡ some v
      → get k m ≡ some w
      → v ≡ w
  same_value j k v w m s h i =
      some_inj (sym h ∙ subst (λ x. get j m ≡ get x m) (same-eq j k s) refl ∙ i)

-- Collections of which one has an alias and the other not differ.
pub other_aliases :
    {O D : Type 0} (j k a : String) (e f : Entry O D) (cs : List (String × Entry O D))
    → get j cs ≡ some e
    → get k cs ≡ some f
    → listed a (e.aliases) ≡ false
    → listed a (f.aliases) ≡ true
    → same j k ≡ false
other_aliases j k a e f cs h i l m = elim (Bool-cases (same j k)) [
  | inl s ↦
      let t = subst (λ x. listed a (x.aliases) ≡ true) (sym (same_value j k e f cs s h i)) m in cc
  | inr s ↦ s
]

module _ (content : Contents) where
  open content use {Options, Data}

  -- The collections after a renaming.
  renamed :
      (from to k : String) (e w : Entry Options Data) (cs : List (String × Entry Options Data))
      → get k (insert to (set_name content e to) (remove from cs)) ≡ some w
      → ((to ≡ k) × (set_name content e to ≡ w))
        ⊎ ((same to k ≡ false) × (same from k ≡ false) × (get k cs ≡ some w))
  renamed from to k e w cs h =
      elim (get-insert-cases to k (set_name content e to) w (remove from cs) h) [
        | inl c ↦ inl c
        | inr c ↦ let r = get-remove-some from k cs w (c.1) in inr (c.0, r.0, r.1)
      ]

  module _ (cs : List (String × Entry Options Data)) (names : List (String × String)) (next : ℕ)
      (inv : IsRegistry cs names next) (from to : String) (e : Entry Options Data)
      (old : get from cs ≡ some e) (free : get to cs ≡ none) where
    cs' : List (String × Entry Options Data)
    cs' = insert to (set_name content e to) (remove from cs)

    names' : List (String × String)
    names' = repoint (e.aliases) to names

    at_to : get to cs' ≡ some (set_name content e to)
    unfolding cs'
    at_to = get-insert to (set_name content e to) (remove from cs)

    elsewhere : (k : String) → same to k ≡ false → same from k ≡ false → get k cs' ≡ get k cs
    unfolding cs'
    elsewhere k d f =
        get-insert_other to k (set_name content e to) (remove from cs) d
        ∙ get-remove_other from k cs f

    forward' :
        (a t : String)
        → get a names' ≡ some t
        → (f : Entry Options Data) × (get t cs' ≡ some f) × (listed a (f.aliases) ≡ true)
    unfolding names'
    forward' a t h = elim (Bool-cases (listed a (e.aliases))) [
      | inl l ↦
          let g =
            sym (ap (λ b. if b then some to else get a names) l)
            ∙ sym (get-repoint a (e.aliases) to names)
            ∙ h in
          (
            set_name content e to,
            subst (λ k. get k cs' ≡ some (set_name content e to)) (some_inj g) at_to,
            l,
          )
      | inr l ↦
          let g =
            sym (ap (λ b. if b then some to else get a names) l)
            ∙ sym (get-repoint a (e.aliases) to names)
            ∙ h in
          let r = inv.forward a t g in
          (
            r.0,
            elsewhere t (differ_from t to (r.0) cs (r.1) free)
                  (other_aliases from t a e (r.0) cs old (r.1) l (r.2))
                ∙ r.1,
            r.2,
          )
    ]

    back' :
        (k a : String) (w : Entry Options Data)
        → get k cs' ≡ some w
        → listed a (w.aliases) ≡ true
        → get a names' ≡ some k
    unfolding cs' names'
    back' k a w h l = elim (renamed from to k e w cs h) [
      | inl c ↦
          let m : listed a (e.aliases) ≡ true =
            subst (λ x. listed a (x.aliases) ≡ true) (sym (c.1)) l in
          get-repoint a (e.aliases) to names
          ∙ ap (λ b. if b then some to else get a names) m
          ∙ ap some (c.0)
      | inr c ↦ elim (Bool-cases (listed a (e.aliases))) [
        | inl m ↦
            let n = some_inj (sym (inv.back from a e old m) ∙ inv.back k a w (c.2) l) in
            let q : same from k ≡ true = subst (λ x. same from x ≡ true) n (same_refl from) in
            let d = c.1 in cc
        | inr m ↦
            get-repoint a (e.aliases) to names
            ∙ ap (λ b. if b then some to else get a names) m
            ∙ inv.back k a w (c.2) l
      ]
    ]

    -- What a collection was before the renaming, and under which name.
    before :
        (k : String) (w : Entry Options Data)
        → get k cs' ≡ some w
        → (j : String) × (f : Entry Options Data) × (get j cs ≡ some f)
          × (f.coll_id ≡ w.coll_id)
          × (k ≡ (if same from j then to else j))
    unfolding cs'
    before k w h = elim (renamed from to k e w cs h) [
      | inl c ↦ (
        from,
        e,
        old,
        ap (λ x. x.coll_id) (c.1),
        sym (c.0) ∙ sym (ap (λ b. if b then to else from) (same_refl from)),
      )
      | inr c ↦ (k, w, c.2, refl, sym (ap (λ b. if b then to else k) (c.1)))
    ]

    rename-IsRegistry : IsRegistry cs' names' next
    unfolding cs'
    rename-IsRegistry = record {
      forward = forward';
      back = back';
      below = λ k w h.
          let b = before k w h in subst (λ n. n < next) (b.3) (inv.below (b.0) (b.1) (b.2));
      distinct = λ j k w x h i p.
          let b = before j w h in
          let c = before k x i in
          let q = inv.distinct (b.0) (c.0) (b.1) (c.1) (b.2) (c.2) (b.3 ∙ p ∙ sym (c.3)) in
          b.4 ∙ ap (λ y. if same from y then to else y) q ∙ sym (c.4);
      unique =
          insert-Unique to (set_name content e to) (remove from cs)
            (remove-Unique from cs (inv.unique));
      named = λ k w h. named' k w h;
    }
      where
        named' : (k : String) (w : Entry Options Data) → get k cs' ≡ some w → w.name ≡ k
        named' k w h = elim (renamed from to k e w cs h) [
          | inl c ↦ sym (ap (λ x. x.name) (c.1)) ∙ c.0
          | inr c ↦ inv.named k w (c.2)
        ]

  -- A renaming keeps the invariant.
  pub rename_collection-keeps :
      (db db' : Database content) (from to : String)
      → IsConsistent content db
      → rename_collection content db from to ≡ ok db'
      → IsConsistent content db'
  unfolding cs' names'
  rename_collection-keeps db db' from to inv h =
      let r = rename_collection-ok content db db' from to h in
      subst (λ d. IsConsistent content d) (r.5)
        (rename-IsRegistry (db.collections) (db.aliases) (db.next_coll_id) inv from to (r.0) (r.2)
          (r.3))
