-- ===== src/Persist/Ids.antt =====
-- The table of ids that `load` of crates/veclite/src/persist/seal.rs fills.
use veclite.Base.{
  ℕ, ◌≡◌, refl, sym, ap, ◌∙◌, String, true, ◌||◌, ◌==◌, Bool-cases, inl, inr, ◌⊎◌, Option, none,
  some, List, [], ◌∷◌, arith, All, length, get_or, get_elem?, set, ltb, lt→ltb, ==_iff, length-set,
  get_elem?-lt,
}
use veclite.Error.{ok}
use veclite.Storage.Iddir.Lookup.{get_or-set, get_or-set_ne}
use veclite.Persist.Load.{fill_ids}
use veclite.Persist.Buckets.{has}

-- The loop that fills the table of ids.
module _ (names : List String) where
  abbrev Filled : List (Option String) → ℕ → Type 0
  Filled ids s = (id : String) → get_elem? names s ≡ some id → get_or ids s none ≡ some id

  set-Filled :
      (ids : List (Option String)) (slot s : ℕ) (id : String)
      → length ids ≡ length names
      → get_elem? names slot ≡ some id
      → ((slot == s) ≡ true) ⊎ Filled ids s
      → Filled (set ids slot (some id)) s
  set-Filled ids slot s id l there h x e = elim (Bool-cases (slot == s)) [
    | inl q ↦
        let same : slot ≡ s = (==_iff slot s).0 q in
        ap (λ k. get_or (set ids slot (some id)) k none) (sym same)
        ∙ get_or-set ids slot (some id) none (omega (arith, l, get_elem?-lt names slot there))
        ∙ (sym there ∙ ap (get_elem? names) same ∙ e)
    | inr q ↦
        get_or-set_ne ids slot s (some id) none (λ t. ground arith)
        ∙ elim h [ inl p ↦ cc | inr f ↦ f x e ]
  ]

  -- From entries that stand where the names stand, every slot of an entry gets its name.
  pub fill_ids_lem :
      (es : List (String × ℕ)) (ids : List (Option String))
      → All (λ e. get_elem? names (e.1) ≡ some (e.0)) es
      → length ids ≡ length names
      → (filled : List (Option String)) × (fill_ids es ids ≡ ok filled)
        × ((s : ℕ) → (has s es ≡ true) ⊎ Filled ids s → Filled filled s)
  unfolding fill_ids has
  fill_ids_lem [] ids p l = (ids, refl, λ s h. elim h [ inl e ↦ cc | inr f ↦ f ])
  fill_ids_lem ((id, slot) ∷ es) ids p l =
      let inside : ltb slot (length ids) ≡ true =
        lt→ltb slot (length ids) (omega (arith, l, get_elem?-lt names slot (p.0))) in
      let (filled, done, full) =
        fill_ids_lem es (set ids slot (some id)) (p.1) (length-set ids slot (some id) ∙ l) in
      (
        filled,
        rw (inside) done,
        λ s h. full s (elim (Bool-cases (slot == s)) [
          | inl q ↦ inr (set-Filled ids slot s id l (p.0) (inl q))
          | inr q ↦ elim h [
            | inl there ↦ inl (ap (λ b. b || has s es) (sym q) ∙ there)
            | inr f ↦ inr (set-Filled ids slot s id l (p.0) (inr f))
          ]
        ]),
      )
