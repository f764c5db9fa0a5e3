-- ===== src/Database/Embedders.antt =====
-- `register_embedder` of database.rs, and that it keeps the invariant of the registry.
use veclite.Base.{
  ℕ, ◌≡◌, refl, ap, sym, ◌∙◌, subst, ◌<◌, String, true, none, some, List, [], ◌∷◌, same, Bool-cases,
  some_inj, inl, inr, if◌then◌else◌,
}
use veclite.Error.{already_exists, Result, ok, err}
use veclite.Dict.{get, insert, contains_key, Unique}
use veclite.Database.{Contents, Entry, Database}
use veclite.Database.Maps.{listed}
use veclite.Database.Replay.{set_contents}
use veclite.Database.Registry.{IsRegistry, IsConsistent}

-- Two lists of collections that differ in the contents only.
data Alike {O D : Type 0} : List (String × Entry O D) → List (String × Entry O D) → Type 0 where
  none_left : Alike [] []
  both :
      {k : String} {v w : Entry O D} {m n : List (String × Entry O D)}
      → v.coll_id ≡ w.coll_id
      → v.name ≡ w.name
      → v.aliases ≡ w.aliases
      → Alike m n
      → Alike ((k, v) ∷ m) ((k, w) ∷ n)

module _ {O D : Type 0} where
  Alike-sym : (m n : List (String × Entry O D)) → Alike m n → Alike n m
  Alike-sym _ _ none_left = none_left
  Alike-sym _ _ (both {m = m} {n = n} i a b r) = both (sym i) (sym a) (sym b) (Alike-sym m n r)

  Alike-refl : (m : List (String × Entry O D)) → Alike m m
  Alike-refl [] = none_left
  Alike-refl ((k, v) ∷ m) = both refl refl refl (Alike-refl m)

  get-Alike :
      (m n : List (String × Entry O D)) (k : String) (v : Entry O D)
      → Alike m n
      → get k m ≡ some v
      → (w : Entry O D) × (get k n ≡ some w)
        × (v.coll_id ≡ w.coll_id)
        × (v.name ≡ w.name)
        × (v.aliases ≡ w.aliases)
  unfolding get
  get-Alike _ _ k v none_left h = cc
  get-Alike _ _ k v (both {k = j} {v = x} {w = w} {m = m} {n = n} i a b r) h =
      elim (Bool-cases (same j k)) [
        | inl e ↦
            let q = some_inj (sym (ap (λ c. if c then some x else get k m) e) ∙ h) in
            (
              w,
              ap (λ c. if c then some w else get k n) e,
              ap (λ y. y.coll_id) (sym q) ∙ i,
              ap (λ y. y.name) (sym q) ∙ a,
              ap (λ y. y.aliases) (sym q) ∙ b,
            )
        | inr e ↦
            let t = get-Alike m n k v r (sym (ap (λ c. if c then some x else get k m) e) ∙ h) in
            (t.0, ap (λ c. if c then some w else get k n) e ∙ t.1, t.2, t.3, t.4)
      ]

  none-Alike :
      (m n : List (String × Entry O D)) (k : String) → Alike m n → get k m ≡ none → get k n ≡ none
  unfolding get
  none-Alike _ _ k none_left h = refl
  none-Alike _ _ k (both {k = j} {v = x} {w = w} {m = m} {n = n} i a b r) h =
      elim (Bool-cases (same j k)) [
        | inl e ↦ let q = sym (ap (λ c. if c then some x else get k m) e) ∙ h in cc
        | inr e ↦
            ap (λ c. if c then some w else get k n) e
            ∙ none-Alike m n k r (sym (ap (λ c. if c then some x else get k m) e) ∙ h)
      ]

  Unique-Alike : (m n : List (String × Entry O D)) → Alike m n → Unique m → Unique n
  unfolding Unique
  Unique-Alike _ _ none_left u = tt
  Unique-Alike _ _ (both {k = k} {m = m} {n = n} i a b r) u =
      (none-Alike m n k r (u.0), Unique-Alike m n r (u.1))

  IsRegistry-Alike :
      (m n : List (String × Entry O D)) (names : List (String × String)) (next : ℕ)
      → Alike m n
      → IsRegistry m names next
      → IsRegistry n names next
  IsRegistry-Alike m n names next r inv =
      let back = Alike-sym m n r in
      record {
        forward = λ a t h.
            let f = inv.forward a t h in
            let w = get-Alike m n t (f.0) r (f.1) in
            (w.0, w.1, subst (λ x. listed a x ≡ true) (w.4) (f.2));
        back = λ k a e h l.
            let v = get-Alike n m k e back h in
            inv.back k a (v.0) (v.1) (subst (λ x. listed a x ≡ true) (v.4) l);
        below = λ k e h.
            let v = get-Alike n m k e back h in
            subst (λ x. x < next) (sym (v.2)) (inv.below k (v.0) (v.1));
        distinct = λ j k e f h i p.
            let v = get-Alike n m j e back h in
            let w = get-Alike n m k f back i in
            inv.distinct j k (v.0) (w.0) (v.1) (w.1) (sym (v.2) ∙ p ∙ w.2);
        unique = Unique-Alike m n r (inv.unique);
        named = λ k e h. let v = get-Alike n m k e back h in v.3 ∙ inv.named k (v.0) (v.1);
      }

module _ (content : Contents) where
  open content use {Options, Data, Embedder}

  abbrev Entries : Type 0
  Entries = List (String × Entry Options Data)

  bound :
      String
      → Entry Options Data
      → Entries
      → Entries × Result (Unit {0})
      → Result Data
      → Entries × Result (Unit {0})
  unfolding set_contents
  bound k c m rest (err e) = ((k, c) ∷ m, err e)
  bound k c m rest (ok contents) = ((k, set_contents content contents c) ∷ rest.0, rest.1)

  -- The loop that binds the collections; it ends at the first error.
  unfoldable pub bind_each :
      String
      → Embedder
      → List (String × Entry Options Data)
      → List (String × Entry Options Data) × Result (Unit {0})
  unfolding bound
  bind_each name shared [] = ([], ok tt)
  bind_each name shared ((k, c) ∷ m) =
      bound k c m (bind_each name shared m) (content.bind_embedder (c.contents) name shared)

  abbrev registered :
      Database content → String → Embedder → List (String × Entry Options Data) → Database content
  registered db name shared collections = record {
    collections = collections;
    aliases = db.aliases;
    registered_embedders = insert name shared (db.registered_embedders);
    next_coll_id = db.next_coll_id;
    persistence = db.persistence;
    dropped = db.dropped;
  }

  unfoldable pub register_embedder :
      Database content → String → Embedder → Database content × Result (Unit {0})
  unfolding bind_each contains_key
  register_embedder db name shared =
      if content.is_builtin name
      then (db, err (already_exists "embedding provider {name:?} is built-in"))
      else if contains_key name (db.registered_embedders)
      then (db, err (already_exists "embedding provider {name:?} is already registered"))
      else (
        registered db name shared ((bind_each name shared (db.collections)).0),
        (bind_each name shared (db.collections)).1,
      )

  bound-Alike :
      (k : String) (c : Entry Options Data) (m : Entries) (rest : Entries × Result (Unit {0}))
      (r : Result Data)
      → Alike m (rest.0)
      → Alike ((k, c) ∷ m) ((bound k c m rest r).0)
  unfolding bound
  bound-Alike k c m rest (err e) a = Alike-refl ((k, c) ∷ m)
  bound-Alike k c m rest (ok contents) a = both refl refl refl a

  bind_each-Alike :
      (name : String) (shared : Embedder) (m : List (String × Entry Options Data))
      → Alike m ((bind_each name shared m).0)
  unfolding bind_each
  bind_each-Alike name shared [] = none_left
  bind_each-Alike name shared ((k, c) ∷ m) =
      bound-Alike k c m (bind_each name shared m) (content.bind_embedder (c.contents) name shared)
        (bind_each-Alike name shared m)

  -- The registration of a provider keeps the invariant, in an error too.
  pub register_embedder-keeps :
      (db : Database content) (name : String) (shared : Embedder)
      → IsConsistent content db
      → IsConsistent content (register_embedder db name shared).0
  unfolding register_embedder
  register_embedder-keeps db name shared inv = elim (Bool-cases (content.is_builtin name)) [
    | inl e ↦ rw (e) inv
    | inr e ↦ elim (Bool-cases (contains_key name (db.registered_embedders))) [
      | inl f ↦ rw (e, f) inv
      | inr f ↦
          rw (e, f)
            (IsRegistry-Alike (db.collections) _ (db.aliases) (db.next_coll_id)
              (bind_each-Alike name shared (db.collections)) inv)
    ]
  ]
