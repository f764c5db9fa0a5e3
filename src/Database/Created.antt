-- ===== src/Database/Created.antt =====
-- `create_collection` of database.rs keeps the invariant of the registry, in an error too.
use native.Mathlib.Omega.{arith}
use veclite.Base.{
  ℕ, ◌+◌, ◌%◌, ◌<◌, ◌≡◌, refl, ap, sym, ◌∙◌, subst, String, Bool, true, false, not, Option, none,
  some, List, [], inl, inr,
}
use veclite.Error.{Result, ok, err, guard, ◌>>=◌, ◌>>◌, >>=-eq-ok, already_exists}
use veclite.Dict.{get, insert, contains_key, contains_key-false, get-insert_other, insert-Unique}
use veclite.Point.{validate_collection_name}
use veclite.Database.{Contents, Entry, Journal, EmbedderSlot, Database, coll_id_limit}
use veclite.Database.Maps.{listed}
use veclite.Database.Create.{
  check_dimension, create_checks, create_built, create_indexed, create_journaled, create_checked,
  create_collection, create_collection_impl, embedder_slot, id_taken,
}
use veclite.Database.Registry.{IsRegistry, IsConsistent, guard-ok, not_inv}
use veclite.Database.Rename.{get-insert-cases, differ_from}

unwrapped : (next : ℕ) → next + 1 < coll_id_limit → (next + 1) % coll_id_limit ≡ next + 1
unwrapped next small = omega arith

nothing : (a : String) → listed a [] ≡ true → ⊥
unfolding listed
nothing a m = cc

module _ (content : Contents) where
  open content use {Options, Data, Embedder, Points}

  create_checks-ok :
      (db : Database content) (name : String) (options : Options) (deferred : Bool)
      (slot : EmbedderSlot Embedder)
      → create_checks content db name options deferred ≡ ok slot
      → get name (db.collections) ≡ none
  unfolding create_checks
  create_checks-ok db name options deferred slot h =
      let free = λ (x : EmbedderSlot Embedder).
        guard (not (contains_key name (db.collections))) (already_exists name) >> ok x in
      let made =
        embedder_slot content db (content.embedding_provider options) (content.dimension options)
          deferred in
      let a =
        >>=-eq-ok (validate_collection_name name)
          (λ _. check_dimension content (content.dimension options) >> (made >>= free)) h in
      let b =
        >>=-eq-ok (check_dimension content (content.dimension options)) (λ _. made >>= free)
          (a.2) in
      let c = >>=-eq-ok made free (b.2) in
      let d =
        >>=-eq-ok (guard (not (contains_key name (db.collections))) (already_exists name))
          (λ _. ok (c.0)) (c.2) in
      contains_key-false name (db.collections)
        (not_inv (contains_key name (db.collections)) (guard-ok _ (already_exists name) (d.1)))

  raise_by_one :
      {cs : List (String × Entry Options Data)} {names : List (String × String)} (next : ℕ)
      → IsRegistry cs names next
      → IsRegistry cs names (next + 1)
  raise_by_one next inv = record {
    forward = inv.forward;
    back = inv.back;
    below = λ k e h. let b = inv.below k e h in omega arith;
    distinct = inv.distinct;
    unique = inv.unique;
    named = inv.named;
  }

  raise :
      {cs : List (String × Entry Options Data)} {names : List (String × String)} (next : ℕ)
      → next + 1 < coll_id_limit
      → IsRegistry cs names next
      → IsRegistry cs names ((next + 1) % coll_id_limit)
  raise next small inv = rw (unwrapped next small) (raise_by_one next inv)

  module _ (cs : List (String × Entry Options Data)) (names : List (String × String)) (next : ℕ)
      (inv : IsRegistry cs names next) (name : String) (free : get name cs ≡ none)
      (e : Entry Options Data) (id : e.coll_id ≡ next) (bare : e.aliases ≡ [])
      (called : e.name ≡ name) where
    fresh : (k : String) (w : Entry Options Data) → get k cs ≡ some w → w.coll_id ≡ next → ⊥
    fresh k w h i = let b = inv.below k w h in omega arith

    insert-IsRegistry : IsRegistry (insert name e cs) names (next + 1)
    insert-IsRegistry = record {
      forward = λ a t h.
          let f = inv.forward a t h in
          (f.0, get-insert_other name t e cs (differ_from t name (f.0) cs (f.1) free) ∙ f.1, f.2);
      back = λ k a w h l. elim (get-insert-cases name k e w cs h) [
        | inl c ↦
            let m : listed a [] ≡ true =
              subst (λ x. listed a x ≡ true) (ap (λ x. x.aliases) (sym (c.1)) ∙ bare) l in
            elim (nothing a m) [ ]
        | inr c ↦ inv.back k a w (c.1) l
      ];
      below = λ k w h. elim (get-insert-cases name k e w cs h) [
        | inl c ↦ let i : w.coll_id ≡ next = ap (λ x. x.coll_id) (sym (c.1)) ∙ id in omega arith
        | inr c ↦ let b = inv.below k w (c.1) in omega arith
      ];
      distinct = λ j k w x h i p. elim (get-insert-cases name j e w cs h) [
        | inl c ↦ elim (get-insert-cases name k e x cs i) [
          | inl d ↦ sym (c.0) ∙ d.0
          | inr d ↦ elim (fresh k x (d.1) (sym p ∙ ap (λ y. y.coll_id) (sym (c.1)) ∙ id)) [ ]
        ]
        | inr c ↦ elim (get-insert-cases name k e x cs i) [
          | inl d ↦ elim (fresh j w (c.1) (p ∙ ap (λ y. y.coll_id) (sym (d.1)) ∙ id)) [ ]
          | inr d ↦ inv.distinct j k w x (c.1) (d.1) p
        ]
      ];
      unique = insert-Unique name e cs (inv.unique);
      named = λ k w h. elim (get-insert-cases name k e w cs h) [
        | inl c ↦ ap (λ x. x.name) (sym (c.1)) ∙ called ∙ c.0
        | inr c ↦ inv.named k w (c.1)
      ];
    }

  module _ (db : Database content) (name : String) (options : Options)
      (inv : IsConsistent content db) (small : db.next_coll_id + 1 < coll_id_limit) where
    keeps_built :
        (q : Option (Journal Options Points)) (r : Result Data)
        → get name (db.collections) ≡ none
        → IsConsistent content
            (create_built content (id_taken content db q) db.next_coll_id name options r).0
    unfolding create_built
    keeps_built q (err e) free = raise (db.next_coll_id) small inv
    keeps_built q (ok c) free = rw (unwrapped db.next_coll_id small) (
        insert-IsRegistry (db.collections) (db.aliases) (db.next_coll_id) inv name free _ refl refl
          refl)

    keeps_indexed :
        (slot : EmbedderSlot Embedder) (p : Option (Journal Options Points))
        (r : Result (Option (Journal Options Points)))
        → get name (db.collections) ≡ none
        → IsConsistent content (create_indexed content db name options slot p r).0
    unfolding create_indexed
    keeps_indexed slot p (err e) free = raise (db.next_coll_id) small inv
    keeps_indexed slot p (ok q) free = keeps_built q (content.with_embedder options slot) free

    keeps_journaled :
        (slot : EmbedderSlot Embedder) (r : Result (Option (Journal Options Points)))
        → get name (db.collections) ≡ none
        → IsConsistent content (create_journaled content db name options slot r).0
    unfolding create_journaled
    keeps_journaled slot (err e) free = raise (db.next_coll_id) small inv
    keeps_journaled slot (ok p) free = keeps_indexed slot p _ free

    keeps_checked :
        (r : Result (EmbedderSlot Embedder))
        → ((slot : EmbedderSlot Embedder) → r ≡ ok slot → get name (db.collections) ≡ none)
        → IsConsistent content (create_checked content db name options r).0
    unfolding create_checked
    keeps_checked (err e) free = inv
    keeps_checked (ok slot) free = keeps_journaled slot _ (free slot refl)

  -- The creation of a collection keeps the invariant, in an error too, where the counter of the ids does
  -- not wrap around.
  pub create_collection-keeps :
      (db : Database content) (name : String) (options : Options)
      → IsConsistent content db
      → db.next_coll_id + 1 < coll_id_limit
      → IsConsistent content (create_collection content db name options).0
  unfolding create_collection create_collection_impl
  create_collection-keeps db name options inv small =
      keeps_checked db name options inv small (create_checks content db name options false)
        (create_checks-ok db name options false)
