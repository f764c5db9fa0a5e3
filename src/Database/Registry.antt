-- ===== src/Database/Registry.antt =====
-- The invariant of the registry of database.rs, and what an operation that succeeds has done.
use veclite.Base.{
  ℕ, ◌≡◌, refl, ap, ◌<◌, String, Bool, true, false, not, ◌||◌, Option, none, some, List, ◌∷◌,
}
use veclite.Error.{
  ok, VecLiteError, guard, ok_or, >>=-eq-ok, ok_inj, already_exists, collection_not_found,
}
use veclite.Dict.{get, insert, remove, modify, contains_key, contains_key-false, Unique}
use veclite.Point.{validate_collection_name}
use veclite.Database.{
  Contents, Entry, Journal, drop_coll, rename, alias, Database, append, with_collections,
}
use veclite.Database.Maps.{remove_all, repoint, listed}
use veclite.Database.Edit.{
  create_alias, delete_alias, append_unalias, delete_collection, rename_collection, push_alias,
  drop_alias, set_name, as_deleted,
}

pub guard-ok : (b : Bool) (e : VecLiteError) → guard b e ≡ ok tt → b ≡ true
guard-ok true e h = refl
guard-ok false e h = cc

ok_or-ok : {A : Type 0} (o : Option A) (e : VecLiteError) (a : A) → ok_or o e ≡ ok a → o ≡ some a
ok_or-ok none e a h = cc
ok_or-ok (some b) e a h = ap some (ok_inj h)

pub not_inv : (b : Bool) → not b ≡ true → b ≡ false
not_inv true h = cc
not_inv false h = refl

or_false_left : (a b : Bool) → (a || b) ≡ false → a ≡ false
or_false_left true b h = h
or_false_left false b h = refl

or_false_right : (a b : Bool) → (a || b) ≡ false → b ≡ false
or_false_right true b h = cc
or_false_right false b h = h

-- What holds of the collections and the aliases between operations: the aliases of a collection are
-- the names that the alias map sends to it, no two collections share an id, no key stands twice.
pub record IsRegistry {O D : Type 0} (cs : List (String × Entry O D))
    (names : List (String × String)) (next : ℕ) : Type 0 where
  pub forward :
      (a t : String)
      → get a names ≡ some t
      → (e : Entry O D) × (get t cs ≡ some e) × (listed a (e.aliases) ≡ true)
  pub back :
      (k a : String) (e : Entry O D)
      → get k cs ≡ some e
      → listed a (e.aliases) ≡ true
      → get a names ≡ some k
  pub below : (k : String) (e : Entry O D) → get k cs ≡ some e → e.coll_id < next
  pub distinct :
      (j k : String) (e f : Entry O D)
      → get j cs ≡ some e
      → get k cs ≡ some f
      → e.coll_id ≡ f.coll_id
      → j ≡ k
  pub unique : Unique cs
  pub named : (k : String) (e : Entry O D) → get k cs ≡ some e → e.name ≡ k

module _ (content : Contents) where
  open content use {Options, Data, Points}

  -- `IsRegistry` of a database.
  abbrev pub IsConsistent : Database content → Type 0
  IsConsistent db = IsRegistry (db.collections) (db.aliases) (db.next_coll_id)

  pub create_alias-ok :
      (db db' : Database content) (name target : String)
      → create_alias content db name target ≡ ok db'
      → (e : Entry Options Data) × (p : Option (Journal Options Points)) × (get target
            (db.collections)
          ≡ some e)
        × (get name (db.collections) ≡ none)
        × (get name (db.aliases) ≡ none)
        × (append content (db.persistence) (e.coll_id) (alias true name) ≡ ok p)
        × (with_collections content db
              (modify target (push_alias content name) (db.collections))
              (insert name target (db.aliases))
              p
              (db.dropped)
            ≡ db')
  unfolding create_alias
  create_alias-ok db db' name target h =
      let a = >>=-eq-ok (validate_collection_name name) _ h in
      let b = >>=-eq-ok (guard _ (already_exists name)) _ (a.2) in
      let c =
        >>=-eq-ok (ok_or (get target (db.collections)) (collection_not_found target)) _ (b.2) in
      let d = >>=-eq-ok (append content (db.persistence) (c.0.coll_id) (alias true name)) _ (c.2) in
      let free = not_inv _ (guard-ok _ (already_exists name) (b.1)) in
      (
        c.0,
        d.0,
        ok_or-ok _ (collection_not_found target) (c.0) (c.1),
        contains_key-false name (db.collections) (or_false_left _ _ free),
        contains_key-false name (db.aliases)
            (or_false_right (contains_key name (db.collections)) _ free),
        d.1,
        ok_inj (d.2),
      )

  pub delete_alias-ok :
      (db db' : Database content) (name : String)
      → delete_alias content db name ≡ ok db'
      → (target : String) × (p : Option (Journal Options Points)) × (get name (db.aliases)
          ≡ some target)
        × (append_unalias content (db.persistence) (get target (db.collections)) name ≡ ok p)
        × (with_collections content db
              (modify target (drop_alias content name) (db.collections))
              (remove name (db.aliases))
              p
              (db.dropped)
            ≡ db')
  unfolding delete_alias
  delete_alias-ok db db' name h =
      let a = >>=-eq-ok (ok_or (get name (db.aliases)) (collection_not_found name)) _ h in
      let b =
        >>=-eq-ok (append_unalias content (db.persistence) (get (a.0) (db.collections)) name) _
          (a.2) in
      (a.0, b.0, ok_or-ok _ (collection_not_found name) (a.0) (a.1), b.1, ok_inj (b.2))

  pub delete_collection-ok :
      (db db' : Database content) (name : String)
      → delete_collection content db name ≡ ok db'
      → (e : Entry Options Data) × (p : Option (Journal Options Points)) × (get name
            (db.collections)
          ≡ some e)
        × (append content (db.persistence) (e.coll_id) drop_coll ≡ ok p)
        × (with_collections content db
              (remove name (db.collections))
              (remove_all (e.aliases) (db.aliases))
              p
              (as_deleted content e ∷ db.dropped)
            ≡ db')
  unfolding delete_collection
  delete_collection-ok db db' name h =
      let a = >>=-eq-ok (ok_or (get name (db.collections)) (collection_not_found name)) _ h in
      let b = >>=-eq-ok (append content (db.persistence) (a.0.coll_id) drop_coll) _ (a.2) in
      (a.0, b.0, ok_or-ok _ (collection_not_found name) (a.0) (a.1), b.1, ok_inj (b.2))

  pub rename_collection-ok :
      (db db' : Database content) (from to : String)
      → rename_collection content db from to ≡ ok db'
      → (e : Entry Options Data) × (p : Option (Journal Options Points)) × (get from
            (db.collections)
          ≡ some e)
        × (get to (db.collections) ≡ none)
        × (append content (db.persistence) (e.coll_id) (rename to) ≡ ok p)
        × (with_collections content db
              (insert to (set_name content e to) (remove from (db.collections)))
              (repoint (e.aliases) to (db.aliases))
              p
              (db.dropped)
            ≡ db')
  unfolding rename_collection
  rename_collection-ok db db' from to h =
      let a = >>=-eq-ok (validate_collection_name to) _ h in
      let b = >>=-eq-ok (guard _ (already_exists to)) _ (a.2) in
      let c = >>=-eq-ok (ok_or (get from (db.collections)) (collection_not_found from)) _ (b.2) in
      let d = >>=-eq-ok (append content (db.persistence) (c.0.coll_id) (rename to)) _ (c.2) in
      (
        c.0,
        d.0,
        ok_or-ok _ (collection_not_found from) (c.0) (c.1),
        contains_key-false to (db.collections) (not_inv _ (guard-ok _ (already_exists to) (b.1))),
        d.1,
        ok_inj (d.2),
      )
