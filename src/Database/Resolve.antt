-- ===== src/Database/Resolve.antt =====
-- What names resolve to in database.rs, and that a renaming keeps it.
use veclite.Base.{
  ℕ, ◌≡◌, ap, sym, ◌∙◌, String, false, Option, none, some, same, same-eq, Bool-cases, Option-cases,
  inl, inr, if◌then◌else◌,
}
use veclite.Error.{Result, ok, err, ok_or, collection_not_found}
use veclite.Dict.{get, insert, remove, get-insert, get-insert_other, get-remove_other}
use veclite.Database.{Contents, Entry, Database}
use veclite.Database.Maps.{repoint, listed, get-repoint}
use veclite.Database.Edit.{collection, by_name, by_alias, rename_collection, set_name}
use veclite.Database.Registry.{IsConsistent, rename_collection-ok}
use veclite.Database.Rename.{differ_from, other_aliases}

module _ (content : Contents) where
  open content use {Options, Data}

  id_of : Result (Entry Options Data) → Option ℕ
  id_of (ok e) = some (e.coll_id)
  id_of (err failure) = none

  -- The id of the collection that a name or an alias gives.
  unfoldable pub resolve : Database content → String → Option ℕ
  unfolding collection id_of
  resolve db name = id_of (collection content db name)

  pub resolve_name :
      (db : Database content) (x : String) (e : Entry Options Data)
      → get x (db.collections) ≡ some e
      → resolve db x ≡ some (e.coll_id)
  unfolding resolve collection by_name by_alias id_of
  resolve_name db x e h = ap (λ o. id_of (by_name content db x o)) h

  pub resolve_alias :
      (db : Database content) (x t : String) (e : Entry Options Data)
      → get x (db.collections) ≡ none
      → get x (db.aliases) ≡ some t
      → get t (db.collections) ≡ some e
      → resolve db x ≡ some (e.coll_id)
  unfolding resolve collection by_name by_alias id_of
  resolve_alias db x t e n h i =
      ap (λ o. id_of (by_name content db x o)) n
      ∙ ap (λ o. id_of (by_alias content db x o)) h
      ∙ ap (λ o. id_of (ok_or o (collection_not_found x))) i

  pub resolve_nothing :
      (db : Database content) (x : String)
      → get x (db.collections) ≡ none
      → get x (db.aliases) ≡ none
      → resolve db x ≡ none
  unfolding resolve collection by_name by_alias id_of
  resolve_nothing db x n h =
      ap (λ o. id_of (by_name content db x o)) n ∙ ap (λ o. id_of (by_alias content db x o)) h

  pub resolve_dangling :
      (db : Database content) (x t : String)
      → get x (db.collections) ≡ none
      → get x (db.aliases) ≡ some t
      → get t (db.collections) ≡ none
      → resolve db x ≡ none
  unfolding resolve collection by_name by_alias id_of
  resolve_dangling db x t n h i =
      ap (λ o. id_of (by_name content db x o)) n
      ∙ ap (λ o. id_of (by_alias content db x o)) h
      ∙ ap (λ o. id_of (ok_or o (collection_not_found x))) i

  module _ (db : Database content) (inv : IsConsistent content db) (from to : String)
      (e : Entry Options Data) (old : get from (db.collections) ≡ some e)
      (free : get to (db.collections) ≡ none) (db' : Database content)
      (cs_eq : db'.collections ≡ insert to (set_name content e to) (remove from (db.collections)))
      (names_eq : db'.aliases ≡ repoint (e.aliases) to (db.aliases)) where
    lookup' :
        (k : String)
        → same to k ≡ false
        → same from k ≡ false
        → get k (db'.collections) ≡ get k (db.collections)
    lookup' k d f =
        ap (get k) cs_eq
        ∙ get-insert_other to k (set_name content e to) (remove from (db.collections)) d
        ∙ get-remove_other from k (db.collections) f

    at_to : get to (db'.collections) ≡ some (set_name content e to)
    at_to = ap (get to) cs_eq ∙ get-insert to (set_name content e to) (remove from (db.collections))

    alias' :
        (k : String)
        → get k (db'.aliases) ≡ (if listed k (e.aliases) then some to else get k (db.aliases))
    alias' k = ap (get k) names_eq ∙ get-repoint k (e.aliases) to (db.aliases)

    keeps_alias :
        (x : String)
        → same to x ≡ false
        → same from x ≡ false
        → get x (db.collections) ≡ none
        → resolve db' x ≡ resolve db x
    keeps_alias x d f n = elim (Bool-cases (listed x (e.aliases))) [
      | inl l ↦
          resolve_alias db' x to (set_name content e to) (lookup' x d f ∙ n)
            (alias' x ∙ ap (λ b. if b then some to else get x (db.aliases)) l) at_to
          ∙ sym (resolve_alias db x from e n (inv.back from x e old l) old)
      | inr l ↦
          let same_alias = alias' x ∙ ap (λ b. if b then some to else get x (db.aliases)) l in
          elim (Option-cases (get x (db.aliases))) [
            | inl m ↦
                resolve_nothing db' x (lookup' x d f ∙ n) (same_alias ∙ m)
                ∙ sym (resolve_nothing db x n m)
            | inr (t, m) ↦
                let r = inv.forward x t m in
                resolve_alias db' x t (r.0) (lookup' x d f ∙ n) (same_alias ∙ m) (
                  lookup' t (differ_from t to (r.0) (db.collections) (r.1) free)
                    (other_aliases from t x e (r.0) (db.collections) old (r.1) l (r.2))
                  ∙ r.1)
                ∙ sym (resolve_alias db x t (r.0) n m (r.1))
          ]
    ]

    rename-resolve :
        (x : String)
        → same from x ≡ false
        → resolve db' x ≡ (if same to x then some (e.coll_id) else resolve db x)
    rename-resolve x f = elim (Bool-cases (same to x)) [
      | inl s ↦
          ap (resolve db') (sym (same-eq to x s))
          ∙ resolve_name db' to (set_name content e to) at_to
          ∙ sym (ap (λ b. if b then some (e.coll_id) else resolve db x) s)
      | inr s ↦ elim (Option-cases (get x (db.collections))) [
        | inl n ↦
            keeps_alias x s f n ∙ sym (ap (λ b. if b then some (e.coll_id) else resolve db x) s)
        | inr (w, n) ↦
            resolve_name db' x w (lookup' x s f ∙ n)
            ∙ sym (resolve_name db x w n)
            ∙ sym (ap (λ b. if b then some (e.coll_id) else resolve db x) s)
      ]
    ]

  -- After a renaming that succeeds, in a consistent registry, the new name resolves to what the old
  -- one did, and every further name, be it an alias, resolves to what it did.
  pub rename_collection-resolve :
      (db db' : Database content) (from to x : String)
      → IsConsistent content db
      → rename_collection content db from to ≡ ok db'
      → same from x ≡ false
      → resolve db' x ≡ (if same to x then resolve db from else resolve db x)
  rename_collection-resolve db db' from to x inv h f =
      let r = rename_collection-ok content db db' from to h in
      rename-resolve db inv from to (r.0) (r.2) (r.3) db' (ap (λ d. d.collections) (sym (r.5)))
        (ap (λ d. d.aliases) (sym (r.5))) x f
      ∙ ap (λ i. if same to x then i else resolve db x) (sym (resolve_name db from (r.0) (r.2)))
