-- ===== src/Database/Recovered.antt =====
-- What the replay of the journal of database.rs makes of aliases, renamings and deletions.
use veclite.Base.{
  ℕ, ◌==◌, ==_iff, ==-refl, ◌≡◌, refl, ap, ap₂, sym, ◌∙◌, subst, String, true, false, Option, none,
  some, List, [], ◌∷◌, same, same_refl, Bool-cases, Option-cases, some_inj, inl, inr, if◌then◌else◌,
}
use veclite.Error.{ok}
use veclite.Dict.{get, remove, Unique, get-remove}
use veclite.Database.{Contents, Entry, Logged, drop_coll, alias, Database, append, with_collections}
use veclite.Database.Maps.{listed, remove_all, get-remove_all}
use veclite.Database.Edit.{
  append_unalias, create_alias, delete_alias, delete_collection, as_deleted,
}
use veclite.Database.Registry.{IsConsistent, create_alias-ok, delete_alias-ok, delete_collection-ok}
use veclite.Database.Rename.{differ_from}
use veclite.Database.Resolve.{
  resolve, resolve_name, resolve_alias, resolve_nothing, resolve_dangling,
}
use veclite.Database.Replay.{find_id, apply_wal_entry, replay_alias, replay_drop}

module _ {O D : Type 0} where
  in_tail :
      (j : String) (f : Entry O D) (m : List (String × Entry O D)) (k : String) (e : Entry O D)
      → (f.coll_id == e.coll_id) ≡ false
      → get k ((j, f) ∷ m) ≡ some e
      → get k m ≡ some e
  unfolding get
  in_tail j f m k e i h = elim (Bool-cases (same j k)) [
    | inl s ↦
        let v = some_inj (sym (ap (λ b. if b then some f else get k m) s) ∙ h) in
        let q = ap (λ x. x.coll_id == e.coll_id) v ∙ ==-refl (e.coll_id) in cc
    | inr s ↦ sym (ap (λ b. if b then some f else get k m) s) ∙ h
  ]

  -- The search by id finds an entry whose id no other has.
  find_id-get :
      (cs : List (String × Entry O D)) (k : String) (e : Entry O D)
      → Unique cs
      → ((j : String) (f : Entry O D) → get j cs ≡ some f → e.coll_id ≡ f.coll_id → k ≡ j)
      → get k cs ≡ some e
      → find_id (e.coll_id) cs ≡ some (k, e)
  unfolding find_id Unique get
  find_id-get [] k e u only h = cc
  find_id-get ((j, f) ∷ m) k e u only h = elim (Bool-cases (f.coll_id == e.coll_id)) [
    | inl i ↦
        let at_head : get j ((j, f) ∷ m) ≡ some f = rw (same_refl j) refl in
        let n = only j f at_head (sym ((==_iff (f.coll_id) (e.coll_id)).0 i)) in
        let v = some_inj (sym at_head ∙ subst (λ x. get x ((j, f) ∷ m) ≡ some e) n h) in
        ap (λ b. if b then some (j, f) else find_id (e.coll_id) m) i
        ∙ ap₂ (λ x y. some (x, y)) (sym n) v
    | inr i ↦
        ap (λ b. if b then some (j, f) else find_id (e.coll_id) m) i
        ∙ find_id-get m k e (u.1)
            (λ j' f' g.
              only j' f'
                (ap (λ b. if b then some f else get j' m) (differ_from j' j f' m g (u.0)) ∙ g))
            (in_tail j f m k e (i) h)
  ]

module _ (content : Contents) where
  open content use {Options, Data, Points}

  pub found :
      (db : Database content) (k : String) (e : Entry Options Data)
      → IsConsistent content db
      → get k (db.collections) ≡ some e
      → find_id (e.coll_id) (db.collections) ≡ some (k, e)
  found db k e inv h =
      find_id-get (db.collections) k e (inv.unique) (λ j f g i. inv.distinct k j e f h g i) h

  -- An entry that the operation has written to the journal gives the registry that the operation
  -- gives.
  abbrev pub Replays : Database content → Database content → Logged Options Points → Type 0
  Replays db db' op =
      (id : ℕ) × (append content (db.persistence) id op ≡ ok (db'.persistence))
      × (again : Database content) × (apply_wal_entry content db id op ≡ ok again)
      × (again.collections ≡ db'.collections)
      × (again.aliases ≡ db'.aliases)

  -- The replay of a new alias gives what `create_alias` gave, in a consistent registry.
  pub create_alias-replay :
      (db db' : Database content) (name target : String)
      → IsConsistent content db
      → create_alias content db name target ≡ ok db'
      → Replays db db' (alias true name)
  unfolding apply_wal_entry replay_alias
  create_alias-replay db db' name target inv h =
      let r = create_alias-ok content db db' name target h in
      (
        r.0.coll_id,
        r.5 ∙ ap (λ d. ok (d.persistence)) (r.6),
        _,
        ap (λ o. ok (replay_alias content db o true name)) (found db target (r.0) inv (r.2)),
        ap (λ d. d.collections) (r.6),
        ap (λ d. d.aliases) (r.6),
      )

  -- The replay of the deletion of an alias gives what `delete_alias` gave, in a consistent registry.
  pub delete_alias-replay :
      (db db' : Database content) (name : String)
      → IsConsistent content db
      → delete_alias content db name ≡ ok db'
      → Replays db db' (alias false name)
  unfolding apply_wal_entry replay_alias append_unalias
  delete_alias-replay db db' name inv h =
      let r = delete_alias-ok content db db' name h in
      let f = inv.forward name (r.0) (r.2) in
      (
        f.0.coll_id,
        sym (ap (λ o. append_unalias content (db.persistence) o name) (f.1))
            ∙ r.3
            ∙ ap (λ d. ok (d.persistence)) (r.4),
        _,
        ap (λ o. ok (replay_alias content db o false name)) (found db (r.0) (f.0) inv (f.1)),
        ap (λ d. d.collections) (r.4),
        ap (λ d. d.aliases) (r.4),
      )

  same_alias :
      (db db' : Database content) (x : String) (o : Option String)
      → db.collections ≡ db'.collections
      → get x (db.collections) ≡ none
      → get x (db.aliases) ≡ o
      → get x (db'.aliases) ≡ get x (db.aliases)
      → resolve content db x ≡ resolve content db' x
  same_alias db db' x none cs n a s =
      resolve_nothing content db x n a
      ∙ sym (resolve_nothing content db' x (sym (ap (get x) cs) ∙ n) (s ∙ a))
  same_alias db db' x (some t) cs n a s =
      let n' = sym (ap (get x) cs) ∙ n in
      elim (Option-cases (get t (db.collections))) [
        | inl m ↦
            resolve_dangling content db x t n a m
            ∙ sym (resolve_dangling content db' x t n' (s ∙ a) (sym (ap (get t) cs) ∙ m))
        | inr (f, m) ↦
            resolve_alias content db x t f n a m
            ∙ sym (resolve_alias content db' x t f n' (s ∙ a) (sym (ap (get t) cs) ∙ m))
      ]

  -- What a name resolves to depends on the collections and the aliases only.
  resolve_same :
      (db db' : Database content) (x : String)
      → db.collections ≡ db'.collections
      → db.aliases ≡ db'.aliases
      → resolve content db x ≡ resolve content db' x
  resolve_same db db' x cs names = elim (Option-cases (get x (db.collections))) [
    | inr (w, h) ↦
        resolve_name content db x w h ∙ sym (resolve_name content db' x w (sym (ap (get x) cs) ∙ h))
    | inl n ↦ same_alias db db' x (get x (db.aliases)) cs n refl (sym (ap (get x) names))
  ]

  -- Aliases of a collection that is not there resolve to nothing, as if they were not there.
  dangling :
      (db db' : Database content) (name : String) (names : List String)
      → db.collections ≡ db'.collections
      → ((y : String) → get y (db'.aliases) ≡ (if listed y names then none else get y (db.aliases)))
      → ((y : String) → listed y names ≡ true → get y (db.aliases) ≡ some name)
      → get name (db.collections) ≡ none
      → (x : String) → resolve content db x ≡ resolve content db' x
  dangling db db' name names cs kept target gone x = elim (Option-cases (get x (db.collections))) [
    | inr (w, h) ↦
        resolve_name content db x w h ∙ sym (resolve_name content db' x w (sym (ap (get x) cs) ∙ h))
    | inl n ↦
        let n' = sym (ap (get x) cs) ∙ n in
        elim (Bool-cases (listed x names)) [
          | inl l ↦
              resolve_dangling content db x name n (target x l) gone
              ∙ sym (
                  resolve_nothing content db' x n'
                    (kept x ∙ ap (λ b. if b then none else get x (db.aliases)) l))
          | inr l ↦
              same_alias db db' x (get x (db.aliases)) cs n refl
                (kept x ∙ ap (λ b. if b then none else get x (db.aliases)) l)
        ]
  ]

  -- The replay of a deletion gives the collections of `delete_collection`; the aliases that it leaves
  -- resolve to nothing, so that every name resolves to the same.
  pub delete_collection-replay :
      (db db' : Database content) (name x : String)
      → IsConsistent content db
      → delete_collection content db name ≡ ok db'
      → (id : ℕ) × (append content (db.persistence) id drop_coll ≡ ok (db'.persistence))
        × (again : Database content) × (apply_wal_entry content db id drop_coll ≡ ok again)
        × (again.collections ≡ db'.collections)
        × (resolve content again x ≡ resolve content db' x)
  unfolding apply_wal_entry replay_drop
  delete_collection-replay db db' name x inv h =
      let r = delete_collection-ok content db db' name h in
      let e = r.0 in
      let again : Database content = replay_drop content db (some (name, e)) in
      let gone : Database content =
        with_collections content db (remove name (db.collections))
          (remove_all (e.aliases) (db.aliases)) (r.1) (as_deleted content e ∷ db.dropped) in
      (
        e.coll_id,
        r.3 ∙ ap (λ d. ok (d.persistence)) (r.4),
        again,
        ap (λ o. ok (replay_drop content db o)) (found db name e inv (r.2)),
        ap (λ d. d.collections) (r.4),
        dangling again gone name (e.aliases) refl (λ y. get-remove_all y (e.aliases) (db.aliases))
              (λ y m. inv.back name y e (r.2) m) (get-remove name (db.collections)) x
            ∙ ap (λ d. resolve content d x) (r.4),
      )

  -- An operation that succeeded, and the entry that it writes to the journal.
  pub data Journaled (db db' : Database content) : Logged Options Points → Type 0 where
    aliased :
        (name target : String)
        → create_alias content db name target ≡ ok db'
        → Journaled db db' (alias true name)
    unaliased :
        (name : String)
        → delete_alias content db name ≡ ok db'
        → Journaled db db' (alias false name)
    deleted :
        (name : String) → delete_collection content db name ≡ ok db' → Journaled db db' drop_coll

  -- In a consistent registry, the journal entry of create_alias, delete_alias or delete_collection
  -- replays to the collections that the operation gave, and every name resolves to the same.
  pub Journaled-replay :
      (db db' : Database content) (op : Logged Options Points) (x : String)
      → IsConsistent content db
      → Journaled db db' op
      → (id : ℕ) × (append content (db.persistence) id op ≡ ok (db'.persistence))
        × (again : Database content) × (apply_wal_entry content db id op ≡ ok again)
        × (again.collections ≡ db'.collections)
        × (resolve content again x ≡ resolve content db' x)
  Journaled-replay db db' _ x inv (aliased name target h) =
      let r = create_alias-replay db db' name target inv h in
      (r.0, r.1, r.2, r.3, r.4, resolve_same (r.2) db' x (r.4) (r.5))
  Journaled-replay db db' _ x inv (unaliased name h) =
      let r = delete_alias-replay db db' name inv h in
      (r.0, r.1, r.2, r.3, r.4, resolve_same (r.2) db' x (r.4) (r.5))
  Journaled-replay db db' _ x inv (deleted name h) = delete_collection-replay db db' name x inv h
