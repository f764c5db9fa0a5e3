-- ===== src/Database/Lost.antt =====
-- The replay of a renaming of database.rs.
use veclite.Base.{ℕ, ◌≡◌, ap, ◌∙◌, String, false, none, some, same, if◌then◌else◌}
use veclite.Error.{ok}
use veclite.Dict.{get, remove, get-insert_other, get-remove, get-remove_other}
use veclite.Database.{Contents, rename, Database, append}
use veclite.Database.Edit.{rename_collection, set_name}
use veclite.Database.Registry.{IsConsistent, rename_collection-ok}
use veclite.Database.Rename.{differ, differ_from}
use veclite.Database.Resolve.{resolve, rename_collection-resolve, resolve_alias, resolve_dangling}
use veclite.Database.Replay.{apply_wal_entry, replay_rename}
use veclite.Database.Recovered.{found}

module _ (content : Contents) where
  open content use {Options, Data, Points}

  -- The replay of a renaming gives the collections of `rename_collection`, but not the aliases: one
  -- that resolved to the collection resolves to nothing afterwards.
  pub rename_collection-replay :
      (db db' : Database content) (from to a : String)
      → IsConsistent content db
      → rename_collection content db from to ≡ ok db'
      → get a (db.collections) ≡ none
      → get a (db.aliases) ≡ some from
      → same to a ≡ false
      → (id : ℕ) × (append content (db.persistence) id (rename to) ≡ ok (db'.persistence))
        × (again : Database content) × (apply_wal_entry content db id (rename to) ≡ ok again)
        × (again.collections ≡ db'.collections)
        × (resolve content db' a ≡ some id)
        × (resolve content again a ≡ none)
  unfolding apply_wal_entry replay_rename
  rename_collection-replay db db' from to a inv h n al d =
      let r = rename_collection-ok content db db' from to h in
      let e = r.0 in
      let again : Database content = replay_rename content db (some (from, e)) to in
      let other = differ from a e (db.collections) (r.2) n in
      let back = differ_from from to e (db.collections) (r.2) (r.3) in
      (
        e.coll_id,
        r.4 ∙ ap (λ x. ok (x.persistence)) (r.5),
        again,
        ap (λ o. ok (replay_rename content db o to)) (found content db from e inv (r.2)),
        ap (λ x. x.collections) (r.5),
        rename_collection-resolve content db db' from to a inv h other
            ∙ ap (λ b. if b then resolve content db from else resolve content db a) d
            ∙ resolve_alias content db a from e n al (r.2),
        resolve_dangling content again a from
            (get-insert_other to a (set_name content e to) (remove from (db.collections)) d
              ∙ get-remove_other from a (db.collections) other
              ∙ n)
            al
            (get-insert_other to from (set_name content e to) (remove from (db.collections)) back
              ∙ get-remove from (db.collections)),
      )
