-- ===== src/Database/Replay.antt =====
-- `apply_wal_entry` and `install_collection` of database.rs on the registry.
use veclite.Base.{
  ℕ, max, String, Bool, true, false, ◌==◌, Option, none, some, List, [], ◌∷◌, if◌then◌else◌,
}
use veclite.Error.{Result, ok, err, ◌>>=◌}
use veclite.Dict.{get, insert, remove, modify}
use veclite.Database.{
  Contents, Entry, Logged, create_coll, drop_coll, rename, alias, pidx_declare, upsert_batch,
  delete_batch, vocab_update, EmbedderSlot, no_embedder, ready, missing, Database, with_collections,
}
use veclite.Database.Maps.{repoint}
use veclite.Database.Edit.{push_alias, drop_alias, set_name, as_deleted}

module _ {O D : Type 0} where
  -- `collections.iter().find(|e| e.coll_id == coll_id)`
  unfoldable pub find_id : ℕ → List (String × Entry O D) → Option (String × Entry O D)
  find_id id [] = none
  find_id id ((k, e) ∷ m) = if e.coll_id == id then some (k, e) else find_id id m

module _ (content : Contents) where
  open content use {Options, Data, Embedder, Points}

  lenient_registered : String → Option Embedder → EmbedderSlot Embedder
  lenient_registered provider (some shared) = ready shared
  lenient_registered provider none = missing provider

  lenient : Database content → String → Result Embedder → EmbedderSlot Embedder
  unfolding lenient_registered get
  lenient db provider (ok built) = ready built
  lenient db provider (err e) = lenient_registered provider (get provider (db.registered_embedders))

  -- A provider that is not there does not fail.
  unfoldable pub lenient_slot : Database content → Option String → ℕ → EmbedderSlot Embedder
  unfolding lenient
  lenient_slot db none dimension = no_embedder
  lenient_slot db (some provider) dimension =
      lenient db provider (content.build_provider provider dimension)

  -- `install_collection` of a collection without points or vocabulary, as the journal creates it.
  unfoldable pub install_collection :
      Database content → String → ℕ → List String → Options → Result (Database content)
  unfolding lenient_slot repoint insert
  install_collection db name coll_id aliases options = do
    contents ←
        content.with_embedder options
          (lenient_slot db (content.embedding_provider options) (content.dimension options))
    ok (
        with_collections content db
          (insert name
            (record {
              coll_id = coll_id;
              name = name;
              aliases = aliases;
              deleted = false;
              config = options;
              contents = contents;
            })
            (db.collections))
          (repoint aliases name (db.aliases)) (db.persistence) (db.dropped))

  unfoldable pub set_contents : Data → Entry Options Data → Entry Options Data
  set_contents contents e = record {
    coll_id = e.coll_id;
    name = e.name;
    aliases = e.aliases;
    deleted = e.deleted;
    config = e.config;
    contents = contents;
  }

  -- A replayed write of the collection with an id, if it is there.
  unfoldable pub on_contents :
      Database content
      → Option (String × Entry Options Data)
      → (Data → Result Data)
      → Result (Database content)
  unfolding modify set_contents
  on_contents db none change = ok db
  on_contents db (some (k, e)) change = do
    contents ← change (e.contents)
    ok (
        with_collections content db (modify k (set_contents contents) (db.collections)) (db.aliases)
          (db.persistence) (db.dropped))

  unfoldable pub replay_create :
      Database content
      → Option (String × Entry Options Data)
      → ℕ
      → String
      → List String
      → Options
      → Result (Database content)
  unfolding install_collection
  replay_create db (some found) coll_id name aliases options = ok db
  replay_create db none coll_id name aliases options =
      install_collection db name coll_id aliases (content.stored options)

  unfoldable pub replay_drop :
      Database content → Option (String × Entry Options Data) → Database content
  unfolding remove
  replay_drop db none = db
  replay_drop db (some (k, e)) =
      with_collections content db (remove k (db.collections)) (db.aliases) (db.persistence)
        (as_deleted content e ∷ db.dropped)

  unfoldable pub replay_rename :
      Database content → Option (String × Entry Options Data) → String → Database content
  unfolding remove insert
  replay_rename db none to = db
  replay_rename db (some (k, e)) to =
      with_collections content db (insert to (set_name content e to) (remove k (db.collections)))
        (db.aliases) (db.persistence) (db.dropped)

  unfoldable pub replay_alias :
      Database content → Option (String × Entry Options Data) → Bool → String → Database content
  unfolding insert remove modify push_alias drop_alias
  replay_alias db none create name = db
  replay_alias db (some (k, e)) true name =
      with_collections content db (modify k (push_alias content name) (db.collections))
        (insert name k (db.aliases)) (db.persistence) (db.dropped)
  replay_alias db (some (k, e)) false name =
      with_collections content db (modify k (drop_alias content name) (db.collections))
        (remove name (db.aliases)) (db.persistence) (db.dropped)

  -- `apply_wal_entry`, after the decoding of the body.
  unfoldable pub apply_wal_entry :
      Database content → ℕ → Logged Options Points → Result (Database content)
  unfolding find_id replay_create replay_drop replay_rename replay_alias on_contents
  apply_wal_entry db id (create_coll name aliases options) =
      replay_create db (find_id id (db.collections)) id name aliases options
  apply_wal_entry db id drop_coll = ok (replay_drop db (find_id id (db.collections)))
  apply_wal_entry db id (rename to) = ok (replay_rename db (find_id id (db.collections)) to)
  apply_wal_entry db id (alias create name) =
      ok (replay_alias db (find_id id (db.collections)) create name)
  apply_wal_entry db id (pidx_declare key kind) =
      on_contents db (find_id id (db.collections))
        (λ c. ok (content.replay_declare_index c key kind))
  apply_wal_entry db id (upsert_batch points) =
      on_contents db (find_id id (db.collections)) (λ c. content.replay_upsert c points)
  apply_wal_entry db id (delete_batch ids) =
      on_contents db (find_id id (db.collections)) (λ c. ok (content.replay_delete c ids))
  apply_wal_entry db id (vocab_update bytes) =
      on_contents db (find_id id (db.collections)) (λ c. content.replay_import_vocab c bytes)

  -- The loop of `open_with` over the recovered entries, with the greatest id so far.
  unfoldable pub replay_all :
      Database content → List (ℕ × Logged Options Points) → ℕ → Result (Database content × ℕ)
  unfolding apply_wal_entry
  replay_all db [] max_id = ok (db, max_id)
  replay_all db ((id, op) ∷ rest) max_id = do
    db' ← apply_wal_entry db id op
    replay_all db' rest (max max_id id)
