-- ===== src/Database/Edit.antt =====
-- Lookups, aliases, deletion and renaming of database.rs.
use veclite.Base.{String, true, false, not, ◌||◌, Option, none, some, List, [], ◌∷◌, ◌++◌}
use veclite.Error.{already_exists, collection_not_found, Result, ok, err, guard, ok_or, ◌>>=◌, ◌>>◌}
use veclite.Dict.{get, insert, remove, contains_key, modify}
use veclite.Database.Maps.{without, remove_all, repoint}
use veclite.Point.{validate_collection_name}
use veclite.Database.{
  Contents, Entry, drop_coll, rename, alias, Journal, Database, append, with_collections,
}

module _ (content : Contents) where
  open content use {Options, Data, Embedder, Points}

  unfoldable pub by_alias : Database content → String → Option String → Result (Entry Options Data)
  unfolding get
  by_alias db name none = err (collection_not_found name)
  by_alias db name (some target) = ok_or (get target (db.collections)) (collection_not_found name)

  unfoldable pub by_name :
      Database content → String → Option (Entry Options Data) → Result (Entry Options Data)
  unfolding get by_alias
  by_name db name (some entry) = ok entry
  by_name db name none = by_alias db name (get name (db.aliases))

  -- A handle is the entry that it points at.
  unfoldable pub collection : Database content → String → Result (Entry Options Data)
  unfolding get by_name
  collection db name = by_name db name (get name (db.collections))

  abbrev pub set_aliases : Entry Options Data → List String → Entry Options Data
  set_aliases entry aliases = record {
    coll_id = entry.coll_id;
    name = entry.name;
    aliases = aliases;
    deleted = entry.deleted;
    config = entry.config;
    contents = entry.contents;
  }

  unfoldable pub push_alias : String → Entry Options Data → Entry Options Data
  push_alias name entry = set_aliases entry (entry.aliases ++ name ∷ [])

  unfoldable pub drop_alias : String → Entry Options Data → Entry Options Data
  unfolding without
  drop_alias name entry = set_aliases entry (without name (entry.aliases))

  unfoldable pub create_alias : Database content → String → String → Result (Database content)
  unfolding validate_collection_name contains_key get append insert modify push_alias
  create_alias db name target = do
    validate_collection_name name
    guard (not (contains_key name (db.collections) || contains_key name (db.aliases)))
        (already_exists name)
    entry ← ok_or (get target (db.collections)) (collection_not_found target)
    p ← append content (db.persistence) (entry.coll_id) (alias true name)
    ok (
        with_collections content db (modify target (push_alias name) (db.collections))
          (insert name target (db.aliases)) p (db.dropped))

  -- `delete_alias` writes to the journal only if the target is there.
  unfoldable pub append_unalias :
      Option (Journal Options Points)
      → Option (Entry Options Data)
      → String
      → Result (Option (Journal Options Points))
  unfolding append
  append_unalias p none name = ok p
  append_unalias p (some entry) name = append content p (entry.coll_id) (alias false name)

  unfoldable pub delete_alias : Database content → String → Result (Database content)
  unfolding get append_unalias remove modify drop_alias
  delete_alias db name = do
    target ← ok_or (get name (db.aliases)) (collection_not_found name)
    p ← append_unalias (db.persistence) (get target (db.collections)) name
    ok (
        with_collections content db (modify target (drop_alias name) (db.collections))
          (remove name (db.aliases)) p (db.dropped))

  abbrev pub as_deleted : Entry Options Data → Entry Options Data
  as_deleted entry = record {
    coll_id = entry.coll_id;
    name = entry.name;
    aliases = entry.aliases;
    deleted = true;
    config = entry.config;
    contents = entry.contents;
  }

  unfoldable pub delete_collection : Database content → String → Result (Database content)
  unfolding get append remove remove_all
  delete_collection db name = do
    entry ← ok_or (get name (db.collections)) (collection_not_found name)
    p ← append content (db.persistence) (entry.coll_id) drop_coll
    ok (
        with_collections content db (remove name (db.collections))
          (remove_all (entry.aliases) (db.aliases)) p (as_deleted entry ∷ db.dropped))

  abbrev pub set_name : Entry Options Data → String → Entry Options Data
  set_name entry to = record {
    coll_id = entry.coll_id;
    name = to;
    aliases = entry.aliases;
    deleted = entry.deleted;
    config = entry.config;
    contents = entry.contents;
  }

  unfoldable pub rename_collection : Database content → String → String → Result (Database content)
  unfolding validate_collection_name contains_key get append insert remove repoint
  rename_collection db from to = do
    validate_collection_name to
    guard (not (contains_key to (db.collections))) (already_exists to)
    entry ← ok_or (get from (db.collections)) (collection_not_found from)
    p ← append content (db.persistence) (entry.coll_id) (rename to)
    ok (
        with_collections content db (insert to (set_name entry to) (remove from (db.collections)))
          (repoint (entry.aliases) to (db.aliases)) p (db.dropped))
