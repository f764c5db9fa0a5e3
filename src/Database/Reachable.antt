-- ===== src/Database/Reachable.antt =====
-- The databases that the operations of database.rs lead to from an empty one.
use veclite.Base.{◌+◌, ◌<◌, ◌≡◌, String, Option}
use veclite.Error.{ok}
use veclite.Dict.{get, Unique}
use veclite.Database.{Contents, Journal, Database, fresh, coll_id_limit}
use veclite.Database.Create.{create_collection}
use veclite.Database.Edit.{create_alias, delete_alias, delete_collection, rename_collection}
use veclite.Database.Embedders.{register_embedder, register_embedder-keeps}
use veclite.Database.Registry.{IsConsistent}
use veclite.Database.Rename.{rename_collection-keeps}
use veclite.Database.Delete.{delete_collection-keeps}
use veclite.Database.Aliases.{create_alias-keeps, delete_alias-keeps}
use veclite.Database.Created.{create_collection-keeps}

module _ (content : Contents) where
  open content use {Options, Data, Embedder, Points}

  -- One call of an operation: of `create_collection` and `register_embedder` in success or error, of the
  -- others in success,
  -- as their errors leave the database as it was.
  pub data Step : Database content → Database content → Type 0 where
    creates :
        (db : Database content) (name : String) (options : Options)
        → Step db ((create_collection content db name options).0)
    aliases :
        {db db' : Database content} (name target : String)
        → create_alias content db name target ≡ ok db'
        → Step db db'
    unaliases :
        {db db' : Database content} (name : String)
        → delete_alias content db name ≡ ok db'
        → Step db db'
    deletes :
        {db db' : Database content} (name : String)
        → delete_collection content db name ≡ ok db'
        → Step db db'
    registers :
        (db : Database content) (name : String) (shared : Embedder)
        → Step db ((register_embedder content db name shared).0)
    renames :
        {db db' : Database content} (from to : String)
        → rename_collection content db from to ≡ ok db'
        → Step db db'

  pub data Reachable : Database content → Type 0 where
    start : (p : Option (Journal Options Points)) → Reachable (fresh content p)
    next : {db db' : Database content} → Reachable db → Step db db' → Reachable db'

  -- A creation does not wrap the counter of the ids around, which has 32 bits.
  abbrev pub NoWrapIn : {db db' : Database content} → Step db db' → Type 0
  NoWrapIn (creates db name options) = db.next_coll_id + 1 < coll_id_limit
  NoWrapIn (aliases name target h) = Unit
  NoWrapIn (unaliases name h) = Unit
  NoWrapIn (deletes name h) = Unit
  NoWrapIn (registers db name shared) = Unit
  NoWrapIn (renames from to h) = Unit

  -- No creation on the way does.
  abbrev pub NoWrap : {db : Database content} → Reachable db → Type 0
  NoWrap (start p) = Unit
  NoWrap (next r s) = NoWrap r × NoWrapIn s

  Step-keeps :
      {db db' : Database content} (s : Step db db')
      → NoWrapIn s
      → IsConsistent content db
      → IsConsistent content db'
  Step-keeps (registers db name shared) w inv = register_embedder-keeps content db name shared inv
  Step-keeps (creates db name options) w inv = create_collection-keeps content db name options inv w
  Step-keeps {db = db} {db' = db'} (aliases name target h) w inv =
      create_alias-keeps content db db' name target inv h
  Step-keeps {db = db} {db' = db'} (unaliases name h) w inv =
      delete_alias-keeps content db db' name inv h
  Step-keeps {db = db} {db' = db'} (deletes name h) w inv =
      delete_collection-keeps content db db' name inv h
  Step-keeps {db = db} {db' = db'} (renames from to h) w inv =
      rename_collection-keeps content db db' from to inv h

  fresh-IsConsistent :
      (p : Option (Journal Options Points)) → IsConsistent content (fresh content p)
  unfolding fresh get Unique
  fresh-IsConsistent p = record {
    forward = λ a t h. cc;
    back = λ k a e h l. cc;
    below = λ k e h. cc;
    distinct = λ j k e f h i p. cc;
    unique = tt;
    named = λ k e h. cc;
  }

  -- In every database that the operations lead to without a creation that wraps the counter of the ids
  -- around, the aliases of the collections and the alias map
  -- agree, every entry has its name and an id below the next one, no two share an id, and no name
  -- stands twice.
  pub Reachable-IsConsistent :
      (db : Database content) (r : Reachable db) → NoWrap r → IsConsistent content db
  Reachable-IsConsistent _ (start p) w = fresh-IsConsistent p
  Reachable-IsConsistent _ (next {db = db} r s) w =
      Step-keeps s w.1 (Reachable-IsConsistent db r w.0)
