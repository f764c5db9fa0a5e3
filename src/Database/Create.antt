-- ===== src/Database/Create.antt =====
-- `create_collection_impl` of database.rs. It changes the database in an error too.
use veclite.Base.{
  ℕ, ◌+◌, ◌%◌, String, Bool, true, false, not, ◌||◌, ◌==◌, ltb, Option, none, some, List, [], ◌∷◌,
  ◌++◌, map,
}
use veclite.Error.{
  VecLiteError, unsupported_provider, already_exists, invalid_argument, Result, ok, err, guard,
  ◌>>=◌, ◌>>◌,
}
use veclite.Dict.{get, insert, contains_key}
use veclite.Filter.KeyIndex.{PayloadIndexKind}
use veclite.Point.{validate_collection_name}
use veclite.Database.{
  Contents, Entry, create_coll, pidx_declare, Journal, EmbedderSlot, no_embedder, ready, missing,
  Database, append, with_collections, max_dimension, coll_id_limit,
}

module _ (content : Contents) where
  open content use {Options, Data, Embedder, Points}

  -- The loop over the declared indexes of a new collection.
  unfoldable pub append_indexes :
      Option (Journal Options Points)
      → ℕ
      → List (String × PayloadIndexKind)
      → Result (Option (Journal Options Points))
  unfolding append
  append_indexes p coll_id [] = ok p
  append_indexes p coll_id ((key, kind) ∷ rest) = do
    p' ← append content p coll_id (pidx_declare key kind)
    append_indexes p' coll_id rest

  abbrev keys : List (String × Embedder) → List String
  keys m = map (λ e. e.0) m

  unfoldable pub with_registered_in_available : Database content → VecLiteError → VecLiteError
  with_registered_in_available db (unsupported_provider requested available) =
      unsupported_provider requested (content.sort (available ++ keys (db.registered_embedders)))
  with_registered_in_available db e = e

  registered_slot :
      Database content
      → String
      → Bool
      → VecLiteError
      → Option Embedder
      → Result (EmbedderSlot Embedder)
  unfolding with_registered_in_available
  registered_slot db provider deferred e (some shared) = ok (ready shared)
  registered_slot db provider true e none = ok (missing provider)
  registered_slot db provider false e none = err (with_registered_in_available db e)

  provider_slot :
      Database content → String → Bool → Result Embedder → Result (EmbedderSlot Embedder)
  unfolding registered_slot
  provider_slot db provider deferred (ok built) = ok (ready built)
  provider_slot db provider deferred (err e) =
      registered_slot db provider deferred e (get provider (db.registered_embedders))

  unfoldable pub embedder_slot :
      Database content → Option String → ℕ → Bool → Result (EmbedderSlot Embedder)
  unfolding provider_slot
  embedder_slot db none dimension deferred = ok no_embedder
  embedder_slot db (some provider) dimension deferred =
      provider_slot db provider deferred (content.build_provider provider dimension)

  abbrev pub check_dimension : ℕ → Result (Unit {0})
  check_dimension dimension =
      guard (not ((dimension == 0) || ltb max_dimension dimension))
        (invalid_argument "dimension must be in 1..={MAX_DIMENSION}, got {}")

  -- What is checked before the name is taken, and the embedder.
  unfoldable pub create_checks :
      Database content → String → Options → Bool → Result (EmbedderSlot Embedder)
  unfolding embedder_slot contains_key validate_collection_name
  create_checks db name options deferred = do
    validate_collection_name name
    check_dimension (content.dimension options)
    slot ←
        embedder_slot db (content.embedding_provider options) (content.dimension options) deferred
    guard (not (contains_key name (db.collections))) (already_exists name)
    ok slot

  abbrev pub new_entry : ℕ → String → Options → Data → Entry Options Data
  new_entry coll_id name options contents = record {
    coll_id = coll_id;
    name = name;
    aliases = [];
    deleted = false;
    config = options;
    contents = contents;
  }

  -- After `fetch_add` on an `AtomicU32`, which wraps around, with the journal `p`.
  abbrev pub id_taken : Database content → Option (Journal Options Points) → Database content
  id_taken db p = record {
    collections = db.collections;
    aliases = db.aliases;
    registered_embedders = db.registered_embedders;
    next_coll_id = (db.next_coll_id + 1) % coll_id_limit;
    persistence = p;
    dropped = db.dropped;
  }

  unfoldable pub create_built :
      Database content → ℕ → String → Options → Result Data → Database content × Result (Unit {0})
  unfolding insert
  create_built db coll_id name options (err e) = (db, err e)
  create_built db coll_id name options (ok contents) = (
    with_collections content db
        (insert name (new_entry coll_id name options contents) (db.collections)) (db.aliases)
        (db.persistence) (db.dropped),
    ok tt,
  )

  unfoldable pub create_indexed :
      Database content
      → String
      → Options
      → EmbedderSlot Embedder
      → Option (Journal Options Points)
      → Result (Option (Journal Options Points))
      → Database content × Result (Unit {0})
  unfolding create_built
  create_indexed db name options slot p (err e) = (id_taken db p, err e)
  create_indexed db name options slot p (ok q) =
      create_built (id_taken db q) db.next_coll_id name options (content.with_embedder options slot)

  unfoldable pub create_journaled :
      Database content
      → String
      → Options
      → EmbedderSlot Embedder
      → Result (Option (Journal Options Points))
      → Database content × Result (Unit {0})
  unfolding create_indexed append_indexes
  create_journaled db name options slot (err e) = (id_taken db (db.persistence), err e)
  create_journaled db name options slot (ok p) =
      create_indexed db name options slot p
        (append_indexes p (db.next_coll_id) (content.payload_indexes options))

  unfoldable pub create_checked :
      Database content
      → String
      → Options
      → Result (EmbedderSlot Embedder)
      → Database content × Result (Unit {0})
  unfolding create_journaled append
  create_checked db name options (err e) = (db, err e)
  create_checked db name options (ok slot) =
      create_journaled db name options slot
        (append content (db.persistence) (db.next_coll_id) (create_coll name [] options))

  -- The database changes in an error too: an id is taken before the journal is written.
  unfoldable pub create_collection_impl :
      Database content → String → Options → Bool → Database content × Result (Unit {0})
  unfolding create_checks create_checked
  create_collection_impl db name options deferred =
      create_checked db name options (create_checks db name options deferred)

  unfoldable pub create_collection :
      Database content → String → Options → Database content × Result (Unit {0})
  unfolding create_collection_impl
  create_collection db name options = create_collection_impl db name options false
