-- ===== src/Database.antt =====
-- crates/veclite/src/database.rs: the registry of collections and aliases. What a collection keeps
-- and how its embedder is made is an interface; the journal has the entries with decoded bodies.
pub mod Create
pub mod Edit
pub mod Maps
pub mod Registry
pub mod Rename
pub mod Modify
pub mod Aliases
pub mod Resolve
pub mod Delete
pub mod Created
pub mod Embedders
pub mod Reachable
pub mod Replay
pub mod Recovered
pub mod Lost
use veclite.Base.{
  ℕ, ◌≡◌, ◌+◌, ◌-◌, String, Bool, true, false, not, ◌&&◌, ◌||◌, ◌==◌, ltb, Option, none, some, List,
  [], ◌∷◌, ◌++◌, map, if◌then◌else◌, same,
}
use veclite.Error.{
  VecLiteError, unsupported_provider, already_exists, collection_not_found, invalid_argument,
  read_only, Result, ok, err, guard, ok_or, ◌>>=◌, ◌>>◌,
}
use veclite.Dict.{get, insert, remove, contains_key}
use veclite.Filter.KeyIndex.{PayloadIndexKind}
use veclite.Point.{validate_collection_name}

-- `MAX_DIMENSION`
abbrev pub max_dimension : ℕ
max_dimension = 65536

-- Of a `u32`.
abbrev pub coll_id_limit : ℕ
coll_id_limit = 4294967296

-- The provider of a collection's embeddings.
pub data EmbedderSlot (E : Type 0) : Type 0 where
  no_embedder : EmbedderSlot E
  ready : E → EmbedderSlot E
  missing : String → EmbedderSlot E

-- What the registry uses of collections and of embedding providers.
pub record Contents : Type 1 where
  pub Options : Type 0
  pub Data : Type 0
  pub Embedder : Type 0
  pub Points : Type 0
  pub dimension : Options → ℕ
  pub embedding_provider : Options → Option String
  pub payload_indexes : Options → List (String × PayloadIndexKind)
  pub build_provider : String → ℕ → Result Embedder
  pub is_builtin : String → Bool
  pub bind_embedder : Data → String → Embedder → Result Data
  pub with_embedder : Options → EmbedderSlot Embedder → Result Data
  pub sort : List String → List String
  pub replay_upsert : Data → Points → Result Data
  pub replay_delete : Data → List String → Data
  pub replay_declare_index : Data → String → PayloadIndexKind → Data
  pub replay_import_vocab : Data → List ℕ → Result Data
  -- `config::from_stored` after `config::to_stored`
  pub stored : Options → Options

-- `CollectionInner`, as far as the registry reads it.
pub record Entry (O D : Type 0) : Type 0 where
  pub coll_id : ℕ
  pub name : String
  pub aliases : List String
  pub deleted : Bool
  pub config : O
  pub contents : D

-- The journaled operations, with their bodies.
pub data Logged (O P : Type 0) : Type 0 where
  create_coll : String → List String → O → Logged O P
  drop_coll : Logged O P
  rename : String → Logged O P
  alias : Bool → String → Logged O P
  pidx_declare : String → PayloadIndexKind → Logged O P
  upsert_batch : P → Logged O P
  delete_batch : List String → Logged O P
  vocab_update : List ℕ → Logged O P

-- `Persistence`, as far as the registry uses it.
pub record Journal (O P : Type 0) : Type 0 where
  pub is_read_only : Bool
  pub entries : List (ℕ × Logged O P)

module _ (content : Contents) where
  open content use {Options, Data, Embedder, Points}

  -- `DatabaseInner`. `dropped` has the deleted collections, which handles may still point at.
  pub record Database : Type 0 where
    pub collections : List (String × Entry Options Data)
    pub aliases : List (String × String)
    pub registered_embedders : List (String × Embedder)
    pub next_coll_id : ℕ
    pub persistence : Option (Journal Options Points)
    pub dropped : List (Entry Options Data)

  -- Without collections: `memory` has no journal, a new file an empty one.
  unfoldable pub fresh : Option (Journal Options Points) → Database
  fresh persistence = record {
    collections = [];
    aliases = [];
    registered_embedders = [];
    next_coll_id = 1;
    persistence = persistence;
    dropped = [];
  }

  unfoldable pub memory : Database
  unfolding fresh
  memory = fresh none

  -- `if let Some(p) = &self.inner.persistence { p.append(..)? }`
  unfoldable pub append :
      Option (Journal Options Points)
      → ℕ
      → Logged Options Points
      → Result (Option (Journal Options Points))
  append none coll_id op = ok none
  append (some j) coll_id op =
      if j.is_read_only
      then err read_only
      else ok (some (record { is_read_only = false; entries = j.entries ++ (coll_id, op) ∷ [] }))

  abbrev pub with_collections :
      Database
      → List (String × Entry Options Data)
      → List (String × String)
      → Option (Journal Options Points)
      → List (Entry Options Data)
      → Database
  with_collections db collections aliases p dropped = record {
    collections = collections;
    aliases = aliases;
    registered_embedders = db.registered_embedders;
    next_coll_id = db.next_coll_id;
    persistence = p;
    dropped = dropped;
  }
