-- ===== src/Tests/Registry.antt =====
-- The theorems on the registry, on two collections and an alias.
use veclite.Base.{arith, ℕ, ◌≡◌, refl, true, false, Option, none, some, [], same, if◌then◌else◌}
use veclite.Error.{Result, ok, err}
use veclite.Dict.{get, insert, remove, contains_key, modify}
use veclite.Point.{validate_collection_name, any_char, starts, ends, is_whitespace}
use veclite.Database.{Contents, Journal, Database, fresh, append, alias, rename}
use veclite.Database.Create.{
  create_collection, create_collection_impl, create_checks, create_checked, create_journaled,
  create_indexed, create_built, append_indexes, embedder_slot,
}
use veclite.Database.Maps.{repoint, remove_all}
use veclite.Database.Edit.{create_alias, delete_collection, rename_collection, push_alias}
use veclite.Database.Registry.{IsConsistent}
use veclite.Database.Reachable.{
  Reachable, NoWrap, start, next, creates, aliases, Reachable-IsConsistent,
}
use veclite.Database.Resolve.{resolve, rename_collection-resolve}
use veclite.Database.Delete.{delete_collection-resolve, is_id}
use veclite.Database.Replay.{apply_wal_entry}
use veclite.Database.Recovered
use veclite.Database.Recovered.{Journaled-replay}
use veclite.Database.Lost.{rename_collection-replay}

-- Collections without contents, of a number of dimensions.
abbrev content : Contents
content = record {
  Options = ℕ;
  Data = Unit {0};
  Embedder = Unit {0};
  Points = ℕ;
  dimension = λ n. n;
  embedding_provider = λ _. none;
  payload_indexes = λ _. [];
  build_provider = λ _ _. ok tt;
  is_builtin = λ _. false;
  bind_embedder = λ _ _ _. ok tt;
  with_embedder = λ _ _. ok tt;
  sort = λ names. names;
  replay_upsert = λ _ _. ok tt;
  replay_delete = λ _ _. tt;
  replay_declare_index = λ _ _ _. tt;
  replay_import_vocab = λ _ _. ok tt;
  stored = λ n. n;
}

abbrev or_else : Result (Database content) → Database content → Database content
or_else (ok db) other = db
or_else (err e) other = other

abbrev journal : Option (Journal ℕ ℕ)
journal = some (record { is_read_only = false; entries = [] })

abbrev one : Database content
one = (create_collection content (fresh content journal) "a" 3).0

abbrev two : Database content
two = (create_collection content one "b" 4).0

abbrev aliased : Database content
aliased = or_else (create_alias content two "x" "a") two

alias_made : create_alias content two "x" "a" ≡ ok aliased
unfolding create_collection create_collection_impl create_checks create_checked create_journaled
    create_indexed create_built append_indexes embedder_slot create_alias append insert remove
    modify get contains_key same validate_collection_name push_alias fresh any_char starts ends
    is_whitespace
alias_made = refl

abbrev two_history : Reachable content two
two_history =
    next (next (start journal) (creates (fresh content journal) "a" 3)) (creates one "b" 4)

two_unwrapped : NoWrap content two_history
unfolding create_collection create_collection_impl create_checks create_checked create_journaled
    create_indexed create_built append_indexes embedder_slot create_alias append insert remove
    modify get contains_key same validate_collection_name push_alias fresh any_char starts ends
    is_whitespace
two_unwrapped = ((tt, omega arith), omega arith)

abbrev aliased_history : Reachable content aliased
aliased_history = next two_history (aliases "x" "a" alias_made)

Reachable-IsConsistent_example : IsConsistent content aliased
Reachable-IsConsistent_example =
    Reachable-IsConsistent content aliased aliased_history (two_unwrapped, tt)

two_ok : IsConsistent content two
two_ok = Reachable-IsConsistent content two two_history two_unwrapped

aliased_ok : IsConsistent content aliased
aliased_ok = Reachable-IsConsistent content aliased aliased_history (two_unwrapped, tt)

Journaled-replay_example :
    (id : ℕ) × (append content (two.persistence) id (alias true "x") ≡ ok (aliased.persistence))
    × (again : Database content) × (apply_wal_entry content two id (alias true "x") ≡ ok again)
    × (again.collections ≡ aliased.collections)
    × (resolve content again "x" ≡ resolve content aliased "x")
Journaled-replay_example =
    Journaled-replay content two aliased (alias true "x") "x" two_ok
      (Recovered.aliased "x" "a" alias_made)

abbrev renamed : Database content
renamed = or_else (rename_collection content aliased "a" "c") two

rename_made : rename_collection content aliased "a" "c" ≡ ok renamed
unfolding create_collection create_collection_impl create_checks create_checked create_journaled
    create_indexed create_built append_indexes embedder_slot create_alias append insert remove
    modify get contains_key same validate_collection_name push_alias fresh any_char starts ends
    is_whitespace rename_collection repoint
rename_made = refl

rename_collection-resolve_example :
    resolve content renamed "x"
    ≡ (if same "c" "x" then resolve content aliased "a" else resolve content aliased "x")
unfolding same
rename_collection-resolve_example =
    rename_collection-resolve content aliased renamed "a" "c" "x" aliased_ok rename_made refl

x_free : get "x" (aliased.collections) ≡ none
unfolding create_collection create_collection_impl create_checks create_checked create_journaled
    create_indexed create_built append_indexes embedder_slot create_alias append insert remove
    modify get contains_key same validate_collection_name push_alias fresh any_char starts ends
    is_whitespace
x_free = refl

x_alias : get "x" (aliased.aliases) ≡ some "a"
unfolding create_collection create_collection_impl create_checks create_checked create_journaled
    create_indexed create_built append_indexes embedder_slot create_alias append insert remove
    modify get contains_key same validate_collection_name push_alias fresh any_char starts ends
    is_whitespace
x_alias = refl

rename_collection-replay_example :
    (id : ℕ) × (append content (aliased.persistence) id (rename "c") ≡ ok (renamed.persistence))
    × (again : Database content) × (apply_wal_entry content aliased id (rename "c") ≡ ok again)
    × (again.collections ≡ renamed.collections)
    × (resolve content renamed "x" ≡ some id)
    × (resolve content again "x" ≡ none)
unfolding same
rename_collection-replay_example =
    rename_collection-replay content aliased renamed "a" "c" "x" aliased_ok rename_made x_free
      x_alias refl

abbrev deleted : Database content
deleted = or_else (delete_collection content aliased "a") two

delete_made : delete_collection content aliased "a" ≡ ok deleted
unfolding create_collection create_collection_impl create_checks create_checked create_journaled
    create_indexed create_built append_indexes embedder_slot create_alias append insert remove
    modify get contains_key same validate_collection_name push_alias fresh any_char starts ends
    is_whitespace delete_collection remove_all
delete_made = refl

delete_collection-resolve_example : resolve content deleted "x" ≡ (
    if is_id content (resolve content aliased "a") (resolve content aliased "x")
    then none
    else resolve content aliased "x")
unfolding same
delete_collection-resolve_example =
    delete_collection-resolve content aliased deleted "a" "x" aliased_ok delete_made refl
