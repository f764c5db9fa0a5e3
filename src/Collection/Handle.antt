-- ===== src/Collection/Handle.antt =====
-- The operations of the handle `Collection` of collection.rs on its slots, behind the test that the
-- collection was not deleted. The entries of the log are left out.
use veclite.Base.{ℕ, String, Bool, not, Option, List, [], ◌∷◌, ◌==◌}
use veclite.Error.{Result, ok, collection_not_found, guard, ◌>>=◌, ◌>>◌}
use veclite.Collection
use veclite.Collection.{CollectionData, Point}

-- `CollectionInner`, as far as these operations read it.
pub record Handle (V J S : Type 0) : Type 0 where
  pub deleted : Bool
  pub name : String
  pub dimension : ℕ
  pub contents : CollectionData V J S

module _ {V J S : Type 0} where
  unfoldable pub check_deleted : Handle V J S → Result (Unit {0})
  check_deleted h = guard (not h.deleted) (collection_not_found h.name)

  unfoldable pub get : Handle V J S → String → Result (Option (Option (Point V J S)))
  unfolding check_deleted Collection.get
  get h id = do check_deleted h; ok (Collection.get h.contents id h.dimension)

  unfoldable pub delete_batch : Handle V J S → List String → Result (Handle V J S × ℕ)
  unfolding check_deleted Collection.delete_batch
  delete_batch h ids = do
    check_deleted h
    let (contents, removed) = Collection.delete_batch h.contents ids
    ok (record h { contents = contents }, removed)

  unfoldable pub delete : Handle V J S → String → Result (Handle V J S × Bool)
  unfolding delete_batch
  delete h id = do (after, removed) ← delete_batch h (id ∷ []); ok (after, removed == 1)
