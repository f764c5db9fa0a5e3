-- ===== src/Collection.antt =====
-- crates/veclite/src/collection.rs: the slots of a collection. Numbers of vectors, JSON values and
-- sparse lanes are types `V`, `J`, `S`; the search structures that are derived from the slots (index,
-- codes, payload indexes), locks and logging are left out. `none` at the outside is a panic. The test
-- that a collection was not deleted stands in Collection/Handle.
pub mod WellFormed
pub mod Slots
pub mod Points
pub mod Refinement
pub mod Batches
pub mod Reached
pub mod Handle
use veclite.Base.{
  ℕ, zero, suc, ◌+◌, ◌*◌, ◌-◌, String, Bool, true, false, ◌||◌, Option, none, some, List, [], ◌∷◌,
  ◌++◌, length, get_elem?, set, take, drop, leb, ◌==◌, if◌then◌else◌, same, ◌>>=?◌,
}
use veclite.Storage.Toc.{SegRef}

-- The mapped tier: slots below `count` read their vectors from the file.
pub record BaseTier (V : Type 0) : Type 0 where
  pub read : ℕ → List V
  pub count : ℕ
  pub seg_refs : List SegRef
  pub vector_count : ℕ
  pub tombstone_count : ℕ

pub record SealedRefs : Type 0 where
  pub refs : List SegRef
  pub vector_count : ℕ
  pub tombstone_count : ℕ

-- A map from ids to slots, and the set of dead slots as a list.
pub record CollectionData (V J S : Type 0) : Type 0 where
  pub vectors : List V
  pub ids : List String
  pub id_to_slot : String → Option ℕ
  pub tombstones : List ℕ
  pub payloads : List (Option J)
  pub sparses : List (Option S)
  pub base : Option (BaseTier V)
  pub sealed : Option SealedRefs
  pub dirty : Bool

-- `PreparedPoint`, and the fields of `Point`.
pub record Point (V J S : Type 0) : Type 0 where
  pub id : String
  pub vector : List V
  pub sparse : Option S
  pub payload : Option J

unfoldable pub remove : String → (String → Option ℕ) → String → Option ℕ
remove id m x = if same x id then none else m x

unfoldable pub insert : String → ℕ → (String → Option ℕ) → String → Option ℕ
insert id slot m x = if same x id then some slot else m x

unfoldable pub contains : ℕ → List ℕ → Bool
contains s [] = false
contains s (t ∷ ts) = s == t || contains s ts

unfoldable pub add_slot : ℕ → List ℕ → List ℕ
unfolding contains
add_slot s ts = if contains s ts then ts else s ∷ ts

-- `clean_reuse` of a clean collection.
unfoldable pub sealed_reuse : Option SealedRefs → Option (List SegRef × ℕ × ℕ)
sealed_reuse none = none
sealed_reuse (some r) = some (r.refs, r.vector_count, r.tombstone_count)

module _ {V : Type 0} where
  unfoldable pub base_count_of : Option (BaseTier V) → ℕ
  base_count_of none = 0
  base_count_of (some b) = b.count

  unfoldable pub base_vector : Option (BaseTier V) → ℕ → List V
  base_vector none slot = []
  base_vector (some b) slot = b.read slot

  -- A slice out of range panics.
  unfoldable pub overlay_vector : List V → ℕ → ℕ → Option (List V)
  overlay_vector vectors o dim =
      if leb ((o + 1) * dim) (length vectors)
      then some (take dim (drop (o * dim) vectors))
      else none

  unfoldable pub base_reuse : Option (BaseTier V) → Option SealedRefs → Option (List SegRef × ℕ × ℕ)
  unfolding sealed_reuse
  base_reuse none refs = sealed_reuse refs
  base_reuse (some b) refs = some (b.seg_refs, b.vector_count, b.tombstone_count)

module _ {V J S : Type 0} where
  unfoldable pub empty : CollectionData V J S
  empty = record {
    vectors = [];
    ids = [];
    id_to_slot = λ x. none;
    tombstones = [];
    payloads = [];
    sparses = [];
    base = none;
    sealed = none;
    dirty = false;
  }

  unfoldable pub base_count : CollectionData V J S → ℕ
  unfolding base_count_of
  base_count d = base_count_of d.base

  unfoldable pub copy_vector : CollectionData V J S → ℕ → ℕ → Option (List V)
  unfolding base_count overlay_vector base_vector
  copy_vector d slot dim =
      if leb (base_count d) slot
      then overlay_vector d.vectors (slot - base_count d) dim
      else some (base_vector d.base slot)

  -- The dead slot loses its payload and its sparse lane.
  unfoldable pub bury : CollectionData V J S → String → ℕ → CollectionData V J S
  unfolding remove add_slot
  bury d id slot = record d {
    id_to_slot = remove id d.id_to_slot;
    tombstones = add_slot slot d.tombstones;
    payloads = set d.payloads slot none;
    sparses = set d.sparses slot none;
  }

  unfoldable pub tombstone : CollectionData V J S → String → CollectionData V J S × Bool
  unfolding bury
  tombstone d id = elim (d.id_to_slot id) [
    | none ↦ (d, false)
    | some slot ↦ (record (bury d id slot) { dirty = true }, true)
  ]

  -- The first part of `apply_upsert`.
  unfoldable pub bury_old : CollectionData V J S → String → CollectionData V J S
  unfolding bury
  bury_old d id = elim (d.id_to_slot id) [ none ↦ d | some slot ↦ bury d id slot ]

  unfoldable pub push_point : CollectionData V J S → Point V J S → CollectionData V J S
  unfolding insert
  push_point d p = record d {
    vectors = d.vectors ++ p.vector;
    ids = d.ids ++ p.id ∷ [];
    payloads = d.payloads ++ p.payload ∷ [];
    sparses = d.sparses ++ p.sparse ∷ [];
    id_to_slot = insert p.id (length d.ids) d.id_to_slot;
    dirty = true;
  }

  unfoldable pub apply_upsert : CollectionData V J S → Point V J S → CollectionData V J S
  unfolding bury_old push_point
  apply_upsert d p = push_point (bury_old d p.id) p

  unfoldable pub apply_prepared : CollectionData V J S → List (Point V J S) → CollectionData V J S
  unfolding apply_upsert
  apply_prepared d [] = d
  apply_prepared d (p ∷ ps) = apply_prepared (apply_upsert d p) ps

  -- `delete_batch` after logging: how many ids were there.
  unfoldable pub delete_batch : CollectionData V J S → List String → CollectionData V J S × ℕ
  unfolding tombstone
  delete_batch d [] = (d, 0)
  delete_batch d (id ∷ ids) =
      let (d', found) = tombstone d id in
      let (d'', removed) = delete_batch d' ids in (d'', (if found then 1 else 0) + removed)

  -- The point in a slot.
  unfoldable pub point_at : CollectionData V J S → ℕ → ℕ → Option (Point V J S)
  unfolding copy_vector
  point_at d slot dim = get_elem? d.ids slot >>=? λ id. copy_vector d slot dim >>=? λ vector.
      get_elem? d.sparses slot >>=? λ sparse. get_elem? d.payloads slot >>=? λ payload.
      some (record { id = id; vector = vector; sparse = sparse; payload = payload })

  -- `get` behind the test.
  unfoldable pub get : CollectionData V J S → String → ℕ → Option (Option (Point V J S))
  unfolding point_at
  get d id dim = elim (d.id_to_slot id) [
    | none ↦ some none
    | some slot ↦ point_at d slot dim >>=? λ p. some (some p)
  ]

  -- The committed segments that a checkpoint may carry forward.
  unfoldable pub clean_reuse : CollectionData V J S → Option (List SegRef × ℕ × ℕ)
  unfolding base_reuse
  clean_reuse d = if d.dirty then none else base_reuse d.base d.sealed

  unfoldable pub mark_sealed : CollectionData V J S → List SegRef → ℕ → ℕ → CollectionData V J S
  mark_sealed d refs vector_count tombstone_count = record d {
    sealed =
        some
          (record { refs = refs; vector_count = vector_count; tombstone_count = tombstone_count });
    dirty = false;
  }

  unfoldable pub drop_base_unchecked : CollectionData V J S → CollectionData V J S
  drop_base_unchecked d = record d { base = none; sealed = none }
