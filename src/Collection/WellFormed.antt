-- ===== src/Collection/WellFormed.antt =====
-- The invariant of the slots of collection.rs.
use veclite.Base.{ℕ, ◌*◌, ◌-◌, ◌≤◌, ◌<◌, ◌≡◌, ◌⊎◌, String, true, false, some, length, get_elem?}
use veclite.Collection.{CollectionData, contains, base_count}

-- Every slot has an id, a payload and a sparse lane, and a vector of `dim` numbers in one of the
-- tiers; an id leads to a slot that carries it and is not dead, and each slot that its id does not
-- lead to is dead.
pub record IsWellFormed {V J S : Type 0} (dim : ℕ) (d : CollectionData V J S) : Type 0 where
  pub payloads_len : length d.payloads ≡ length d.ids
  pub sparses_len : length d.sparses ≡ length d.ids
  pub base_le : base_count d ≤ length d.ids
  pub vectors_len : length d.vectors ≡ (length d.ids - base_count d) * dim
  pub carries :
      (id : String) (slot : ℕ) → d.id_to_slot id ≡ some slot → get_elem? d.ids slot ≡ some id
  pub not_dead :
      (id : String) (slot : ℕ) → d.id_to_slot id ≡ some slot → contains slot d.tombstones ≡ false
  pub dead_or_live :
      (id : String) (slot : ℕ)
      → get_elem? d.ids slot ≡ some id
      → (d.id_to_slot id ≡ some slot) ⊎ (contains slot d.tombstones ≡ true)
  pub dead_inside : (slot : ℕ) → contains slot d.tombstones ≡ true → slot < length d.ids
