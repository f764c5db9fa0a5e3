-- ===== src/Collection/Refinement.antt =====
-- What `get` of collection.rs finds after `upsert` and `delete`: the slots stand for a map from ids to
-- points.
use veclite.Base.{
  ℕ, ◌↔◌, ◌≡◌, ◌≢◌, refl, sym, ap, ◌∙◌, subst, inl, inr, String, Bool, true, false, Option, none,
  some, length, same, same-eq, Bool-cases, Option-cases, if◌then◌else◌, get_elem?-lt, ◌>>=?◌,
}
use veclite.Collection.{
  CollectionData, Point, base_count, copy_vector, remove, insert, bury, bury_old, tombstone,
  push_point, apply_upsert, point_at, get,
}
use veclite.Collection.WellFormed.{IsWellFormed}
use veclite.Collection.Slots.{
  remove_same, remove-other, insert-other, insert_same, slots_differ, bury-IsWellFormed,
  push_point-IsWellFormed,
}
use veclite.Collection.Points.{
  get-some, get-none, point_at-bury, point_at-push, point_at-push_end, point_at-some,
}

module _ {V J S : Type 0} where
  found : Option (Point V J S) → Option (Option (Point V J S))
  found o = o >>=? λ p. some (some p)

  module _ (dim : ℕ) (d : CollectionData V J S) (w : IsWellFormed dim d) where
    get-bury :
        (id x : String) (slot : ℕ)
        → d.id_to_slot id ≡ some slot
        → get (bury d id slot) x dim ≡ (if same x id then some none else get d x dim)
    unfolding bury found
    get-bury id x slot h = elim (Bool-cases (same x id)) [
      | inl e ↦ rw e (
          get-none (bury d id slot) x dim
            (ap (remove id d.id_to_slot) (same-eq x id e) ∙ remove_same id d.id_to_slot))
      | inr e ↦ rw e (elim (Option-cases (d.id_to_slot x)) [
        | inl k ↦
            get-none (bury d id slot) x dim (remove-other id x d.id_to_slot e ∙ k)
            ∙ sym (get-none d x dim k)
        | inr (t, k) ↦
            get-some (bury d id slot) x dim t (remove-other id x d.id_to_slot e ∙ k)
            ∙ ap found (point_at-bury dim d w id slot t (slots_differ dim d w x id t slot k h e))
            ∙ sym (get-some d x dim t k)
      ])
    ]

    get-push_point :
        (p : Point V J S) (x : String)
        → d.id_to_slot p.id ≡ none
        → length p.vector ≡ dim
        → get (push_point d p) x dim ≡ (if same x p.id then some (some p) else get d x dim)
    unfolding push_point found
    get-push_point p x h l =
        let n : ℕ = length d.ids in
        elim (Bool-cases (same x p.id)) [
          | inl e ↦ rw e (
              get-some (push_point d p) x dim n (
                ap (insert p.id n d.id_to_slot) (same-eq x p.id e)
                ∙ insert_same p.id n d.id_to_slot)
              ∙ ap found (point_at-push_end dim d w p l))
          | inr e ↦ rw e (elim (Option-cases (d.id_to_slot x)) [
            | inl k ↦
                get-none (push_point d p) x dim (insert-other p.id x n d.id_to_slot e ∙ k)
                ∙ sym (get-none d x dim k)
            | inr (t, k) ↦
                get-some (push_point d p) x dim t (insert-other p.id x n d.id_to_slot e ∙ k)
                ∙ ap found (point_at-push dim d w p t (get_elem?-lt d.ids t (w.carries x t k)))
                ∙ sym (get-some d x dim t k)
          ])
        ]

    -- What `bury_old` leaves: the id leads nowhere, the others where they led.
    abbrev Buried : String → CollectionData V J S → Type 0
    Buried id d' =
        IsWellFormed dim d'
        × (d'.id_to_slot id ≡ none)
        × ((x : String) → same x id ≡ false → get d' x dim ≡ get d x dim)

    bury_old-none : (id : String) → d.id_to_slot id ≡ none → bury_old d id ≡ d
    unfolding bury_old
    bury_old-none id k = rw (bury_old, k) refl

    bury_old-some :
        (id : String) (slot : ℕ) → d.id_to_slot id ≡ some slot → bury_old d id ≡ bury d id slot
    unfolding bury_old bury
    bury_old-some id slot k = rw (bury_old, k) refl

    gone : (id : String) (slot : ℕ) → (bury d id slot).id_to_slot id ≡ none
    unfolding bury
    gone id slot = remove_same id d.id_to_slot

    bury_old-Buried : (id : String) → Buried id (bury_old d id)
    bury_old-Buried id = elim (Option-cases (d.id_to_slot id)) [
      | inl k ↦ subst (Buried id) (sym (bury_old-none id k)) (w, k, λ x e. refl)
      | inr (slot, k) ↦ subst (Buried id) (sym (bury_old-some id slot k)) (
        bury-IsWellFormed dim d w id slot k,
        gone id slot,
        λ x e. get-bury id x slot k ∙ rw e refl,
      )
    ]

  -- In well-formed slots, after an upsert of a point with a vector of the right length, its id leads
  -- to the point, and every other id to what it led to.
  pub get-apply_upsert :
      (dim : ℕ) (d : CollectionData V J S) (p : Point V J S) (x : String)
      → IsWellFormed dim d
      → length p.vector ≡ dim
      → get (apply_upsert d p) x dim ≡ (if same x p.id then some (some p) else get d x dim)
  unfolding apply_upsert
  get-apply_upsert dim d p x w l =
      let (w', free, others) = bury_old-Buried dim d w p.id in
      get-push_point dim (bury_old d p.id) w' p x free l
      ∙ elim (Bool-cases (same x p.id)) [ inl e ↦ rw e refl | inr e ↦ rw e (others x e) ]

  -- An upsert of a point with a vector of the right length keeps the slots well formed.
  pub apply_upsert-IsWellFormed :
      (dim : ℕ) (d : CollectionData V J S) (p : Point V J S)
      → IsWellFormed dim d
      → length p.vector ≡ dim
      → IsWellFormed dim (apply_upsert d p)
  unfolding apply_upsert
  apply_upsert-IsWellFormed dim d p w l =
      let (w', free, others) = bury_old-Buried dim d w p.id in
      push_point-IsWellFormed dim (bury_old d p.id) w' p free l

  IsWellFormed-dirty :
      (dim : ℕ) (d : CollectionData V J S) (b : Bool)
      → IsWellFormed dim d
      → IsWellFormed dim (record d { dirty = b })
  unfolding base_count
  IsWellFormed-dirty dim d b w = record {
    payloads_len = w.payloads_len;
    sparses_len = w.sparses_len;
    base_le = w.base_le;
    vectors_len = w.vectors_len;
    carries = w.carries;
    not_dead = w.not_dead;
    dead_or_live = w.dead_or_live;
    dead_inside = w.dead_inside;
  }

  get-dirty :
      (d : CollectionData V J S) (b : Bool) (x : String) (dim : ℕ)
      → get (record d { dirty = b }) x dim ≡ get d x dim
  unfolding get point_at copy_vector base_count
  get-dirty d b x dim = refl

  tombstone-none :
      (d : CollectionData V J S) (id : String)
      → d.id_to_slot id ≡ none
      → tombstone d id ≡ (d, false)
  unfolding tombstone
  tombstone-none d id k = rw (tombstone, k) refl

  pub tombstone-some :
      (d : CollectionData V J S) (id : String) (slot : ℕ)
      → d.id_to_slot id ≡ some slot
      → tombstone d id ≡ (record (bury d id slot) { dirty = true }, true)
  unfolding tombstone bury
  tombstone-some d id slot k = rw (tombstone, k) refl

  -- A deletion keeps the slots well formed.
  pub tombstone-IsWellFormed :
      (dim : ℕ) (d : CollectionData V J S) (id : String)
      → IsWellFormed dim d
      → IsWellFormed dim (tombstone d id).0
  tombstone-IsWellFormed dim d id w = elim (Option-cases (d.id_to_slot id)) [
    | inl k ↦ rw (tombstone-none d id k) w
    | inr (slot, k) ↦
        rw (tombstone-some d id slot k)
          (IsWellFormed-dirty dim (bury d id slot) true (bury-IsWellFormed dim d w id slot k))
  ]

  -- In well-formed slots, a deletion reports whether the id was there; afterwards it leads nowhere,
  -- and every other id to what it led to.
  pub get-tombstone :
      (dim : ℕ) (d : CollectionData V J S) (id x : String)
      → IsWellFormed dim d
      → (get (tombstone d id).0 x dim ≡ (if same x id then some none else get d x dim))
        × ((tombstone d id).1 ≡ true ↔ d.id_to_slot id ≢ none)
  get-tombstone dim d id x w = elim (Option-cases (d.id_to_slot id)) [
    | inl k ↦ rw (tombstone-none d id k) (
      elim (Bool-cases (same x id)) [
        | inl e ↦ rw e (get-none d x dim (ap d.id_to_slot (same-eq x id e) ∙ k))
        | inr e ↦ rw e refl
      ],
      ((λ h. cc), (λ h. absurd (h k))),
    )
    | inr (slot, k) ↦ rw (tombstone-some d id slot k) (
      get-dirty (bury d id slot) true x dim ∙ get-bury dim d w id x slot k,
      ((λ h n. cc), (λ h. refl)),
    )
  ]

  -- No lookup in well-formed slots reads outside them.
  pub get_total :
      (dim : ℕ) (d : CollectionData V J S) (x : String) → IsWellFormed dim d → get d x dim ≢ none
  unfolding found
  get_total dim d x w h = elim (Option-cases (d.id_to_slot x)) [
    | inl k ↦ cc (h, get-none d x dim k)
    | inr (t, k) ↦
        let (p, e) = point_at-some dim d w t (get_elem?-lt d.ids t (w.carries x t k)) in
        cc (h, get-some d x dim t k, ap found e)
  ]
