-- ===== src/Collection/Points.antt =====
-- What the slots of collection.rs hold after a slot was buried or added.
use native.Mathlib.Nat.{mul-le-mul_right}
use veclite.Base.{
  ℕ, ◌+◌, ◌*◌, ◌-◌, ◌≤◌, ◌<◌, ◌≡◌, ◌≢◌, refl, sym, inl, inr, String, none, some, List, [], ◌∷◌,
  ◌++◌, arith, length, take, drop, leb, leb_of_le, leb→le, Bool-cases, length-append,
  get_elem?-set_ne, get_elem?-some, get_elem?-append_lt, get_elem?-append_end, take-append_le,
  drop-append_le, drop-append, take_all, length-drop, ◌>>=?◌,
}
use veclite.Collection.{
  CollectionData, Point, base_vector, base_count, overlay_vector, copy_vector, bury, push_point,
  point_at, get,
}
use veclite.Collection.WellFormed.{IsWellFormed}
use veclite.Collection.Slots.{suc_mul}

pub slot_below : (o k dim : ℕ) → o < k → (o + 1) * dim ≤ k * dim
slot_below o k dim h = mul-le-mul_right {m = o + 1} {n = k} dim (omega (arith, h))

module _ {V : Type 0} where
  overlay_vector-append :
      (vs v : List V) (o dim : ℕ)
      → (o + 1) * dim ≤ length vs
      → overlay_vector (vs ++ v) o dim ≡ overlay_vector vs o dim
  unfolding overlay_vector
  overlay_vector-append vs v o dim h =
      let inside : o * dim + dim ≤ length vs = omega (arith, suc_mul o dim) in
      rw
        (
          leb_of_le ((o + 1) * dim) (length (vs ++ v)) (omega (arith, h, length-append vs v)),
          leb_of_le ((o + 1) * dim) (length vs) h,
          drop-append_le (o * dim) vs v (omega (arith, inside)),
          take-append_le dim (drop (o * dim) vs) v
              (omega (arith, inside, length-drop (o * dim) vs)),
        )
        refl

  overlay_vector-append_end :
      (vs v : List V) (o dim : ℕ)
      → length vs ≡ o * dim
      → length v ≡ dim
      → overlay_vector (vs ++ v) o dim ≡ some v
  unfolding overlay_vector
  overlay_vector-append_end vs v o dim h l =
      rw
        (
          leb_of_le ((o + 1) * dim) (length (vs ++ v))
              (omega (arith, h, l, suc_mul o dim, length-append vs v)),
          ← h,
          drop-append vs v,
          take_all dim v (omega (arith, l)),
        )
        refl

module _ {V J S : Type 0} where
  pub get-some :
      (d : CollectionData V J S) (x : String) (dim slot : ℕ)
      → d.id_to_slot x ≡ some slot
      → get d x dim ≡ (point_at d slot dim >>=? λ p. some (some p))
  unfolding get
  get-some d x dim slot h = rw (get, h) refl

  pub get-none :
      (d : CollectionData V J S) (x : String) (dim : ℕ)
      → d.id_to_slot x ≡ none
      → get d x dim ≡ some none
  unfolding get
  get-none d x dim h = rw (get, h) refl

  module _ (dim : ℕ) (d : CollectionData V J S) (w : IsWellFormed dim d) where
    pub point_at-bury :
        (id : String) (slot t : ℕ) → t ≢ slot → point_at (bury d id slot) t dim ≡ point_at d t dim
    unfolding point_at bury copy_vector base_count
    point_at-bury id slot t h =
        rw (get_elem?-set_ne d.sparses slot t none h, get_elem?-set_ne d.payloads slot t none h)
          refl

    copy_vector-push :
        (p : Point V J S) (t : ℕ)
        → t < length d.ids
        → copy_vector (push_point d p) t dim ≡ copy_vector d t dim
    unfolding push_point copy_vector base_count
    copy_vector-push p t h = elim (Bool-cases (leb (base_count d) t)) [
      | inl e ↦ rw e (
          overlay_vector-append d.vectors p.vector (t - base_count d) dim (
            omega (
              arith,
              w.vectors_len,
              slot_below (t - base_count d) (length d.ids - base_count d) dim
                  (omega (arith, h, leb→le (base_count d) t e)),
            )))
      | inr e ↦ rw e refl
    ]

    pub point_at-push :
        (p : Point V J S) (t : ℕ)
        → t < length d.ids
        → point_at (push_point d p) t dim ≡ point_at d t dim
    unfolding point_at push_point
    point_at-push p t h =
        rw
          (
            get_elem?-append_lt d.ids (p.id ∷ []) t h,
            copy_vector-push p t h,
            get_elem?-append_lt d.sparses (p.sparse ∷ []) t (omega (arith, h, w.sparses_len)),
            get_elem?-append_lt d.payloads (p.payload ∷ []) t (omega (arith, h, w.payloads_len)),
          )
          refl

    pub point_at-push_end :
        (p : Point V J S)
        → length p.vector ≡ dim
        → point_at (push_point d p) (length d.ids) dim ≡ some p
    unfolding point_at push_point copy_vector base_count
    point_at-push_end p l =
        rw
          (
            get_elem?-append_end d.ids p.id (length d.ids) refl,
            leb_of_le (base_count d) (length d.ids) w.base_le,
            overlay_vector-append_end d.vectors p.vector (length d.ids - base_count d) dim
                w.vectors_len l,
            get_elem?-append_end d.sparses p.sparse (length d.ids) (sym w.sparses_len),
            get_elem?-append_end d.payloads p.payload (length d.ids) (sym w.payloads_len),
          )
          refl

    copy_vector-some : (t : ℕ) → t < length d.ids → (v : List V) × (copy_vector d t dim ≡ some v)
    unfolding copy_vector base_count overlay_vector
    copy_vector-some t h = elim (Bool-cases (leb (base_count d) t)) [
      | inl e ↦ (
        take dim (drop ((t - base_count d) * dim) d.vectors),
        rw
            (
              e,
              leb_of_le ((t - base_count d + 1) * dim) (length d.vectors) (
                  omega (
                    arith,
                    w.vectors_len,
                    slot_below (t - base_count d) (length d.ids - base_count d) dim
                        (omega (arith, h, leb→le (base_count d) t e)),
                  )),
            )
            refl,
      )
      | inr e ↦ (base_vector d.base t, rw e refl)
    ]

    pub point_at-some : (t : ℕ) → t < length d.ids → (p : Point V J S) × (point_at d t dim ≡ some p)
    unfolding point_at
    point_at-some t h =
        let (id, e1) = get_elem?-some d.ids t h in
        let (v, e2) = copy_vector-some t h in
        let (s, e3) = get_elem?-some d.sparses t (omega (arith, h, w.sparses_len)) in
        let (j, e4) = get_elem?-some d.payloads t (omega (arith, h, w.payloads_len)) in
        (record { id = id; vector = v; sparse = s; payload = j }, rw (e1, e2, e3, e4) refl)
