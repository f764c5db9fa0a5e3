-- ===== src/Collection/Slots.antt =====
-- `tombstone` and `apply_upsert` of collection.rs keep the invariant of the slots.
use veclite.Base.{
  ℕ, ◌+◌, ◌*◌, ◌-◌, ◌≤◌, ◌≡◌, ◌≢◌, refl, sym, ap, ◌∙◌, inl, inr, String, Bool, true, false, ◌||◌,
  Option, none, some, List, [], ◌∷◌, ◌++◌, arith, length, get_elem?, same, same-eq, same_refl, ◌==◌,
  ==_iff, Bool-cases, ltb, ltb→lt, ltb→le, length-set, length-append, get_elem?-lt,
  get_elem?-append_lt, get_elem?-append_end,
}
use veclite.Collection.{
  CollectionData, Point, contains, add_slot, remove, insert, base_count, bury, push_point,
}
use veclite.Collection.WellFormed.{IsWellFormed}

pub remove_same : (id : String) (m : String → Option ℕ) → remove id m id ≡ none
unfolding remove
remove_same id m = rw (same_refl id)

-- What a map finds after a removal, it found before under another id.
pub remove-some :
    (id x : String) (m : String → Option ℕ) (slot : ℕ)
    → remove id m x ≡ some slot
    → (same x id ≡ false) × (m x ≡ some slot)
unfolding remove
remove-some id x m slot h = elim (Bool-cases (same x id)) [
  | inl e ↦ absurd (ground arith)
  | inr e ↦ (e, ground arith)
]

pub remove-other : (id x : String) (m : String → Option ℕ) → same x id ≡ false → remove id m x ≡ m x
unfolding remove
remove-other id x m h = rw h refl

pub insert-other :
    (id x : String) (slot : ℕ) (m : String → Option ℕ)
    → same x id ≡ false
    → insert id slot m x ≡ m x
unfolding insert
insert-other id x slot m h = rw h refl

pub insert_same : (id : String) (slot : ℕ) (m : String → Option ℕ) → insert id slot m id ≡ some slot
unfolding insert
insert_same id slot m = rw (same_refl id) refl

pub contains-add_slot :
    (t s : ℕ) (ts : List ℕ) → contains t (add_slot s ts) ≡ (t == s || contains t ts)
unfolding contains add_slot
contains-add_slot t s ts = elim (Bool-cases (contains s ts)) [
  | inl e ↦ rw e (elim (Bool-cases (t == s)) [
    | inl q ↦ rw q (ap (λ u. contains u ts) ((==_iff t s).0 q) ∙ e)
    | inr q ↦ rw q refl
  ])
  | inr e ↦ rw e refl
]

==_ne : (a b : ℕ) → a ≢ b → (a == b) ≡ false
==_ne a b h = ground arith

or_true : (b : Bool) → (b || true) ≡ true
or_true true = refl
or_true false = refl

some_inj : {A : Type 0} {a b : A} → some a ≡ some b → a ≡ b
some_inj h = cc

differs : (x id : String) → same x id ≡ false → x ≢ id
differs x id h e = absurd (cc (h, ap (λ t. same t id) e, same_refl id))

pub suc_mul : (k dim : ℕ) → (k + 1) * dim ≡ k * dim + dim
suc_mul k dim = grind arith

one_more :
    (n n' b dim v l : ℕ) → v ≡ (n - b) * dim → l ≡ dim → b ≤ n → n' ≡ n + 1 → v + l ≡ (n' - b) * dim
one_more n n' b dim v l h e k m =
    let q : n' - b ≡ (n - b) + 1 = omega arith in
    omega (arith, h, e, suc_mul (n - b) dim) ∙ ap (λ t. t * dim) (sym q)

module _ {V J S : Type 0} where
  module _ (dim : ℕ) (d : CollectionData V J S) (w : IsWellFormed dim d) where
    -- Different ids have different slots.
    pub slots_differ :
        (x id : String) (t slot : ℕ)
        → d.id_to_slot x ≡ some t
        → d.id_to_slot id ≡ some slot
        → same x id ≡ false
        → t ≢ slot
    slots_differ x id t slot k h e q =
        differs x id e
          (some_inj (sym (w.carries x t k) ∙ ap (get_elem? d.ids) q ∙ w.carries id slot h))

    pub bury-IsWellFormed :
        (id : String) (slot : ℕ) → d.id_to_slot id ≡ some slot → IsWellFormed dim (bury d id slot)
    unfolding bury base_count
    bury-IsWellFormed id slot h = record {
      payloads_len = length-set d.payloads slot none ∙ w.payloads_len;
      sparses_len = length-set d.sparses slot none ∙ w.sparses_len;
      base_le = w.base_le;
      vectors_len = w.vectors_len;
      carries = λ x t k. w.carries x t (remove-some id x d.id_to_slot t k).1;
      not_dead = λ x t k.
          let (e, k') = remove-some id x d.id_to_slot t k in
          contains-add_slot t slot d.tombstones
          ∙ rw (==_ne t slot (slots_differ x id t slot k' h e)) (w.not_dead x t k');
      dead_or_live = λ x t k. elim (w.dead_or_live x t k) [
        | inr dead ↦ inr (contains-add_slot t slot d.tombstones ∙ rw dead (or_true (t == slot)))
        | inl live ↦ elim (Bool-cases (same x id)) [
          | inr e ↦ inl (remove-other id x d.id_to_slot e ∙ live)
          | inl e ↦
              let q : t ≡ slot = some_inj (sym live ∙ ap d.id_to_slot (same-eq x id e) ∙ h) in
              inr (contains-add_slot t slot d.tombstones ∙ rw ((==_iff t slot).1 q) refl)
        ]
      ];
      dead_inside = λ t k. elim (Bool-cases (t == slot)) [
        | inl e ↦ omega (arith, (==_iff t slot).0 e, get_elem?-lt d.ids slot (w.carries id slot h))
        | inr e ↦ w.dead_inside t (
            cc (k, contains-add_slot t slot d.tombstones, ap (λ b. b || contains t d.tombstones) e))
      ];
    }

    pub push_point-IsWellFormed :
        (p : Point V J S)
        → d.id_to_slot p.id ≡ none
        → length p.vector ≡ dim
        → IsWellFormed dim (push_point d p)
    unfolding push_point base_count
    push_point-IsWellFormed p h l =
        let n : length (d.ids ++ p.id ∷ []) ≡ length d.ids + 1 = length-append d.ids (p.id ∷ []) in
        record {
          payloads_len =
              omega (arith, w.payloads_len, length-append d.payloads (p.payload ∷ []), n);
          sparses_len = omega (arith, w.sparses_len, length-append d.sparses (p.sparse ∷ []), n);
          base_le = omega (arith, w.base_le, n);
          vectors_len =
              length-append d.vectors p.vector
              ∙ one_more (length d.ids) (length (d.ids ++ p.id ∷ [])) (base_count d) dim
                  (length d.vectors) (length p.vector) w.vectors_len l w.base_le n;
          carries = λ x t k. elim (Bool-cases (same x p.id)) [
            | inl e ↦
                let q : x ≡ p.id = same-eq x p.id e in
                let r : length d.ids ≡ t = some_inj (
                  sym (
                    ap (insert p.id (length d.ids) d.id_to_slot) q
                    ∙ insert_same p.id (length d.ids) d.id_to_slot)
                  ∙ k) in
                get_elem?-append_end d.ids p.id t (sym r) ∙ ap some (sym q)
            | inr e ↦
                let k' =
                  w.carries x t (sym (insert-other p.id x (length d.ids) d.id_to_slot e) ∙ k) in
                get_elem?-append_lt d.ids (p.id ∷ []) t (get_elem?-lt d.ids t k') ∙ k'
          ];
          not_dead = λ x t k. elim (Bool-cases (same x p.id)) [
            | inl e ↦
                let q : x ≡ p.id = same-eq x p.id e in
                let r : length d.ids ≡ t = some_inj (
                  sym (
                    ap (insert p.id (length d.ids) d.id_to_slot) q
                    ∙ insert_same p.id (length d.ids) d.id_to_slot)
                  ∙ k) in
                elim (Bool-cases (contains t d.tombstones)) [
                  | inl dead ↦ absurd (omega (arith, r, w.dead_inside t dead))
                  | inr alive ↦ alive
                ]
            | inr e ↦ w.not_dead x t (sym (insert-other p.id x (length d.ids) d.id_to_slot e) ∙ k)
          ];
          dead_or_live = λ x t k. elim (Bool-cases (ltb t (length d.ids))) [
            | inl e ↦
                let k' =
                  sym (get_elem?-append_lt d.ids (p.id ∷ []) t (ltb→lt t (length d.ids) e)) ∙ k in
                elim (w.dead_or_live x t k') [
                  | inr dead ↦ inr dead
                  | inl live ↦ elim (Bool-cases (same x p.id)) [
                    | inl q ↦ absurd (cc (live, h, ap d.id_to_slot (same-eq x p.id q)))
                    | inr q ↦ inl (insert-other p.id x (length d.ids) d.id_to_slot q ∙ live)
                  ]
                ]
            | inr e ↦
                let r : t ≡ length d.ids =
                  omega
                    (arith, n, ltb→le t (length d.ids) e, get_elem?-lt (d.ids ++ p.id ∷ []) t k) in
                let q : x ≡ p.id = some_inj (sym k ∙ get_elem?-append_end d.ids p.id t r) in
                inl (
                  ap (insert p.id (length d.ids) d.id_to_slot) q
                  ∙ insert_same p.id (length d.ids) d.id_to_slot
                  ∙ ap some (sym r))
          ];
          dead_inside = λ t k. omega (arith, w.dead_inside t k, n);
        }
