-- ===== src/Database/Modify.antt =====
-- A change of one collection of the registry of database.rs.
use mathlib.Core.Option
use veclite.Base.{
  ℕ, ◌≡◌, refl, ap, sym, ◌∙◌, subst, ◌<◌, String, Bool, true, false, ◌||◌, Option, none, some, List,
  same, same-eq, Bool-cases, some_inj, ◌⊎◌, inl, inr,
}
use veclite.Dict.{get, modify, get-modify, get-modify_other, modify-Unique}
use veclite.Database.{Contents, Entry}
use veclite.Database.Maps.{listed}
use veclite.Database.Registry.{IsRegistry}

map-some :
    {A : Type 0} (g : A → A) (o : Option A) (w : A)
    → Option.map g o ≡ some w
    → (v : A) × (o ≡ some v) × (g v ≡ w)
map-some g none w h = cc
map-some g (some v) w h = (v, refl, some_inj h)

-- What a change of one entry leaves under a name.
pub modify-cases :
    {A : Type 0} (key other : String) (g : A → A) (m : List (String × A)) (w : A)
    → get other (modify key g m) ≡ some w
    → (v : A) × (get other m ≡ some v)
      × (((key ≡ other) × (g v ≡ w)) ⊎ ((same key other ≡ false) × (v ≡ w)))
modify-cases key other g m w h = elim (Bool-cases (same key other)) [
  | inl e ↦
      let k = same-eq key other e in
      let r = map-some g (get other m) w (
        sym (subst (λ x. get x (modify key g m) ≡ Option.map g (get x m)) k (get-modify key g m))
        ∙ h) in
      (r.0, r.1, inl (k, r.2))
  | inr e ↦ (w, sym (get-modify_other key other g m e) ∙ h, inr (e, refl))
]

pub or_r : (a b : Bool) → b ≡ true → (a || b) ≡ true
or_r true b h = refl
or_r false b h = h

pub or_true_cases : (a b : Bool) → (a || b) ≡ true → (a ≡ true) ⊎ (b ≡ true)
or_true_cases true b h = inl refl
or_true_cases false b h = inr h

module _ (content : Contents) where
  open content use {Options, Data}

  module _ (cs : List (String × Entry Options Data)) (target : String)
      (g : Entry Options Data → Entry Options Data)
      (id_kept : (e : Entry Options Data) → (g e).coll_id ≡ e.coll_id)
      (name_kept : (e : Entry Options Data) → (g e).name ≡ e.name) where
    -- A change of the aliases of one collection.
    same_entry :
        (k : String) (w : Entry Options Data)
        → get k (modify target g cs) ≡ some w
        → (v : Entry Options Data) × (get k cs ≡ some v)
          × (v.coll_id ≡ w.coll_id)
          × (v.name ≡ w.name)
    same_entry k w h =
        let r = modify-cases target k g cs w h in
        elim (r.2) [
          | inl c ↦ (
            r.0,
            r.1,
            sym (id_kept (r.0)) ∙ ap (λ x. x.coll_id) (c.1),
            sym (name_kept (r.0)) ∙ ap (λ x. x.name) (c.1),
          )
          | inr c ↦ (r.0, r.1, ap (λ x. x.coll_id) (c.1), ap (λ x. x.name) (c.1))
        ]

    pub at_target :
        (e : Entry Options Data)
        → get target cs ≡ some e
        → get target (modify target g cs) ≡ some (g e)
    at_target e h = get-modify target g cs ∙ ap (Option.map g) h

    pub modify-IsRegistry :
        (names names' : List (String × String)) (next : ℕ)
        → IsRegistry cs names next
        → ((a t : String)
            → get a names' ≡ some t
            → (e : Entry Options Data) × (get t (modify target g cs) ≡ some e)
              × (listed a (e.aliases) ≡ true))
        → ((k a : String) (e : Entry Options Data)
            → get k (modify target g cs) ≡ some e
            → listed a (e.aliases) ≡ true
            → get a names' ≡ some k)
        → IsRegistry (modify target g cs) names' next
    modify-IsRegistry names names' next inv forward back = record {
      forward = forward;
      back = back;
      below = λ k w h.
          let r = same_entry k w h in subst (λ n. n < next) (r.2) (inv.below k (r.0) (r.1));
      distinct = λ j k w x h i p.
          let r = same_entry j w h in
          let s = same_entry k x i in
          inv.distinct j k (r.0) (s.0) (r.1) (s.1) (r.2 ∙ p ∙ sym (s.2));
      unique = modify-Unique target g cs (inv.unique);
      named = λ k w h. let r = same_entry k w h in sym (r.3) ∙ inv.named k (r.0) (r.1);
    }
