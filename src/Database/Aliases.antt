-- ===== src/Database/Aliases.antt =====
-- `create_alias` and `delete_alias` of database.rs keep the invariant of the registry.
use veclite.Base.{
  ◌≡◌, refl, ap, sym, ◌∙◌, subst, String, true, false, ◌||◌, none, some, same, same-eq, same_refl,
  Bool-cases, some_inj, inl, inr,
}
use veclite.Error.{ok}
use veclite.Dict.{
  get, insert, remove, modify, get-modify_other, get-insert, get-insert_other, get-remove_other,
  get-remove-some,
}
use veclite.Database.{Contents, Entry, Database}
use veclite.Database.Maps.{without, listed, listed-append, listed-without, listed-without_other}
use veclite.Database.Edit.{create_alias, delete_alias, push_alias, drop_alias}
use veclite.Database.Registry.{IsConsistent, create_alias-ok, delete_alias-ok}
use veclite.Database.Rename.{get-insert-cases, differ_from}
use veclite.Database.Modify.{modify-cases, or_r, or_true_cases, at_target, modify-IsRegistry}

module _ (content : Contents) where
  open content use {Options, Data}

  -- A new alias keeps the invariant.
  pub create_alias-keeps :
      (db db' : Database content) (name target : String)
      → IsConsistent content db
      → create_alias content db name target ≡ ok db'
      → IsConsistent content db'
  unfolding push_alias
  create_alias-keeps db db' name target inv h =
      let r = create_alias-ok content db db' name target h in
      subst (λ d. IsConsistent content d) (r.6)
        (modify-IsRegistry content (db.collections) target (push_alias content name) (λ e. refl)
          (λ e. refl) (db.aliases) (insert name target (db.aliases)) (db.next_coll_id) inv
          (forward (r.0) (r.2)) (back (r.4)))
    where
      forward :
          (e : Entry Options Data)
          → get target (db.collections) ≡ some e
          → (a t : String) → get a (insert name target (db.aliases)) ≡ some t
          → (e : Entry Options Data) × (get t
                (modify target (push_alias content name) (db.collections))
              ≡ some e)
            × (listed a (e.aliases) ≡ true)
      forward e old a t h = elim (get-insert-cases name a target t (db.aliases) h) [
        | inl c ↦ (
          push_alias content name e,
          subst
              (λ k.
                get k (modify target (push_alias content name) (db.collections))
                ≡ some (push_alias content name e))
              (c.1)
              (at_target content (db.collections) target (push_alias content name) (λ e. refl)
                (λ e. refl) e old),
          listed-append a name (e.aliases)
              ∙ or_r (listed a (e.aliases)) (same name a)
                  (subst (λ x. same name x ≡ true) (c.0) (same_refl name)),
        )
        | inr c ↦
            let f = inv.forward a t (c.1) in
            elim (Bool-cases (same target t)) [
              | inl s ↦ (
                push_alias content name (f.0),
                subst
                    (λ k.
                      get k (modify target (push_alias content name) (db.collections))
                      ≡ some (push_alias content name (f.0)))
                    (same-eq target t s)
                    (at_target content (db.collections) target (push_alias content name) (λ e. refl)
                      (λ e. refl) (f.0)
                      (subst (λ k. get k (db.collections) ≡ some (f.0)) (sym (same-eq target t s))
                        (f.1))),
                listed-append a name (f.0.aliases) ∙ ap (λ b. b || same name a) (f.2),
              )
              | inr s ↦ (
                f.0,
                get-modify_other target t (push_alias content name) (db.collections) s ∙ f.1,
                f.2,
              )
            ]
      ]

      was :
          get name (db.aliases) ≡ none
          → (k a : String) (v : Entry Options Data) → get k (db.collections) ≡ some v
          → listed a (v.aliases) ≡ true
          → get a (insert name target (db.aliases)) ≡ some k
      was free k a v h l =
          let b = inv.back k a v h l in
          get-insert_other name a target (db.aliases) (differ_from a name k (db.aliases) b free) ∙ b

      back :
          get name (db.aliases) ≡ none
          → (k a : String) (w : Entry Options Data)
          → get k (modify target (push_alias content name) (db.collections)) ≡ some w
          → listed a (w.aliases) ≡ true
          → get a (insert name target (db.aliases)) ≡ some k
      back free k a w h l =
          let r = modify-cases target k (push_alias content name) (db.collections) w h in
          elim (r.2) [
            | inl c ↦
                elim (or_true_cases (listed a (r.0.aliases)) (same name a) (
                  sym (listed-append a name (r.0.aliases))
                  ∙ subst (λ x. listed a (x.aliases) ≡ true) (sym (c.1)) l)) [
                    | inl m ↦ was free k a (r.0) (r.1) m
                    | inr m ↦
                        subst (λ x. get x (insert name target (db.aliases)) ≡ some k)
                          (same-eq name a m) (get-insert name target (db.aliases) ∙ ap some (c.0))
                  ]
            | inr c ↦
                was free k a (r.0) (r.1) (subst (λ x. listed a (x.aliases) ≡ true) (sym (c.1)) l)
          ]

  -- The deletion of an alias keeps the invariant.
  pub delete_alias-keeps :
      (db db' : Database content) (name : String)
      → IsConsistent content db
      → delete_alias content db name ≡ ok db'
      → IsConsistent content db'
  unfolding drop_alias
  delete_alias-keeps db db' name inv h =
      let r = delete_alias-ok content db db' name h in
      subst (λ d. IsConsistent content d) (r.4)
        (modify-IsRegistry content (db.collections) (r.0) (drop_alias content name) (λ e. refl)
          (λ e. refl) (db.aliases) (remove name (db.aliases)) (db.next_coll_id) inv (forward (r.0))
          (back (r.0) (r.2)))
    where
      drop : Entry Options Data → Entry Options Data
      drop = drop_alias content name

      forward :
          (target a t : String)
          → get a (remove name (db.aliases)) ≡ some t
          → (e : Entry Options Data) × (get t (modify target drop (db.collections)) ≡ some e)
            × (listed a (e.aliases) ≡ true)
      forward target a t h =
          let c = get-remove-some name a (db.aliases) t h in
          let f = inv.forward a t (c.1) in
          elim (Bool-cases (same target t)) [
            | inl s ↦ (
              drop (f.0),
              subst (λ k. get k (modify target drop (db.collections)) ≡ some (drop (f.0)))
                  (same-eq target t s)
                  (at_target content (db.collections) target drop (λ e. refl) (λ e. refl) (f.0)
                    (subst (λ k. get k (db.collections) ≡ some (f.0)) (sym (same-eq target t s))
                      (f.1))),
              listed-without_other a name (f.0.aliases) (c.0) ∙ f.2,
            )
            | inr s ↦ (f.0, get-modify_other target t drop (db.collections) s ∙ f.1, f.2)
          ]

      back :
          (target : String)
          → get name (db.aliases) ≡ some target
          → (k a : String) (w : Entry Options Data)
          → get k (modify target drop (db.collections)) ≡ some w
          → listed a (w.aliases) ≡ true
          → get a (remove name (db.aliases)) ≡ some k
      back target was k a w h l =
          let r = modify-cases target k drop (db.collections) w h in
          elim (r.2) [
            | inl c ↦
                let m : listed a (without name (r.0.aliases)) ≡ true =
                  subst (λ x. listed a (x.aliases) ≡ true) (sym (c.1)) l in
                elim (Bool-cases (same name a)) [
                  | inl s ↦
                      let n =
                        subst (λ x. listed x (without name (r.0.aliases)) ≡ false)
                          (same-eq name a s) (listed-without name (r.0.aliases)) in
                      cc
                  | inr s ↦
                      get-remove_other name a (db.aliases) s
                      ∙ inv.back k a (r.0) (r.1)
                          (sym (listed-without_other a name (r.0.aliases) s) ∙ m)
                ]
            | inr c ↦
                let m : listed a (r.0.aliases) ≡ true =
                  subst (λ x. listed a (x.aliases) ≡ true) (sym (c.1)) l in
                elim (Bool-cases (same name a)) [
                  | inl s ↦
                      let b = inv.back k a (r.0) (r.1) m in
                      let t = some_inj (
                        sym was
                        ∙ subst (λ x. get x (db.aliases) ≡ some k) (sym (same-eq name a s)) b) in
                      let q : same target k ≡ true =
                        subst (λ x. same target x ≡ true) t (same_refl target) in
                      let d = c.0 in cc
                  | inr s ↦ get-remove_other name a (db.aliases) s ∙ inv.back k a (r.0) (r.1) m
                ]
          ]
