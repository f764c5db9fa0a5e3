-- ===== src/Database/Delete.antt =====
-- `delete_collection` of database.rs: the invariant, and what names resolve to.
use veclite.Base.{
  ℕ, ◌==◌, ==_iff, ==-refl, ◌≡◌, ap, sym, ◌∙◌, subst, String, Bool, true, false, Option, none, some,
  List, same, same_refl, Bool-cases, Option-cases, some_inj, inl, inr, if◌then◌else◌,
}
use veclite.Error.{ok}
use veclite.Dict.{get, remove, get-remove_other, get-remove-some, remove-Unique}
use veclite.Database.{Contents, Entry, Database}
use veclite.Database.Maps.{remove_all, listed, get-remove_all}
use veclite.Database.Edit.{delete_collection}
use veclite.Database.Registry.{IsRegistry, IsConsistent, delete_collection-ok}
use veclite.Database.Rename.{other_aliases}
use veclite.Database.Resolve.{resolve, resolve_name, resolve_alias, resolve_nothing}

module _ (content : Contents) where
  open content use {Options, Data}

  module _ (cs : List (String × Entry Options Data)) (names : List (String × String)) (next : ℕ)
      (inv : IsRegistry cs names next) (gone : String) (e : Entry Options Data)
      (old : get gone cs ≡ some e) where
    -- An alias that is left was there, and is not of the collection.
    left :
        (a t : String)
        → get a (remove_all (e.aliases) names) ≡ some t
        → (listed a (e.aliases) ≡ false) × (get a names ≡ some t)
    left a t h = elim (Bool-cases (listed a (e.aliases))) [
      | inl l ↦
          let n =
            sym (ap (λ b. if b then none else get a names) l)
            ∙ sym (get-remove_all a (e.aliases) names)
            ∙ h in
          cc
      | inr l ↦ (
        l,
        sym (ap (λ b. if b then none else get a names) l)
            ∙ sym (get-remove_all a (e.aliases) names)
            ∙ h,
      )
    ]

    kept_alias :
        (k a : String) (w : Entry Options Data)
        → get k (remove gone cs) ≡ some w
        → listed a (w.aliases) ≡ true
        → get a (remove_all (e.aliases) names) ≡ some k
    kept_alias k a w h l =
        let r = get-remove-some gone k cs w h in
        elim (Bool-cases (listed a (e.aliases))) [
          | inl m ↦
              let n = some_inj (sym (inv.back gone a e old m) ∙ inv.back k a w (r.1) l) in
              let q : same gone k ≡ true = subst (λ x. same gone x ≡ true) n (same_refl gone) in
              let d = r.0 in cc
          | inr m ↦
              get-remove_all a (e.aliases) names
              ∙ ap (λ b. if b then none else get a names) m
              ∙ inv.back k a w (r.1) l
        ]

    delete-IsRegistry : IsRegistry (remove gone cs) (remove_all (e.aliases) names) next
    delete-IsRegistry = record {
      forward = λ a t h.
          let l = left a t h in
          let r = inv.forward a t (l.1) in
          (
            r.0,
            get-remove_other gone t cs (other_aliases gone t a e (r.0) cs old (r.1) (l.0) (r.2))
                ∙ r.1,
            r.2,
          );
      back = kept_alias;
      below = λ k w h. inv.below k w (get-remove-some gone k cs w h).1;
      distinct = λ j k w x h i p.
          inv.distinct j k w x (get-remove-some gone j cs w h).1 (get-remove-some gone k cs x i).1
            p;
      unique = remove-Unique gone cs (inv.unique);
      named = λ k w h. inv.named k w (get-remove-some gone k cs w h).1;
    }

  -- A deletion keeps the invariant.
  pub delete_collection-keeps :
      (db db' : Database content) (name : String)
      → IsConsistent content db
      → delete_collection content db name ≡ ok db'
      → IsConsistent content db'
  delete_collection-keeps db db' name inv h =
      let r = delete_collection-ok content db db' name h in
      subst (λ d. IsConsistent content d) (r.4)
        (delete-IsRegistry (db.collections) (db.aliases) (db.next_coll_id) inv name (r.0) (r.2))

  abbrev pub is_id : Option ℕ → Option ℕ → Bool
  is_id none j = false
  is_id (some i) none = false
  is_id (some i) (some j) = i == j

  module _ (db : Database content) (inv : IsConsistent content db) (gone : String)
      (e : Entry Options Data) (old : get gone (db.collections) ≡ some e) (db' : Database content)
      (cs_eq : db'.collections ≡ remove gone (db.collections))
      (names_eq : db'.aliases ≡ remove_all (e.aliases) (db.aliases)) where
    Expected : String → Type 0
    Expected x =
        resolve content db' x
        ≡ (if is_id (some (e.coll_id)) (resolve content db x) then none else resolve content db x)

    lookup' : (k : String) → same gone k ≡ false → get k (db'.collections) ≡ get k (db.collections)
    lookup' k d = ap (get k) cs_eq ∙ get-remove_other gone k (db.collections) d

    alias' :
        (k : String)
        → get k (db'.aliases) ≡ (if listed k (e.aliases) then none else get k (db.aliases))
    alias' k = ap (get k) names_eq ∙ get-remove_all k (e.aliases) (db.aliases)

    -- A name of another collection.
    other_kept :
        (x k : String) (f : Entry Options Data)
        → get k (db.collections) ≡ some f
        → same gone k ≡ false
        → resolve content db x ≡ some (f.coll_id)
        → resolve content db' x ≡ some (f.coll_id)
        → Expected x
    unfolding Expected
    other_kept x k f h d r s = elim (Bool-cases (e.coll_id == f.coll_id)) [
      | inl i ↦
          let n = inv.distinct gone k e f old h ((==_iff (e.coll_id) (f.coll_id)).0 i) in
          let q : same gone k ≡ true = subst (λ y. same gone y ≡ true) n (same_refl gone) in cc
      | inr i ↦
          s
          ∙ sym (
              ap (λ o. if is_id (some (e.coll_id)) o then none else o) r
              ∙ ap (λ b. if b then none else some (f.coll_id)) i)
    ]

    none_kept :
        (x : String) → resolve content db x ≡ none → resolve content db' x ≡ none → Expected x
    unfolding Expected
    none_kept x r s = s ∙ sym (ap (λ o. if is_id (some (e.coll_id)) o then none else o) r)

    alias_kept : (x : String) → same gone x ≡ false → get x (db.collections) ≡ none → Expected x
    unfolding Expected
    alias_kept x d n = elim (Bool-cases (listed x (e.aliases))) [
      | inl l ↦
          resolve_nothing content db' x (lookup' x d ∙ n)
            (alias' x ∙ ap (λ b. if b then none else get x (db.aliases)) l)
          ∙ sym (
              ap (λ o. if is_id (some (e.coll_id)) o then none else o)
                (resolve_alias content db x gone e n (inv.back gone x e old l) old)
              ∙ ap (λ b. if b then none else some (e.coll_id)) (==-refl (e.coll_id)))
      | inr l ↦
          let same_alias = alias' x ∙ ap (λ b. if b then none else get x (db.aliases)) l in
          elim (Option-cases (get x (db.aliases))) [
            | inl m ↦
                none_kept x (resolve_nothing content db x n m)
                  (resolve_nothing content db' x (lookup' x d ∙ n) (same_alias ∙ m))
            | inr (t, m) ↦
                let r = inv.forward x t m in
                let o = other_aliases gone t x e (r.0) (db.collections) old (r.1) l (r.2) in
                other_kept x t (r.0) (r.1) o (resolve_alias content db x t (r.0) n m (r.1)) (
                  resolve_alias content db' x t (r.0) (lookup' x d ∙ n) (same_alias ∙ m)
                    (lookup' t o ∙ r.1))
          ]
    ]

    delete-resolve : (x : String) → same gone x ≡ false → Expected x
    delete-resolve x d = elim (Option-cases (get x (db.collections))) [
      | inl n ↦ alias_kept x d n
      | inr (w, n) ↦
          other_kept x x w n d (resolve_name content db x w n)
            (resolve_name content db' x w (lookup' x d ∙ n))
    ]

  -- After a deletion that succeeds, in a consistent registry, every further name that resolved to the
  -- deleted collection resolves to nothing, and every other one to what it did.
  pub delete_collection-resolve :
      (db db' : Database content) (name x : String)
      → IsConsistent content db
      → delete_collection content db name ≡ ok db'
      → same name x ≡ false
      → resolve content db' x ≡ (
          if is_id (resolve content db name) (resolve content db x)
          then none
          else resolve content db x)
  unfolding Expected
  delete_collection-resolve db db' name x inv h d =
      let r = delete_collection-ok content db db' name h in
      delete-resolve db inv name (r.0) (r.2) db' (ap (λ d. d.collections) (sym (r.4)))
        (ap (λ d. d.aliases) (sym (r.4))) x d
      ∙ ap (λ i. if is_id i (resolve content db x) then none else resolve content db x)
          (sym (resolve_name content db name (r.0) (r.2)))
