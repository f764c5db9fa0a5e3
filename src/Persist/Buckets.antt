-- ===== src/Persist/Buckets.antt =====
-- What insertions of storage/iddir.rs do to the buckets of a directory and to its entries.
use veclite.Base.{
  ℕ, zero, suc, ◌≤◌, ◌<◌, ◌≡◌, refl, sym, ap, ◌∙◌, String, Bool, true, false, ◌||◌, ◌==◌, List, [],
  ◌∷◌, ◌++◌, arith, Bytes, All, length, get_or, set, length-append, length-set, All-append, All-set,
  All-get_or, All_weaken,
}
use veclite.Storage.Iddir.{IdDir, insert, bucket_of, flatten, entries}

-- Some entry has the slot.
unfoldable pub has : ℕ → List (String × ℕ) → Bool
has s [] = false
has s ((id, slot) ∷ es) = (slot == s) || has s es

or_assoc : (a b c : Bool) → ((a || b) || c) ≡ (a || (b || c))
or_assoc true b c = refl
or_assoc false b c = refl

or_comm : (a b : Bool) → (a || b) ≡ (b || a)
or_comm true true = refl
or_comm true false = refl
or_comm false true = refl
or_comm false false = refl

has-append : (s : ℕ) (xs ys : List (String × ℕ)) → has s (xs ++ ys) ≡ (has s xs || has s ys)
unfolding has
has-append s [] ys = refl
has-append s ((id, slot) ∷ xs) ys =
    ap (λ b. (slot == s) || b) (has-append s xs ys)
    ∙ sym (or_assoc (slot == s) (has s xs) (has s ys))

has_single : (s : ℕ) (id : String) (slot : ℕ) → has s ((id, slot) ∷ []) ≡ (slot == s)
unfolding has
has_single s id slot = or_comm (slot == s) false

swap_or : (a b c : Bool) → (a || (b || c)) ≡ (b || (a || c))
swap_or true true c = refl
swap_or true false c = refl
swap_or false b c = refl

has-flatten-set :
    (s : ℕ) (bs : List (List (String × ℕ))) (i : ℕ) (id : String) (slot : ℕ)
    → i < length bs
    → has s (flatten (set bs i (get_or bs i [] ++ (id, slot) ∷ [])))
      ≡ ((slot == s) || has s (flatten bs))
unfolding flatten
has-flatten-set s [] i id slot l = absurd (omega arith)
has-flatten-set s (b ∷ bs) zero id slot l =
    has-append s (b ++ (id, slot) ∷ []) (flatten bs)
    ∙ ap (λ t. t || has s (flatten bs))
        (has-append s b ((id, slot) ∷ [])
          ∙ ap (λ t. has s b || t) (has_single s id slot)
          ∙ or_comm (has s b) (slot == s))
    ∙ or_assoc (slot == s) (has s b) (has s (flatten bs))
    ∙ ap (λ t. (slot == s) || t) (sym (has-append s b (flatten bs)))
has-flatten-set s (b ∷ bs) (suc i) id slot l =
    has-append s b (flatten (set bs i (get_or bs i [] ++ (id, slot) ∷ [])))
    ∙ ap (λ t. has s b || t) (has-flatten-set s bs i id slot (omega arith))
    ∙ swap_or (has s b) (slot == s) (has s (flatten bs))
    ∙ ap (λ t. (slot == s) || t) (sym (has-append s b (flatten bs)))

module _ (xxh64 : Bytes → ℕ) where
  pub length-insert :
      (d : IdDir) (id : String) (slot : ℕ)
      → length (insert xxh64 d id slot).buckets ≡ length d.buckets
  unfolding insert
  length-insert d id slot =
      length-set d.buckets (bucket_of xxh64 d id)
        (get_or d.buckets (bucket_of xxh64 d id) [] ++ (id, slot) ∷ [])

  -- The new entry is there, and the others stay.
  pub has-insert :
      (s : ℕ) (d : IdDir) (id : String) (slot : ℕ)
      → 0 < length d.buckets
      → has s (entries (insert xxh64 d id slot)) ≡ ((slot == s) || has s (entries d))
  unfolding entries insert bucket_of
  has-insert s d id slot p =
      has-flatten-set s d.buckets (bucket_of xxh64 d id) id slot (grind arith)

  module _ (Q : String × ℕ → Type 0) where
    -- Every bucket has at most `n` entries, with a property.
    abbrev pub Bounded : ℕ → IdDir → Type 0
    Bounded n d = All (λ b. (length b ≤ n) × All Q b) d.buckets

    pub insert-Bounded :
        (n : ℕ) (d : IdDir) (id : String) (slot : ℕ)
        → Bounded n d
        → Q (id, slot)
        → Bounded (suc n) (insert xxh64 d id slot)
    unfolding insert
    insert-Bounded n d id slot p q =
        let old : List (String × ℕ) = get_or d.buckets (bucket_of xxh64 d id) [] in
        let o : (length old ≤ n) × All Q old =
          All-get_or (λ b. (length b ≤ n) × All Q b) d.buckets (bucket_of xxh64 d id) [] p
            (omega arith, tt) in
        All-set (λ b. (length b ≤ suc n) × All Q b) d.buckets (bucket_of xxh64 d id)
          (old ++ (id, slot) ∷ [])
          (All_weaken (λ b. (length b ≤ n) × All Q b) (λ b. (length b ≤ suc n) × All Q b)
            (λ b x. (omega (arith, x.0), x.1)) d.buckets p)
          (
            omega (arith, o.0, length-append old ((id, slot) ∷ [])),
            All-append Q old ((id, slot) ∷ []) (o.1) (q, tt),
          )

pub All-flatten :
    (Q : String × ℕ → Type 0) (n : ℕ) (bs : List (List (String × ℕ)))
    → All (λ b. (length b ≤ n) × All Q b) bs
    → All Q (flatten bs)
unfolding flatten
All-flatten Q n [] p = tt
All-flatten Q n (b ∷ bs) p = All-append Q b (flatten bs) (p.0.1) (All-flatten Q n bs (p.1))
