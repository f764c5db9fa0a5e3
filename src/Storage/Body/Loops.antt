-- ===== src/Storage/Body/Loops.antt =====
-- The loops of the codecs: `for item in &items` on the writing side, `for _ in 0..count` on the
-- reading side, with the position where the next item stands.
use veclite.Base.{
  ℕ, zero, suc, ◌+◌, ◌≡◌, refl, sym, ap, ◌∙◌, List, [], ◌∷◌, ◌++◌, append_assoc, arith, Bytes, All,
  length, length-append, drop, drop_next,
}
use veclite.Error.{Result, ok, ◌>>=◌, >>=-eq-ok, ok_inj}

module _ {E : Type 0} where
  unfoldable pub write_each : (E → Result Bytes) → List E → Result Bytes
  write_each write [] = ok []
  write_each write (e ∷ es) = do item ← write e; rest ← write_each write es; ok (item ++ rest)

  unfoldable pub concat_each : (E → Bytes) → List E → Bytes
  concat_each write [] = []
  concat_each write (e ∷ es) = write e ++ concat_each write es

  unfoldable pub read_each : (Bytes → ℕ → Result (E × ℕ)) → ℕ → Bytes → ℕ → Result (List E × ℕ)
  read_each read zero b at = ok ([], at)
  read_each read (suc n) b at = do
    item ← read b at
    rest ← read_each read n b (item.1)
    ok (item.0 ∷ rest.0, rest.1)

  -- The bytes are those of the items, one behind the other.
  unfoldable pub Written : (E → Bytes → Type 0) → List E → Bytes → Type 0
  Written Writes [] bytes = bytes ≡ []
  Written Writes (e ∷ es) bytes =
      (item : Bytes) × (rest : Bytes) × Writes e item
      × Written Writes es rest
      × (bytes ≡ item ++ rest)

  pub write_each-Written :
      (P : E → Type 0) (write : E → Result Bytes) (es : List E) (bytes : Bytes)
      → write_each write es ≡ ok bytes
      → All P es
      → Written (λ e b. P e × (write e ≡ ok b)) es bytes
  unfolding write_each Written
  write_each-Written P write [] bytes h p = sym (ok_inj h)
  write_each-Written P write (e ∷ es) bytes h p =
      let (item, one, h₁) =
        >>=-eq-ok (write e) (λ x. write_each write es >>= λ rest. ok (x ++ rest)) h in
      let (rest, more, h₂) = >>=-eq-ok (write_each write es) (λ rest. ok (item ++ rest)) h₁ in
      (item, rest, (p.0, one), write_each-Written P write es rest more (p.1), sym (ok_inj h₂))

  pub concat_each-Written :
      (P : E → Type 0) (write : E → Bytes) (es : List E)
      → All P es
      → Written (λ e b. P e × (b ≡ write e)) es (concat_each write es)
  unfolding concat_each Written
  concat_each-Written P write [] p = refl
  concat_each-Written P write (e ∷ es) p =
      (write e, concat_each write es, (p.0, refl), concat_each-Written P write es (p.1), refl)

  module _ (read : Bytes → ℕ → Result (E × ℕ)) (Writes : E → Bytes → Type 0)
      (reads : (e : E) (item buf rest : Bytes) (at : ℕ)
        → Writes e item
        → drop at buf ≡ item ++ rest
        → read buf at ≡ ok (e, at + length item)) where
    -- If the reader reads what the writer wrote of an item, it reads what the writer wrote of a list.
    pub read_each-Written :
        (es : List E) (bytes buf rest : Bytes) (at : ℕ)
        → Written Writes es bytes
        → drop at buf ≡ bytes ++ rest
        → read_each read (length es) buf at ≡ ok (es, at + length bytes)
    unfolding read_each Written
    read_each-Written [] bytes buf rest at w h =
        ap (λ (j : ℕ). ok ([], j)) (omega (arith, ap length w))
    read_each-Written (e ∷ es) bytes buf rest at (item, more, one, w, shape) h =
        let here : drop at buf ≡ item ++ (more ++ rest) =
          h ∙ ap (λ t. t ++ rest) shape ∙ append_assoc item more rest in
        let next : drop (at + length item) buf ≡ more ++ rest =
          drop_next buf item (more ++ rest) at (length item) (at + length item) here refl refl in
        let end : at + length item + length more ≡ at + length bytes =
          omega (arith, ap length shape, length-append item more) in
        rw
          (
            reads e item buf (more ++ rest) at one here,
            read_each-Written es more buf rest (at + length item) w next,
            end,
          )
          refl
