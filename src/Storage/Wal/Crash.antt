-- ===== src/Storage/Wal/Crash.antt =====
-- Replay of a log of storage/wal.rs that a crash has cut off at any byte.
use veclite.Base.{
  ℕ, ◌+◌, ◌-◌, ◌≤◌, ◌<◌, ◌≡◌, refl, sym, ap, subst, ◌∙◌, Bool, none, some, List, [], ◌∷◌, ◌++◌, inl,
  inr, append_assoc, append-nil, arith, Bytes, All, length, take, drop, length-append, length-take,
  take-append-drop, take-append_le, take-append_ge, take_all, ltb-add_left, ltb, leb, leb→le,
  Option-cases, Bool-cases, if◌then◌else◌,
}
use veclite.Storage.Crc.{Crc32}
use veclite.Storage.Wal.{WalEntry, frame, decode_entry, scan}
use veclite.Storage.Wal.Entry.{InRange, length-frame, decode_entry-frame}
use veclite.Storage.Wal.Decode.{
  Decoded, decode_entry-Decoded, decode_entry_of_Decoded, Decoded-widen,
}
use veclite.Storage.Wal.Scan.{Contiguous, header, encodings, scan-encodings}

module _ (crc : Crc32) where
  -- The entries all of whose bytes lie within the first `n` bytes behind the header.
  abbrev pub survivors : ℕ → List WalEntry → List WalEntry
  survivors n [] = []
  survivors n (e ∷ es) =
      if leb (length (frame crc e)) n then e ∷ survivors (n - length (frame crc e)) es else []

  -- A part of an entry that is not the whole does not decode.
  decode_entry_torn :
      (e : WalEntry) (n : ℕ)
      → InRange e
      → n < length (frame crc e)
      → decode_entry crc (take n (frame crc e)) 0 e.seq ≡ none
  decode_entry_torn e n r short =
      elim (Option-cases (decode_entry crc (take n (frame crc e)) 0 e.seq)) [
        | inl torn ↦ torn
        | inr ((e', next), found) ↦
            let w : Bytes = take n (frame crc e) in
            let d : Decoded crc w 0 e.seq e' next =
              decode_entry-Decoded crc w 0 e.seq e' next found in
            let whole : decode_entry crc (frame crc e) 0 e.seq ≡ some (e', 0 + next) =
              decode_entry_of_Decoded crc (frame crc e) 0 e.seq e' (0 + next) (
                Decoded-widen crc (frame crc e) w (drop n (frame crc e)) 0 next e.seq e'
                  (sym (take-append-drop n (frame crc e))) d.next_fits d) in
            let next_is : 0 + 24 + length e.body ≡ 0 + next = cc (
              whole,
              decode_entry-frame crc e (frame crc e) [] 0 r (sym (append-nil (frame crc e))),
            ) in
            absurd
              (omega (arith, next_is, d.next_fits, length-take n (frame crc e), length-frame crc e))
      ]

  -- What is left of a cut log behind its whole entries.
  torn_part : ℕ → List WalEntry → Bytes
  torn_part n [] = []
  torn_part n (e ∷ es) =
      if leb (length (frame crc e)) n
      then torn_part (n - length (frame crc e)) es
      else take n (frame crc e)

  take-encodings :
      (es : List WalEntry) (n : ℕ)
      → take n (encodings crc es) ≡ encodings crc (survivors n es) ++ torn_part n es
  unfolding torn_part
  take-encodings [] n = take_all n [] (omega arith)
  take-encodings (e ∷ es) n = elim (Bool-cases (leb (length (frame crc e)) n)) [
    | inl whole ↦ rw whole (
        take-append_ge n (frame crc e) (encodings crc es) (leb→le _ _ whole)
        ∙ ap (λ t. frame crc e ++ t) (take-encodings es (n - length (frame crc e)))
        ∙ sym (append_assoc (frame crc e) _ _))
    | inr torn ↦ rw torn (take-append_le n (frame crc e) (encodings crc es) (ground arith))
  ]

  torn_part-decode :
      (es : List WalEntry) (n s : ℕ)
      → Contiguous s es
      → All InRange es
      → decode_entry crc (torn_part n es) 0 (s + length (survivors n es)) ≡ none
  unfolding torn_part
  torn_part-decode [] n s c r = unfold decode_entry in refl
  torn_part-decode (e ∷ es) n s (c, cs) (r, rs) = elim (Bool-cases (leb (length (frame crc e)) n)) [
    | inl whole ↦ rw whole (
        subst (λ t. decode_entry crc (torn_part (n - length (frame crc e)) es) 0 t ≡ none)
          (omega arith) (torn_part-decode es (n - length (frame crc e)) (s + 1) cs rs))
    | inr torn ↦ rw torn (
        subst (λ t. decode_entry crc (take n (frame crc e)) 0 t ≡ none) (omega arith)
          (decode_entry_torn e n r (ground arith)))
  ]

  survivors-Contiguous :
      (es : List WalEntry) (n s : ℕ) → Contiguous s es → Contiguous s (survivors n es)
  survivors-Contiguous [] n s c = tt
  survivors-Contiguous (e ∷ es) n s (c, cs) = elim (Bool-cases (leb (length (frame crc e)) n)) [
    | inl whole ↦ rw whole (c, survivors-Contiguous es (n - length (frame crc e)) (s + 1) cs)
    | inr torn ↦ rw torn tt
  ]

  survivors-InRange : (es : List WalEntry) (n : ℕ) → All InRange es → All InRange (survivors n es)
  survivors-InRange [] n r = tt
  survivors-InRange (e ∷ es) n (r, rs) = elim (Bool-cases (leb (length (frame crc e)) n)) [
    | inl whole ↦ rw whole (r, survivors-InRange es (n - length (frame crc e)) rs)
    | inr torn ↦ rw torn tt
  ]

  -- A log that was cut off at any byte behind its header replays to exactly the entries that lie
  -- within the cut; a tail is reported exactly if part of a further entry was left.
  pub scan_cut :
      (uuid_prefix : Bytes) (es : List WalEntry) (n : ℕ)
      → length uuid_prefix ≡ 8
      → Contiguous 1 es
      → All InRange es
      → n ≤ length (encodings crc es)
      → scan crc (header uuid_prefix ++ take n (encodings crc es)) uuid_prefix
        ≡ some (record {
          entries = survivors n es;
          discarded_tail = ltb (length (encodings crc (survivors n es))) n;
        })
  scan_cut uuid_prefix es n uuid_len c r h = rw (take-encodings es n) (
      scan-encodings crc uuid_prefix uuid_len (survivors n es) (torn_part n es)
        (survivors-Contiguous es n 1 c) (survivors-InRange es n r) (torn_part-decode es n 1 c r)
      ∙ ap (λ (b : Bool). some (record { entries = survivors n es; discarded_tail = b }))
          (sym (
            ltb-add_left _ _ n (
              omega (
                arith,
                ap length (take-encodings es n),
                length-append (encodings crc (survivors n es)) (torn_part n es),
                length-take n (encodings crc es),
              )))))
