-- ===== src/Storage/Wal/Scan.antt =====
-- `Wal::scan` of storage/wal.rs: what replay recovers of a log, whole, torn or foreign.
use veclite.Base.{
  ℕ, zero, suc, ◌+◌, ◌-◌, ◌≤◌, ◌<◌, ◌≡◌, refl, sym, ap, subst, ◌∙◌, Bool, true, none, some, List,
  [], ◌∷◌, ◌++◌, inl, inr, append_assoc, append-nil, arith, Bytes, All, length, drop, ==-refl,
  le→ltb, length-append, length-drop, drop_next, take_next, fits, ltb, ltb-add_left, Option-cases,
}
use veclite.Storage.Le.{to_le, length-to_le}
use veclite.Storage.Crc.{Crc32}
use veclite.Storage.Wal.{
  WalEntry, frame, decode_entry, scan_loop, scan, magic, format_version, eq_bytes,
}
use veclite.Storage.Wal.Entry.{InRange, length-frame, decode_entry-frame}
use veclite.Storage.Wal.Decode.{
  Decoded, decode_entry-Decoded, decode_entry_of_Decoded, Decoded-narrow,
}

pub eq_bytes_refl : (xs : Bytes) → eq_bytes xs xs ≡ true
eq_bytes_refl [] = refl
eq_bytes_refl (x ∷ xs) = rw (==-refl x, eq_bytes_refl xs) refl

-- Sequence numbers that count up from `s` without a gap.
abbrev pub Contiguous : ℕ → List WalEntry → Type 0
Contiguous s [] = Unit
Contiguous s (e ∷ es) = (e.seq ≡ s) × Contiguous (s + 1) es

-- The 16 bytes that a log starts with.
abbrev pub header : Bytes → Bytes
header uuid_prefix = magic ++ (to_le 4 format_version ++ uuid_prefix)

module _ (crc : Crc32) where
  abbrev pub encodings : List WalEntry → Bytes
  encodings [] = []
  encodings (e ∷ es) = frame crc e ++ encodings es

  scan_loop_step :
      (fuel : ℕ) (all : Bytes) (at s next : ℕ) (acc : List WalEntry) (e : WalEntry)
      → at < length all
      → decode_entry crc all at s ≡ some (e, next)
      → scan_loop crc (suc fuel) all at s acc
        ≡ scan_loop crc fuel all next (e.seq + 1) (acc ++ e ∷ [])
  unfolding scan_loop
  scan_loop_step fuel all at s next acc e h d = ground arith

  scan_loop_stop :
      (fuel : ℕ) (all : Bytes) (at s : ℕ) (acc : List WalEntry)
      → decode_entry crc all at s ≡ none
      → scan_loop crc (suc fuel) all at s acc
        ≡ some (record { entries = acc; discarded_tail = ltb at (length all) })
  unfolding scan_loop
  scan_loop_stop fuel all at s acc d = ground arith

  scan_loop_cong :
      (k : ℕ) (all : Bytes) (acc acc' : List WalEntry) (at at' s s' : ℕ)
      → at ≡ at'
      → s ≡ s'
      → acc ≡ acc'
      → scan_loop crc k all at s acc ≡ scan_loop crc k all at' s' acc'
  scan_loop_cong k all acc acc' at at' s s' p q r = cc

  pub scan_loop-encodings :
      (es : List WalEntry) (fuel k : ℕ) (all tail : Bytes) (at s : ℕ) (acc : List WalEntry)
      → fuel ≡ length es + k
      → drop at all ≡ encodings es ++ tail
      → Contiguous s es
      → All InRange es
      → scan_loop crc fuel all at s acc
        ≡ scan_loop crc k all (at + length (encodings es)) (s + length es) (acc ++ es)
  scan_loop-encodings [] fuel k all tail at s acc f h c r =
      ap (λ t. scan_loop crc t all at s acc) (omega arith)
      ∙ scan_loop_cong k all _ _ _ _ _ _ (omega arith) (omega arith) (sym (append-nil acc))
  scan_loop-encodings (e ∷ es) zero k all tail at s acc f h c r = absurd (omega arith)
  scan_loop-encodings (e ∷ es) (suc fuel) k all tail at s acc f h (c, cs) (r, rs) =
      let here : drop at all ≡ frame crc e ++ (encodings es ++ tail) =
        h ∙ append_assoc (frame crc e) (encodings es) tail in
      let next : ℕ = at + 24 + length e.body in
      let frame_len : length (frame crc e) ≡ 24 + length e.body = length-frame crc e in
      scan_loop_step fuel all at s next acc e
        (omega (arith, fits all _ _ at (24 + length e.body) here frame_len (omega arith)))
        (rw (← c) (decode_entry-frame crc e all (encodings es ++ tail) at r here))
      ∙ scan_loop-encodings es fuel k all tail next (e.seq + 1) (acc ++ e ∷ []) (omega arith)
          (drop_next all _ _ at (24 + length e.body) next here frame_len (omega arith)) (rw c cs) rs
      ∙ scan_loop_cong k all _ _ _ _ _ _ (omega (arith, length-append (frame crc e) (encodings es)))
          (omega arith) (append_assoc acc (e ∷ []) es)

  length-le-encodings : (es : List WalEntry) → length es ≤ length (encodings es)
  length-le-encodings [] = omega arith
  length-le-encodings (e ∷ es) = omega (
    arith,
    length-append (frame crc e) (encodings es),
    length-frame crc e,
    length-le-encodings es,
  )

  -- Bytes that do not decode by themselves do not decode at the end of a buffer either.
  pub decode_entry-drop-none :
      (all tail : Bytes) (at s : ℕ)
      → drop at all ≡ tail
      → decode_entry crc tail 0 s ≡ none
      → decode_entry crc all at s ≡ none
  decode_entry-drop-none all tail at s h stop = elim (Option-cases (decode_entry crc all at s)) [
    | inl none_found ↦ none_found
    | inr ((e, next), found) ↦
        let d : Decoded crc all at s e next = decode_entry-Decoded crc all at s e next found in
        let m : ℕ = 24 + length e.body in
        cc (
          sym stop
          ∙ decode_entry_of_Decoded crc tail 0 s e m (
              Decoded-narrow crc all tail [] at m s e (h ∙ sym (append-nil tail))
                (omega (arith, d.next_is, d.next_fits, length-drop at all, ap length h))
                (subst (Decoded crc all at s e) (omega (arith, d.next_is)) d)))
  ]

  module _ (uuid_prefix : Bytes) (uuid_len : length uuid_prefix ≡ 8) where
    length-header : length (header uuid_prefix) ≡ 16
    length-header = simp (length-append, length-to_le) (omega arith)

    uuid_at : (rest : Bytes) → drop 8 (header uuid_prefix ++ rest) ≡ uuid_prefix ++ rest
    uuid_at rest =
        drop_next (header uuid_prefix ++ rest) (to_le 4 format_version) (uuid_prefix ++ rest) 4 4 8
          (append_assoc (to_le 4 format_version) uuid_prefix rest) (length-to_le 4 format_version)
          refl

    scan-header :
        (rest : Bytes)
        → scan crc (header uuid_prefix ++ rest) uuid_prefix
          ≡ scan_loop crc
              (suc (length (header uuid_prefix ++ rest)))
              (header uuid_prefix ++ rest)
              16
              1
              []
    unfolding scan
    scan-header rest =
        rw
          (
            le→ltb (length (header uuid_prefix ++ rest)) 16
                (omega (arith, length-append (header uuid_prefix) rest, length-header)),
            take_next (header uuid_prefix ++ rest) uuid_prefix rest 8 8 (uuid_at rest) uuid_len,
            eq_bytes_refl uuid_prefix,
          )
          refl

    after_header : (rest : Bytes) → drop 16 (header uuid_prefix ++ rest) ≡ rest
    after_header rest =
        drop_next (header uuid_prefix ++ rest) (header uuid_prefix) rest 0 16 16 refl length-header
          refl

    -- Replay of a log that holds entries in range, numbered from 1, and then bytes that do not decode
    -- returns those entries, and reports a discarded tail exactly if such bytes are there.
    pub scan-encodings :
        (es : List WalEntry) (tail : Bytes)
        → Contiguous 1 es
        → All InRange es
        → decode_entry crc tail 0 (1 + length es) ≡ none
        → scan crc (header uuid_prefix ++ (encodings es ++ tail)) uuid_prefix
          ≡ some (record { entries = es; discarded_tail = ltb 0 (length tail) })
    scan-encodings es tail c r stop =
        let all : Bytes = header uuid_prefix ++ (encodings es ++ tail) in
        let end : ℕ = 16 + length (encodings es) in
        let k : ℕ = length all - length es in
        let total : length all ≡ 16 + (length (encodings es) + length tail) = omega (
          arith,
          length-append (header uuid_prefix) (encodings es ++ tail),
          length-append (encodings es) tail,
          length-header,
        ) in
        scan-header (encodings es ++ tail)
        ∙ scan_loop-encodings es (suc (length all)) (suc k) all tail 16 1 []
            (omega (arith, length-le-encodings es)) (after_header (encodings es ++ tail)) c r
        ∙ scan_loop_stop k all end (1 + length es) es (
            decode_entry-drop-none all tail end (1 + length es)
              (drop_next all (encodings es) tail 16 (length (encodings es)) end
                (after_header (encodings es ++ tail)) refl refl)
              stop)
        ∙ ap (λ (b : Bool). some (record { entries = es; discarded_tail = b }))
            (ltb-add_left end (length tail) (length all) (omega arith))
