-- ===== src/Storage/Body/Payload.antt =====
-- `PayloadBlock` of storage/body.rs: the payloads by slot.
pub mod RoundTrip
use veclite.Base.{
  ℕ, zero, suc, ◌+◌, ◌^◌, ◌≤◌, ◌<◌, ◌≡◌, refl, sym, ap, ◌∙◌, Option, none, some, Option-cases,
  Bool-cases, inl, inr, List, [], ◌∷◌, ◌++◌, append_assoc, append-nil, arith, Bytes, All, length,
  drop, ltb, leb, ltb→lt, ltb→le, lt→ltb, le→ltb, if◌then◌else◌, length-append, length-drop,
  drop_next,
}
use veclite.Error.{
  Result, ok, err, corrupt, ◌>>=◌, ◌>>◌, ok_or, guard, >>=-eq-ok, ok_inj, VecLiteError,
  Result-cases,
}
use veclite.Storage.Le.{to_le, u32, u64, u32_at, u64_at, length-to_le}
use veclite.Storage.Msgpack.{slice, guard_msgpack_depth}
use veclite.Storage.Body.{Coder}
use veclite.Storage.Body.Fields.{drop_le, le_fits, slice_at}

module _ {V : Type 0} (serde : Coder V) where
  unfoldable pub encode_entry : ℕ → V → Result Bytes
  encode_entry slot value = do
    mp ← ok_or (serde.write value) (corrupt "payload: {}")
    guard (ltb (length mp) (2 ^ 32)) (corrupt "payload: entry exceeds 4 GiB")
    ok (to_le 8 slot ++ (to_le 4 (length mp) ++ mp))

  unfoldable pub encode : List (ℕ × V) → Result Bytes
  unfolding encode_entry
  encode [] = ok []
  encode ((slot, value) ∷ entries) = do
    entry ← encode_entry slot value
    rest ← encode entries
    ok (entry ++ rest)

  -- One round of the loop: the entry at `at`, and where the next one stands.
  unfoldable pub decode_entry : Bytes → ℕ → Result ((ℕ × V) × ℕ)
  decode_entry b at = do
    slot ← u64 b at "payload"
    len ← u32 b (at + 8) "payload"
    bytes ← slice b (at + 12) len
    guard_msgpack_depth bytes
    value ← ok_or (serde.read bytes) (corrupt "payload: {}")
    ok ((slot, value), at + 12 + len)

  -- The loop `while at < b.len()`, on fuel.
  unfoldable pub decode_loop : ℕ → Bytes → ℕ → Result (List (ℕ × V))
  unfolding decode_entry
  decode_loop zero b at = err (corrupt "out of fuel")
  decode_loop (suc fuel) b at =
      let next = decode_entry b at >>= λ e. decode_loop fuel b (e.1) >>= λ rest. ok (e.0 ∷ rest) in
      if ltb at (length b) then next else ok []

  unfoldable pub decode : Bytes → Result (List (ℕ × V))
  unfolding decode_loop
  decode b = decode_loop (length b + 1) b 0
