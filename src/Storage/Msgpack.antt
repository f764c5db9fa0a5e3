-- ===== src/Storage/Msgpack.antt =====
-- crates/veclite/src/storage/body.rs, `slice` and `guard_msgpack_depth`: the bound on the nesting of
-- untrusted MessagePack. The loop runs on fuel, `none` if it ran out; `Depth` shows that it never does.
pub mod Depth
use veclite.Base.{
  ℕ, zero, suc, ◌+◌, ◌*◌, ◌-◌, ◌%◌, Bool, true, false, not, ◌&&◌, ◌||◌, Option, none, some, List,
  [], ◌∷◌, Bytes, length, take, drop, get_elem?, ltb, leb, ◌==◌, if◌then◌else◌, ◌++◌,
}
use veclite.Error.{Result, ok, err, corrupt, ◌>>=◌}

unfoldable pub slice : Bytes → ℕ → ℕ → Result Bytes
slice b at len =
    if leb (at + len) (length b)
    then ok (take len (drop at b))
    else err (corrupt "{}: field past end of body")

abbrev pub max_msgpack_depth : ℕ
max_msgpack_depth = 16

fold_be : ℕ → Bytes → ℕ
fold_be acc [] = acc
fold_be acc (b ∷ bs) = fold_be (acc * 256 + b) bs

-- A big-endian length of `n` bytes.
unfoldable pub be_len : Bytes → ℕ → ℕ → Result ℕ
unfolding slice fold_be
be_len b at n = do raw ← slice b at n; ok (fold_be 0 raw)

abbrev in_range : ℕ → ℕ → ℕ → Bool
in_range lo hi x = leb lo x && leb x hi

-- What a marker announces: where its body begins, the bytes to skip and the children to expect.
pub record Marker : Type 0 where
  pub at : ℕ
  pub skip : ℕ
  pub children : ℕ

abbrev fixed : ℕ → ℕ → Result Marker
fixed at skip = ok (record { at = at; skip = skip; children = 0 })

-- A length field of `n` bytes and then so many bytes, and `extra` ones.
sized : Bytes → ℕ → ℕ → ℕ → Result Marker
unfolding be_len
sized bytes at n extra = do
  len ← be_len bytes at n
  ok (record { at = at + n; skip = len + extra; children = 0 })

-- A length field of `n` bytes and then `k` children for each that it counts.
counted : Bytes → ℕ → ℕ → ℕ → Result Marker
unfolding be_len
counted bytes at n k = do
  len ← be_len bytes at n
  ok (record { at = at + n; skip = 0; children = k * len })

-- The first row whose test holds, as in a `match`.
select : List (Bool × Result Marker) → Result Marker → Result Marker
select [] other = other
select ((test, r) ∷ rows) other = if test then r else select rows other

abbrev marker_rows : Bytes → ℕ → ℕ → List (Bool × Result Marker)
marker_rows bytes at m =
    (
      in_range 0x00 0x7f m || (in_range 0xe0 0xff m || (m == 0xc0 || (m == 0xc2 || m == 0xc3))),
      fixed at 0,
    )
    ∷ (m == 0xc1, err (corrupt "payload: reserved msgpack marker"))
    ∷ (in_range 0x80 0x8f m, ok (record { at = at; skip = 0; children = 2 * (m % 16) }))
    ∷ (in_range 0x90 0x9f m, ok (record { at = at; skip = 0; children = m % 16 }))
    ∷ (in_range 0xa0 0xbf m, fixed at (m % 32))
    ∷ (m == 0xcc || m == 0xd0, fixed at 1)
    ∷ (m == 0xcd || m == 0xd1, fixed at 2)
    ∷ (m == 0xca || (m == 0xce || m == 0xd2), fixed at 4)
    ∷ (m == 0xcb || (m == 0xcf || m == 0xd3), fixed at 8)
    ∷ (m == 0xd4, fixed at 2)
    ∷ (m == 0xd5, fixed at 3)
    ∷ (m == 0xd6, fixed at 5)
    ∷ (m == 0xd7, fixed at 9)
    ∷ (m == 0xd8, fixed at 17)
    ∷ (m == 0xc4 || m == 0xd9, sized bytes at 1 0)
    ∷ (m == 0xc5 || m == 0xda, sized bytes at 2 0)
    ∷ (m == 0xc6 || m == 0xdb, sized bytes at 4 0)
    ∷ (m == 0xc7, sized bytes at 1 1)
    ∷ (m == 0xc8, sized bytes at 2 1)
    ∷ (m == 0xc9, sized bytes at 4 1)
    ∷ (m == 0xdc, counted bytes at 2 1)
    ∷ (m == 0xdd, counted bytes at 4 1)
    ∷ (m == 0xde, counted bytes at 2 2)
    ∷ []

unfoldable pub read_marker : Bytes → ℕ → ℕ → Result Marker
unfolding sized counted select
read_marker bytes at m = select (marker_rows bytes at m) (counted bytes at 4 2)

abbrev push : ℕ → List ℕ → List ℕ
push children expected = if children == 0 then expected else children ∷ expected

-- The loop over the stack of expected children, its top first.
unfoldable pub guard_loop : ℕ → Bytes → List ℕ → ℕ → Option (Result (Unit {0}))
guard_loop zero bytes expected at = none
guard_loop (suc fuel) bytes [] at = some (ok tt)
guard_loop (suc fuel) bytes (zero ∷ rest) at = guard_loop fuel bytes rest at
guard_loop (suc fuel) bytes (suc n ∷ rest) at = elim (ltb max_msgpack_depth (length (n ∷ rest))) [
  | true ↦ some (err (corrupt "payload: nesting exceeds {MAX_MSGPACK_DEPTH}"))
  | false ↦ elim (get_elem? bytes at) [
    | none ↦ some (ok tt)
    | some marker ↦ elim (read_marker bytes (at + 1) marker) [
      | err e ↦ some (err e)
      | ok m ↦ elim (leb (m.at + m.skip) (length bytes)) [
        | false ↦ some (ok tt)
        | true ↦ guard_loop fuel bytes (push m.children (n ∷ rest)) (m.at + m.skip)
      ]
    ]
  ]
]

out_of_fuel : Option (Result (Unit {0})) → Result (Unit {0})
out_of_fuel (some r) = r
out_of_fuel none = err (corrupt "out of fuel")

unfoldable pub guard_msgpack_depth : Bytes → Result (Unit {0})
unfolding out_of_fuel guard_loop
guard_msgpack_depth bytes = out_of_fuel (guard_loop (2 * length bytes + 2) bytes (1 ∷ []) 0)
