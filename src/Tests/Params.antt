-- ===== src/Tests/Params.antt =====
-- Concrete functions for the parameters of the development: a checksum, codecs, and a coder of the
-- table of contents.
use veclite.Base.{
  ℕ, ◌<◌, ◌^◌, ◌≡◌, refl, ◌⊎◌, inl, inr, arith, ◌&&◌, Option, none, some, List, [], ◌∷◌, Bytes,
  length, ltb, ◌==◌, if◌then◌else◌,
}
use veclite.Error.{ok}
use veclite.Storage.Crc.{Crc32}
use veclite.Storage.Compression.{Codecs}
use veclite.Storage.Msgpack.{guard_msgpack_depth, read_marker}
use veclite.Storage.Toc.{CollEntry, Toc, TocSerde}

-- The length, where it fits.
abbrev short_length : Bytes → ℕ
short_length bytes = if ltb (length bytes) 4294967296 then length bytes else 0

pub short_length_lt : (bytes : Bytes) → short_length bytes < 2 ^ 32
short_length_lt bytes = ground arith

abbrev pub crc : Crc32
crc = record { hash = short_length; hash_lt = short_length_lt }

-- Codecs that put a byte in front.
abbrev lz4_decompress : Bytes → Option Bytes
lz4_decompress [] = none
lz4_decompress (b ∷ bs) = if b == 4 then some bs else none

abbrev zstd_decompress : Bytes → Option Bytes
zstd_decompress [] = none
zstd_decompress (b ∷ bs) = if b == 5 then some bs else none

pub zstd_round_trip : (b c : Bytes) → some (5 ∷ b) ≡ some c → zstd_decompress c ≡ some b
zstd_round_trip b [] h = cc
zstd_round_trip b (x ∷ c) h = ground arith

abbrev pub lib : Codecs
lib = record {
  lz4_compress = λ b. 4 ∷ b;
  lz4_decompress = lz4_decompress;
  lz4_round_trip = λ b h. refl;
  zstd_compress = λ b. some (5 ∷ b);
  zstd_decompress = zstd_decompress;
  zstd_round_trip = zstd_round_trip;
}

-- A table of contents without collections.
abbrev pub empty_toc : ℕ → ℕ → Toc
empty_toc generation free_tail_offset = record {
  generation = generation;
  collections = [];
  free_tail_offset = free_tail_offset;
}

-- A coder of two tables.
abbrev toc_code : ℕ → ℕ → Option Bytes
toc_code g o =
    if g == 1 && o == 4096
    then some (1 ∷ [])
    else if g == 2 && o == 4097
    then some (2 ∷ [])
    else none

abbrev to_vec : Toc → Option Bytes
to_vec t = elim t.collections [ [] ↦ toc_code t.generation t.free_tail_offset | x ∷ xs ↦ none ]

abbrev from_slice : Bytes → Option Toc
from_slice [] = none
from_slice (b ∷ bs) =
    if b == 1 then some (empty_toc 1 4096) else if b == 2 then some (empty_toc 2 4097) else none

toc_code_cases :
    (g o : ℕ) (b : Bytes)
    → toc_code g o ≡ some b
    → ((g ≡ 1) × (o ≡ 4096) × (b ≡ 1 ∷ [])) ⊎ ((g ≡ 2) × (o ≡ 4097) × (b ≡ 2 ∷ []))
toc_code_cases g o b h = ground arith

round_trip_parts :
    (g o : ℕ) (cs : List CollEntry) (b : Bytes)
    → to_vec (record { generation = g; collections = cs; free_tail_offset = o }) ≡ some b
    → from_slice b ≡ some (record { generation = g; collections = cs; free_tail_offset = o })
round_trip_parts g o (c ∷ cs) b h = cc
round_trip_parts g o [] b h = elim (toc_code_cases g o b h) [
  | inl (e, f, k) ↦ rw (e, f, k) refl
  | inr (e, f, k) ↦ rw (e, f, k) refl
]

pub round_trip : (t : Toc) (b : Bytes) → to_vec t ≡ some b → from_slice b ≡ some t
round_trip t b h = round_trip_parts t.generation t.free_tail_offset t.collections b h

shallow_parts :
    (g o : ℕ) (cs : List CollEntry) (b : Bytes)
    → to_vec (record { generation = g; collections = cs; free_tail_offset = o }) ≡ some b
    → guard_msgpack_depth b ≡ ok tt
unfolding guard_msgpack_depth read_marker
shallow_parts g o (c ∷ cs) b h = cc
shallow_parts g o [] b h = elim (toc_code_cases g o b h) [
  | inl (e, f, k) ↦ rw k refl
  | inr (e, f, k) ↦ rw k refl
]

pub shallow : (t : Toc) (b : Bytes) → to_vec t ≡ some b → guard_msgpack_depth b ≡ ok tt
shallow t b h = shallow_parts t.generation t.free_tail_offset t.collections b h

abbrev pub serde : TocSerde
serde = record {
  to_vec = to_vec;
  from_slice = from_slice;
  round_trip = round_trip;
  shallow = shallow;
}
