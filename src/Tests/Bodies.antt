-- ===== src/Tests/Bodies.antt =====
-- The theorems on segment bodies, on small inputs.
use veclite.Base.{
  ℕ, ◌+◌, ◌<◌, ◌≤◌, ◌≡◌, ◌⊎◌, refl, ◌==◌, true, none, some, [], ◌∷◌, ◌++◌, arith, Bytes, length,
  same, if◌then◌else◌, replicate, Bool, false, sym, ◌^◌,
}
use veclite.Error.{VecLiteError, ok, err, corrupt, ◌>>=◌}
use veclite.Utf8.{as_bytes}
use veclite.Storage.Le.{to_le, from_le, u32, u64}
use veclite.Storage.Msgpack.{guard_msgpack_depth, read_marker}
use veclite.Storage.Body.{Coder, FloatBits}
use veclite.Storage.Body.Payload
use veclite.Storage.Body.Payload.RoundTrip.{decode-encode_deep}
use veclite.Storage.Iddir
use veclite.Storage.Iddir.{IdDir}
use veclite.Storage.Iddir.Lookup.{get-insert}
use veclite.Storage.Vectors
use veclite.Storage.Vectors.{VectorsBody, f32, record_of}
use veclite.Storage.Vectors.View
use veclite.Storage.Vectors.View.{record_in, record_in-record_of}
use veclite.Storage.Vectors.Records.{decode-record_of}

-- Floats of one bit.
abbrev to_bits : Bool → ℕ
to_bits true = 1
to_bits false = 0

pub to_bits_lt : (x : Bool) → to_bits x < 2 ^ 32
to_bits_lt true = omega arith
to_bits_lt false = omega arith

pub from_bits-to_bits : (x : Bool) → (to_bits x == 1) ≡ x
from_bits-to_bits true = refl
from_bits-to_bits false = refl

abbrev pub float_bits : FloatBits Bool
float_bits = record {
  to_bits = to_bits;
  from_bits = λ n. n == 1;
  to_bits_lt = to_bits_lt;
  from_bits-to_bits = from_bits-to_bits;
}

-- Values that are their own MessagePack.
abbrev raw : Coder Bytes
raw = record { write = λ b. some b; read = λ b. some b; round_trip = λ t b h. sym h }

-- Arrays of one element, 17 deep.
abbrev deep : Bytes
deep = replicate 17 0x91 ++ 0xc0 ∷ []

abbrev too_deep : VecLiteError
too_deep = corrupt "payload: nesting exceeds {MAX_MSGPACK_DEPTH}"

deep_refused : guard_msgpack_depth deep ≡ err too_deep
unfolding guard_msgpack_depth read_marker
deep_refused = refl

decode-encode_deep_example :
    (bytes : Bytes) × (Payload.encode raw ((5, deep) ∷ []) ≡ ok bytes)
    × (Payload.decode raw bytes ≡ err too_deep)
decode-encode_deep_example =
    decode-encode_deep raw 5 deep deep too_deep (omega arith) (omega arith) refl deep_refused

-- The entry of slot 5, whose payload is one byte.
abbrev one_entry : Bytes
one_entry = 5 ∷ 0 ∷ 0 ∷ 0 ∷ 0 ∷ 0 ∷ 0 ∷ 0 ∷ 1 ∷ 0 ∷ 0 ∷ 0 ∷ 0xc0 ∷ []

one_entry_decoded : Payload.decode raw one_entry ≡ ok ((5, 0xc0 ∷ []) ∷ [])
unfolding Payload.decode Payload.decode_loop Payload.decode_entry guard_msgpack_depth read_marker
    from_le u32 u64
one_entry_decoded = refl

abbrev hash : Bytes → ℕ
hash b = length b

abbrev dir : IdDir
dir = Iddir.insert hash (Iddir.new 8) "a" 0

dir_nonempty : 0 < length dir.buckets
unfolding Iddir.insert Iddir.new as_bytes
dir_nonempty = omega arith

dir-b : Iddir.get hash dir "b" ≡ none
unfolding Iddir.get Iddir.insert Iddir.new same as_bytes
dir-b = refl

get-insert_example :
    Iddir.get hash (Iddir.insert hash dir "b" 1) "a"
    ≡ (if same "b" "a" then some 1 else Iddir.get hash dir "a")
get-insert_example = get-insert hash dir "b" "a" 1 dir_nonempty dir-b

abbrev vectors : VectorsBody Bool
vectors = record {
  encoding = f32;
  dimension = 1;
  first_slot = 3;
  count = 2;
  sq_params = none;
  records = 1 ∷ 0 ∷ 0 ∷ 0 ∷ 0 ∷ 0 ∷ 0 ∷ 0 ∷ [];
}

vectors_decoded : Vectors.decode float_bits (Vectors.encode float_bits vectors) ≡ ok vectors
unfolding Vectors.decode Vectors.encode to_le from_le u32 u64
vectors_decoded = refl

decode-record_of_example :
    ((r : Bytes) × (s : ℕ) × (record_of vectors 4 ≡ some r)
      × (Vectors.stride vectors ≡ ok s)
      × (length r ≡ s)
      × (3 ≤ 4)
      × (4 < 3 + 2))
    ⊎ ((record_of vectors 4 ≡ none) × (3 ≤ 4 → 3 + 2 ≤ 4))
decode-record_of_example =
    decode-record_of float_bits (Vectors.encode float_bits vectors) vectors 4 vectors_decoded

record_in-record_of_example :
    (View.parse float_bits (Vectors.encode float_bits vectors) >>= λ v. ok (record_in v 4))
    ≡ (Vectors.decode float_bits (Vectors.encode float_bits vectors) >>= λ w. ok (record_of w 4))
record_in-record_of_example = record_in-record_of float_bits (Vectors.encode float_bits vectors) 4
