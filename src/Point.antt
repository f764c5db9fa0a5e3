-- ===== src/Point.antt =====
-- crates/veclite/src/point.rs: the validation of ids, of collection names and of sparse vectors.
use Prim.Native.Char.{code}
use Prim.Native.String.{len}
use veclite.Base.{ℕ, String, Bool, false, not, ◌&&◌, ◌||◌, ◌==◌, leb}
use veclite.Error.{invalid_argument, Result, ok, guard, ◌>>◌}

-- `char::is_whitespace`
unfoldable pub is_whitespace : ℕ → Bool
is_whitespace c =
    (leb 9 c && leb c 13)
    || (c == 32)
    || (c == 133)
    || (c == 160)
    || (c == 5760)
    || (leb 8192 c && leb c 8202)
    || (c == 8232)
    || (c == 8233)
    || (c == 8239)
    || (c == 8287)
    || (c == 12288)

-- `/`, `\` and NUL.
abbrev pub is_forbidden : ℕ → Bool
is_forbidden c = (c == 47) || (c == 92) || (c == 0)

unfoldable pub any_char : (ℕ → Bool) → String → Bool
any_char test String.[] = false
any_char test (String.◌∷◌ c s) = test (code c) || any_char test s

unfoldable pub starts : (ℕ → Bool) → String → Bool
starts test String.[] = false
starts test (String.◌∷◌ c s) = test (code c)

unfoldable pub ends : (ℕ → Bool) → String → Bool
ends test String.[] = false
ends test (String.◌∷◌ c String.[]) = test (code c)
ends test (String.◌∷◌ c (String.◌∷◌ d s)) = ends test (String.◌∷◌ d s)

unfoldable pub validate_id : String → Result (Unit {0})
validate_id id = do
  guard (not (len id == 0)) (invalid_argument "id must not be empty")
  guard (leb (len id) 512) (invalid_argument "id exceeds {MAX_ID_BYTES} bytes: {} bytes")
  ok tt

-- `name.trim() != name`: the first or the last character is white space.
unfoldable pub validate_collection_name : String → Result (Unit {0})
unfolding any_char starts ends is_whitespace
validate_collection_name name = do
  guard (not (len name == 0)) (invalid_argument "collection name must not be empty")
  guard (leb (len name) 255)
      (invalid_argument "collection name exceeds {MAX_COLLECTION_NAME_BYTES} bytes: {} bytes")
  guard (not (any_char is_forbidden name))
      (invalid_argument "collection name contains a forbidden character (/, \\, or NUL): {name:?}")
  guard (not (starts is_whitespace name || ends is_whitespace name))
      (invalid_argument "collection name has leading or trailing whitespace: {name:?}")
  ok tt
