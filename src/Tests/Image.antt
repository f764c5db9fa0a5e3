-- ===== src/Tests/Image.antt =====
-- The theorems on images, on one without collections.
use veclite.Base.{
  ℕ, ◌<◌, ◌≡◌, refl, ap, arith, length, length-append, length-drop, drop, [], ◌∷◌, ◌++◌, Bytes,
}
use veclite.Error.{Result, ok, ◌>>=◌, to_option}
use veclite.Storage.File.{write_at, write_at_start}
use veclite.Storage.Compression.{identity}
use veclite.Storage.Header
use veclite.Storage.Header.{zeros, header_size}
use veclite.Storage.Header.RoundTrip.{length-zeros, length-page}
use veclite.Storage.Toc
use veclite.Storage.Pager.{
  Checkpoint, run, committed_header, checkpoint, read_committed, read_segment,
}
use veclite.Storage.Image.{image_colls, write_image}
use veclite.Storage.Image.{read_entries, read_image}
use veclite.Storage.Image.Native.{write_image-checkpoint}
use veclite.Storage.Image.Parsed.{read_image-Agree}
use veclite.Tests.Params.{crc, lib, serde, empty_toc}

abbrev uuid : Bytes
uuid = 1 ∷ 2 ∷ 3 ∷ 4 ∷ 5 ∷ 6 ∷ 7 ∷ 8 ∷ 1 ∷ 2 ∷ 3 ∷ 4 ∷ 5 ∷ 6 ∷ 7 ∷ 8 ∷ []

unfoldable image : Bytes
image =
    write_at 0
      (Header.encode crc
        (committed_header (record { uuid = uuid; created_epoch_s = 5; tail = 4096 }) 4096 1 1 6))
      (zeros header_size ++ 1 ∷ [])

-- What `write_image` makes if the zeroed page has `n` bytes.
abbrev made : ℕ → Result Bytes
made n = Toc.encode serde (empty_toc 1 n) >>= λ tbytes. ok (
    write_at 0
      (Header.encode crc (
        committed_header (record { uuid = uuid; created_epoch_s = 5; tail = 4096 }) n
          (length tbytes) (crc.hash tbytes) 6))
      (zeros header_size ++ tbytes))

image-made : write_image crc lib serde uuid 5 6 1 [] identity ≡ ok image
unfolding write_image image image_colls Toc.encode
image-made = ap made (length-zeros header_size)

write_image-checkpoint_example :
    (ck : Checkpoint) × (checkpoint crc lib serde
        (record { uuid = uuid; created_epoch_s = 5; tail = header_size })
        1
        []
        identity
        6
      ≡ ok ck)
    × (run ck.writes (zeros header_size) ≡ image)
write_image-checkpoint_example =
    write_image-checkpoint crc lib serde uuid 5 6 1 [] identity image image-made

length-image : length image < 18446744073709551615
unfolding image Header.encode committed_header Header.new
length-image =
    let page : Bytes =
      Header.encode crc
        (committed_header (record { uuid = uuid; created_epoch_s = 5; tail = 4096 }) 4096 1 1 6) in
    let n : length page ≡ 4096 = length-page _ refl _ in
    let blank : Bytes = zeros header_size ++ 1 ∷ [] in
    omega (
      arith,
      ap length (write_at_start page blank),
      length-append page (drop (length page) blank),
      length-drop (length page) blank,
      length-append (zeros header_size) (1 ∷ []),
      length-zeros header_size,
      n,
    )

read_image-Agree_example :
    to_option (read_image crc lib serde image)
    ≡ to_option (
        read_committed crc lib serde image >>= λ c.
        read_entries (read_segment crc lib serde image) c.1.collections)
read_image-Agree_example = read_image-Agree crc lib serde refl image length-image
