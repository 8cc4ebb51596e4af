-- ===== src/Multipart/Cuts.antt =====
-- What `push` does with a boundary that comes in two pieces.
use anweb.Prelude.{
  ◌+◌, ◌<◌, ◌≡◌, refl, ap, arith, false, [], ◌∷◌, ◌++◌, length, length-append, Bytes, leb,
}
use anweb.Multipart.{
  MultipartParser, read_data, round, data_round, run, push, pushed, done, find_boundary, dashes,
  data_part,
}

module _ (boundary : Bytes) where
  abbrev reading : MultipartParser
  reading = record { state = read_data; buf = []; boundary = boundary }

  -- Fewer bytes than a boundary with its dashes and two bytes behind it are data.
  data_round-short :
      (bytes : Bytes)
      → length bytes < length boundary + 4
      → data_round (record reading { buf = bytes }) ≡ done reading (data_part bytes false ∷ [])
  unfolding data_round find_boundary
  data_round-short bytes short =
      let less : leb (length boundary + 4) (length bytes) ≡ false = ground (arith, short) in
      rw (data_round, find_boundary, less) refl

  push-short :
      (bytes : Bytes)
      → length bytes < length boundary + 4
      → push reading bytes ≡ pushed reading (data_part bytes false ∷ [])
  unfolding push run round
  push-short bytes short = rw (push, run, data_round-short bytes short) refl

  -- A boundary that comes in two pieces, neither of them empty, while data is read is not found: a
  -- parser that reads data gives both pieces as data and reads on, be it the closing boundary or
  -- one before a part.
  pub push-cut_boundary :
      (first second two : Bytes)
      → first ++ second ≡ dashes ++ (boundary ++ two)
      → length two ≡ 2
      → 0 < length first
      → 0 < length second
      → (push reading first ≡ pushed reading (data_part first false ∷ []))
        × (push reading second ≡ pushed reading (data_part second false ∷ []))
  push-cut_boundary first second two cut size some_first some_second =
      let total = ap length cut in
      let both = length-append first second in
      let all = length-append boundary two in
      (
        push-short first (omega (arith, total, both, all, size, some_second)),
        push-short second (omega (arith, total, both, all, size, some_first)),
      )
