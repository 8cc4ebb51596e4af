-- ===== src/Multipart/Panics.antt =====
-- What `push` does with a part without lines.
use anweb.Prelude.{
  ℕ, zero, suc, ◌≡◌, ◌<◌, refl, arith, none, [], ◌∷◌, ◌++◌, length, length-append, Bytes, bytes_eq,
}
use anweb.Multipart.{
  read_data, disposition, round, run, push, crashed, position_of, dashes, crlf, disposition_round,
  disposition_found, panicked, starts_with,
}
use anweb.Multipart.Rounds.{first_dash, data_round-found}

module _ (boundary : Bytes) where
  disposition_round-no_lines :
      (x : ℕ) (rest : Bytes)
      → disposition_round
          (record { state = disposition; buf = crlf ++ (crlf ++ x ∷ rest); boundary = boundary })
        ≡ panicked
  unfolding disposition_round disposition_found position_of starts_with bytes_eq
  disposition_round-no_lines x rest = ground arith

  run-no_lines :
      (fuel x : ℕ) (bytes rest : Bytes)
      → position_of dashes (bytes ++ first_dash) ≡ none
      → run (suc (suc fuel)) (record {
        state = read_data;
        buf = bytes ++ (dashes ++ (boundary ++ (crlf ++ (crlf ++ x ∷ rest))));
        boundary = boundary;
      })
        ≡ crashed
  unfolding run round
  run-no_lines fuel x bytes rest plain =
      let step = data_round-found boundary bytes (crlf ++ x ∷ rest) plain in
      rw (run, step, disposition_round-no_lines x rest) refl

  -- A part without lines, which RFC 2046 allows, behind another part: a parser that reads that part's
  -- data panics, where the data holds no two dashes and does not end in a dash, and a byte stands
  -- behind the empty line.
  pub push-no_lines :
      (x : ℕ) (bytes rest : Bytes)
      → position_of dashes (bytes ++ first_dash) ≡ none
      → push
          (record { state = read_data; buf = []; boundary = boundary })
          (bytes ++ (dashes ++ (boundary ++ (crlf ++ (crlf ++ x ∷ rest)))))
        ≡ crashed
  unfolding push
  push-no_lines x bytes rest plain =
      let more = bytes ++ (dashes ++ (boundary ++ (crlf ++ (crlf ++ x ∷ rest)))) in
      by_size (length more)
        (omega (arith, length-append bytes (dashes ++ (boundary ++ (crlf ++ (crlf ++ x ∷ rest))))))
    where
      by_size :
          (n : ℕ)
          → 0 < n
          → run (suc n) (record {
            state = read_data;
            buf = bytes ++ (dashes ++ (boundary ++ (crlf ++ (crlf ++ x ∷ rest))));
            boundary = boundary;
          })
            ≡ crashed
      by_size zero h = absurd (omega (arith, h))
      by_size (suc n) h = run-no_lines n x bytes rest plain
