-- ===== src/RequestParser/Consumes.antt =====
-- `Parser::push` takes at least one byte for each request that it hands out.
use anweb.Prelude.{
  ℕ, ◌+◌, ◌<◌, ◌≡◌, refl, sym, ap, arith, Option, ◌++◌, length, length-append, length-drop, Bytes,
}
use anweb.RequestParser.{
  Settings, Parser, Scanned, ended, ran_out, stopped, crashed, Pushed, ready, scan, feed, push,
  finish,
}
use anweb.RequestParser.Chunks.{IsWaiting, Leaves, scan-Leaves}

module _ (settings : Settings) (percent_decode : Bytes → Option Bytes) where
  abbrev pub IsShorter : ℕ → Pushed → Type 0
  IsShorter total (ready q r surplus) = length surplus < total
  IsShorter total _ = Unit

  pub push-IsShorter :
      (p : Parser) (buf : Bytes)
      → IsWaiting p
      → IsShorter (length p.request.raw + length buf) (push settings percent_decode p buf)
  unfolding push finish
  push-IsShorter p buf h =
      let raw = p.request.raw ++ buf in
      by_end raw
        (scan settings percent_decode (length p.request.raw) buf
          (feed settings percent_decode p buf))
        (length-append p.request.raw buf)
        (scan-Leaves settings percent_decode buf raw (length p.request.raw) (length raw)
          (feed settings percent_decode p buf) h refl (sym (length-append p.request.raw buf))
          (omega arith))
    where
      by_end :
          (raw : Bytes) (s : Scanned)
          → length raw ≡ length p.request.raw + length buf
          → Leaves settings percent_decode raw (length raw) s
          → IsShorter (length p.request.raw + length buf) (finish settings percent_decode s)
      by_end raw (ended q n) total l = omega (arith, length-drop n q.request.raw, ap length l.0)
      by_end raw (ran_out q) total l = tt
      by_end raw (stopped e) total l = tt
      by_end raw crashed total l = tt
