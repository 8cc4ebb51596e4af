-- ===== src/Websocket/Waits.antt =====
-- When `Parser::parse_yet` waits for more.
use anweb.Prelude.{
  ℕ, ◌+◌, ◌^◌, ◌≤◌, ◌<◌, ◌≡◌, ◌≢◌, refl, sym, ◌∙◌, Bool, [], ◌∷◌, ◌++◌, append-nil, length, Bytes,
}
use anweb.Websocket.{
  Frame, Parser, new_parser, payload, Parsed, got, partial, failed, running, parse_yet,
}
use anweb.Websocket.Chunks.{resume, parse_yet-append}
use anweb.Websocket.Rfc.{Key, octets, client_frame}
use anweb.Websocket.Masking.{AllBytes}
use anweb.Websocket.RoundTrip.{parse_yet-client_frame}

-- A client's frame within the limit that arrives in two pieces, the second not empty, leaves the
-- parser waiting after the first piece and is handed out, with its payload and no surplus, after
-- the second: for an opcode of four bits, a key and a payload of bytes, and a limit that leaves room
-- for the header in 64 bits.
pub parse_yet_waits :
    (limit : ℕ) (fin : Bool) (opcode : ℕ) (key : Key) (body first more : Bytes)
    → opcode < 16
    → AllBytes (octets key)
    → AllBytes body
    → length body ≤ limit
    → limit + 14 < 2 ^ 64
    → client_frame fin opcode key body ≡ first ++ more
    → more ≢ []
    → (q : Parser) × (f : Frame) × (parse_yet new_parser first limit ≡ partial q)
      × (parse_yet q more limit ≡ got new_parser f [])
      × (payload f ≡ body)
parse_yet_waits limit fin opcode key body first more h hk hb within small e ne =
    let (f, whole, same_body, _, _) =
      parse_yet-client_frame limit fin opcode key body [] h hk hb within small in
    let split : resume (parse_yet new_parser first limit) more limit ≡ got new_parser f [] =
      sym (parse_yet-append new_parser first more limit) ∙ rw (← e) (rw append-nil at whole) in
    let (q, waits, on) = by_outcome (parse_yet new_parser first limit) split in
    (q, f, waits, on, same_body)
  where
    by_outcome :
        {f : Frame} (r : Parsed)
        → resume r more limit ≡ got new_parser f []
        → (q : Parser) × (r ≡ partial q) × (parse_yet q more limit ≡ got new_parser f [])
    by_outcome (got q f surplus) s = absurd (nonempty surplus (cc))
      where
        nonempty : (surplus : Bytes) → surplus ++ more ≢ []
        nonempty [] = ne
        nonempty (x ∷ xs) = λ y. cc
    by_outcome (partial q) s = (q, refl, s)
    by_outcome (failed e) s = absurd (cc)
    by_outcome running s = absurd (cc)
