-- ===== src/Websocket/Rfc.antt =====
-- The frames of RFC 6455, section 5.2, as a reference: what a peer writes. `frame` of
-- src/websocket.rs is the server's half of it.
use anweb.Prelude.{
  ℕ, ◌+◌, ◌^◌, ◌<◌, ◌≡◌, arith, Bool, true, [], ◌∷◌, ◌++◌, bit_xor, ltb, if◌then◌else◌, length,
  Bytes,
}
use anweb.Prelude.Bits.{bit_or_top}
use anweb.Websocket.{frame}
use anweb.Websocket.Length.{big_endian, big_endian_eight, big_endian_two}

-- The 32-bit masking key, as its four octets.
pub record Key : Type 0 where
  pub k0 : ℕ
  pub k1 : ℕ
  pub k2 : ℕ
  pub k3 : ℕ

abbrev pub octets : Key → Bytes
octets k = k.k0 ∷ k.k1 ∷ k.k2 ∷ k.k3 ∷ []

-- The key goes round: each octet of the payload takes the next octet of the key.
abbrev pub masked : ℕ → ℕ → ℕ → ℕ → Bytes → Bytes
masked a b c d [] = []
masked a b c d (x ∷ xs) = bit_xor x a ∷ masked b c d a xs

abbrev pub masked_by : Key → Bytes → Bytes
masked_by k = masked k.k0 k.k1 k.k2 k.k3

-- The first byte: FIN, three zero bits, the opcode.
abbrev pub first_octet : Bool → ℕ → ℕ
first_octet fin opcode = (if fin then 128 else 0) + opcode

-- The MASK bit (128 or 0) with the length, in its shortest form.
unfoldable pub length_field : ℕ → ℕ → Bytes
length_field mask_bit n =
    if ltb n 126
    then (mask_bit + n) ∷ []
    else if ltb n 65536
    then (mask_bit + 126) ∷ big_endian 2 n
    else (mask_bit + 127) ∷ big_endian 8 n

-- The three forms of a length: in seven bits, in two octets and in eight octets.
pub data LengthForm : Type 0 where
  seven_bits sixteen_bits sixty_four_bits : LengthForm

abbrev pub Fits : LengthForm → ℕ → Type 0
Fits seven_bits n = n < 126
Fits sixteen_bits n = n < 65536
Fits sixty_four_bits n = n < 2 ^ 64

-- The MASK bit with the length in the form given, which need not be the shortest.
abbrev pub length_in : LengthForm → ℕ → ℕ → Bytes
length_in seven_bits mask_bit n = (mask_bit + n) ∷ []
length_in sixteen_bits mask_bit n = (mask_bit + 126) ∷ big_endian 2 n
length_in sixty_four_bits mask_bit n = (mask_bit + 127) ∷ big_endian 8 n

unfoldable pub server_frame : Bool → ℕ → Bytes → Bytes
server_frame fin opcode body = first_octet fin opcode ∷ (length_field 0 (length body) ++ body)

unfoldable pub client_frame : Bool → ℕ → Key → Bytes → Bytes
client_frame fin opcode key body =
    first_octet fin opcode ∷ (length_field 128 (length body) ++ (octets key ++ masked_by key body))

-- `frame` writes what the RFC asks of a server: one final unmasked frame, with the length in its
-- shortest form, for an opcode of four bits and a payload whose length fits 64 bits.
pub frame-eq-server_frame :
    (opcode : ℕ) (body : Bytes)
    → opcode < 16
    → length body < 2 ^ 64
    → frame opcode body ≡ server_frame true opcode body
unfolding frame server_frame length_field
frame-eq-server_frame opcode body h k =
    ground (arith, bit_or_top opcode, big_endian_eight (length body), big_endian_two (length body))
