-- ===== src/Websocket/Length.antt =====
-- The extended payload length of a websocket frame: `shift_in` reads what `to_be_bytes` writes.
use anweb.Prelude.{
  ℕ, zero, suc, ◌+◌, ◌*◌, ◌/◌, ◌%◌, ◌^◌, ◌<◌, ◌≡◌, ◌∙◌, arith, [], ◌∷◌, bit_or, ◌++◌, Bytes,
}
use anweb.Prelude.Bits.{bit_or_shifted}
use anweb.Websocket.{shift_in}

-- Base 256, the highest digit first, on `count` digits.
unfoldable pub big_endian : ℕ → ℕ → Bytes
big_endian zero n = []
big_endian (suc count) n = big_endian count (n / 256) ++ n % 256 ∷ []

-- `len <<= 8; len |= b` on 64 bits.
shift_step : (len b : ℕ) → b < 256 → bit_or (len * 2 ^ 8 % 2 ^ 64) b ≡ len % 2 ^ 56 * 256 + b
shift_step len b h =
    let drops : len * 2 ^ 8 % 2 ^ 64 ≡ len % 2 ^ 56 * 2 ^ 8 = omega arith in
    rw drops (bit_or_shifted 8 (len % 2 ^ 56) b h)

-- The two bytes of a 16-bit length.
pub read_u16 : (n : ℕ) → n < 65536 → bit_or (n / 256 * 2 ^ 8) (n % 256) ≡ n
read_u16 n h = bit_or_shifted 8 (n / 256) (n % 256) (omega arith) ∙ omega arith

-- While nothing is shifted out.
shift_in_low :
    (len b : ℕ) (bs : Bytes)
    → len < 2 ^ 56
    → b < 256
    → shift_in len (b ∷ bs) ≡ shift_in (len * 256 + b) bs
unfolding shift_in
shift_in_low len b bs h k =
    let same : bit_or (len * 2 ^ 8 % 2 ^ 64) b ≡ len * 256 + b =
      omega (arith, shift_step len b k) in
    rw same

-- The last step shifts the byte out that the loop took twice.
shift_in_last : (len b : ℕ) → b < 256 → shift_in len (b ∷ []) ≡ len % 2 ^ 56 * 256 + b
unfolding shift_in
shift_in_last len b h = shift_step len b h

-- The loop starts at `buf[2]` and takes `buf[2]` once more; on 64 bits the first copy is gone at
-- the end, and the eight bytes are read as one big-endian number.
pub shift_in_eight :
    (b0 b1 b2 b3 b4 b5 b6 b7 : ℕ)
    → b0 < 256
    → b1 < 256
    → b2 < 256
    → b3 < 256
    → b4 < 256
    → b5 < 256
    → b6 < 256
    → b7 < 256
    → shift_in b0 (b0 ∷ b1 ∷ b2 ∷ b3 ∷ b4 ∷ b5 ∷ b6 ∷ b7 ∷ [])
      ≡ b0 * 2 ^ 56
        + b1 * 2 ^ 48
        + b2 * 2 ^ 40
        + b3 * 2 ^ 32
        + b4 * 2 ^ 24
        + b5 * 2 ^ 16
        + b6 * 2 ^ 8
        + b7
shift_in_eight b0 b1 b2 b3 b4 b5 b6 b7 h0 h1 h2 h3 h4 h5 h6 h7 =
    shift_in_low b0 b0 _ (omega arith) h0
    ∙ shift_in_low (b0 * 256 + b0) b1 _ (omega arith) h1
    ∙ shift_in_low ((b0 * 256 + b0) * 256 + b1) b2 _ (omega arith) h2
    ∙ shift_in_low (((b0 * 256 + b0) * 256 + b1) * 256 + b2) b3 _ (omega arith) h3
    ∙ shift_in_low ((((b0 * 256 + b0) * 256 + b1) * 256 + b2) * 256 + b3) b4 _ (omega arith) h4
    ∙ shift_in_low (((((b0 * 256 + b0) * 256 + b1) * 256 + b2) * 256 + b3) * 256 + b4) b5 _
        (omega arith) h5
    ∙ shift_in_low ((((((b0 * 256 + b0) * 256 + b1) * 256 + b2) * 256 + b3) * 256 + b4) * 256 + b5)
        b6 _ (omega arith) h6
    ∙ shift_in_last
        (((((((b0 * 256 + b0) * 256 + b1) * 256 + b2) * 256 + b3) * 256 + b4) * 256 + b5) * 256
          + b6)
        b7 h7
    ∙ omega arith

-- The digits of a 64-bit number, in their places.
pub digits_u64 :
    (n : ℕ)
    → n < 2 ^ 64
    → n / 2 ^ 56 % 256 * 2 ^ 56
        + n / 2 ^ 48 % 256 * 2 ^ 48
        + n / 2 ^ 40 % 256 * 2 ^ 40
        + n / 2 ^ 32 % 256 * 2 ^ 32
        + n / 2 ^ 24 % 256 * 2 ^ 24
        + n / 2 ^ 16 % 256 * 2 ^ 16
        + n / 2 ^ 8 % 256 * 2 ^ 8
        + n % 256
      ≡ n
digits_u64 n h = omega arith

pub big_endian_eight :
    (n : ℕ)
    → big_endian 8 n
      ≡ n / 2 ^ 56 % 256
        ∷ n / 2 ^ 48 % 256
        ∷ n / 2 ^ 40 % 256
        ∷ n / 2 ^ 32 % 256
        ∷ n / 2 ^ 24 % 256
        ∷ n / 2 ^ 16 % 256
        ∷ n / 2 ^ 8 % 256
        ∷ n % 256
        ∷ []
unfolding big_endian
big_endian_eight n = ground arith

pub big_endian_two : (n : ℕ) → n < 65536 → big_endian 2 n ≡ n / 256 ∷ n % 256 ∷ []
unfolding big_endian
big_endian_two n h = ground arith

-- The eight bytes of a 64-bit length.
pub read_u64 :
    (n : ℕ) {hi : ℕ} {behind : Bytes}
    → n < 2 ^ 64
    → big_endian 8 n ≡ hi ∷ behind
    → shift_in hi (big_endian 8 n) ≡ n
read_u64 n {hi} {behind} h e =
    let first : hi ≡ n / 2 ^ 56 % 256 = cc (big_endian_eight n) in
    rw (first, big_endian_eight n)
      (shift_in_eight _ _ _ _ _ _ _ _ (omega arith) (omega arith) (omega arith) (omega arith)
          (omega arith) (omega arith) (omega arith) (omega arith)
        ∙ digits_u64 n h)
