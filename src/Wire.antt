-- ===== src/Wire.antt =====
-- The scalar encodings of the archive format: the little-endian helpers of
-- zupt-5.2.10/include/zupt.h (zupt_le16_put ... zupt_le64_get) and the variable-length integers of
-- zupt-5.2.10/src/zupt_format.c (zupt_encode_varint, zupt_decode_varint, zupt_read_varint).
-- A buffer is the list of its bytes. A pointer argument is never null here, so the null checks that
-- open the varint readers are left out. A read past the end gives 0; every caller checks the length first.
pub mod Little
pub mod Varint
pub mod Canonical
mod Tests
use zupt_web.Base.{
  ℕ, zero, suc, ◌+◌, ◌-◌, ◌*◌, ◌/◌, ◌%◌, ◌^◌, bit_and, bit_or, ltb, ◌==◌, if◌then◌else◌, Bool, not,
  ◌&&◌, Option, none, some, List, [], ◌∷◌, get_or, u8, u16, u32, u64, ◌<<<◌, ◌>>>◌,
}

unfoldable pub le16_put : ℕ → List ℕ
le16_put v = u8 (bit_and v 0xff) ∷ u8 (bit_and (v >>> 8) 0xff) ∷ []

unfoldable pub le32_put : ℕ → List ℕ
le32_put v =
    u8 (bit_and v 0xff)
    ∷ u8 (bit_and (v >>> 8) 0xff)
    ∷ u8 (bit_and (v >>> 16) 0xff)
    ∷ u8 (bit_and (v >>> 24) 0xff)
    ∷ []

-- `p[i] = v & 0xFF; v >>= 8` for the rounds left.
unfoldable pub le64_put_loop : ℕ → ℕ → List ℕ
le64_put_loop zero v = []
le64_put_loop (suc n) v = u8 (bit_and v 0xff) ∷ le64_put_loop n (v >>> 8)

unfoldable pub le64_put : ℕ → List ℕ
unfolding le64_put_loop
le64_put v = le64_put_loop 8 v

-- `p[0] | p[1] << 8`, in `int`, cast to 16 bits.
unfoldable pub le16_get : List ℕ → ℕ
le16_get p = u16 (bit_or (get_or p 0 0) (u16 (get_or p 1 0 <<< 8)))

unfoldable pub le32_get : List ℕ → ℕ
le32_get p =
    bit_or (bit_or (bit_or (get_or p 0 0) (u32 (get_or p 1 0 <<< 8))) (u32 (get_or p 2 0 <<< 16)))
      (u32 (get_or p 3 0 <<< 24))

-- `for (i = 7; i >= 0; i--) v = (v << 8) | p[i]`: the first argument is `i + 1`.
unfoldable pub le64_get_loop : List ℕ → ℕ → ℕ → ℕ
le64_get_loop p zero v = v
le64_get_loop p (suc i) v = le64_get_loop p i (bit_or (u64 (v <<< 8)) (get_or p i 0))

unfoldable pub le64_get : List ℕ → ℕ
unfolding le64_get_loop
le64_get p = le64_get_loop p 8 0

-- The `do ... while (v)` of zupt_encode_varint, on fuel. A uint64 takes ten rounds at most, and the
-- round trip of `Wire.Varint` shows that the fuel does not run out.
unfoldable pub encode_varint_loop : ℕ → ℕ → List ℕ
encode_varint_loop zero v = []
encode_varint_loop (suc fuel) v =
    let x = u8 (bit_and v 0x7f) in
    let v' = v >>> 7 in
    let rest = encode_varint_loop fuel v' in if v' == 0 then x ∷ [] else bit_or x 0x80 ∷ rest

-- The bytes written to `b`; the returned count is their number.
unfoldable pub encode_varint : ℕ → List ℕ
unfolding encode_varint_loop
encode_varint v = encode_varint_loop 10 v

-- The loop of zupt_decode_varint: the rounds left (`10 - n`), the bytes from `b[n]` on, `n`, `*v` and `shift`.
-- The result is `*v` and the number of bytes consumed; `none` is -1.
unfoldable pub decode_varint_loop : ℕ → List ℕ → ℕ → ℕ → ℕ → Option (ℕ × ℕ)
decode_varint_loop zero bs n v shift = none
decode_varint_loop (suc r) [] n v shift = none
decode_varint_loop (suc r) (byte ∷ bs) n v shift =
    let payload = u8 (bit_and byte 0x7f) in
    let v' = bit_or v (u64 (payload <<< shift)) in
    let rest = decode_varint_loop r bs (n + 1) v' (shift + 7) in
    if (n == 9) && not (bit_and byte 0xfe == 0)
    then none
    else if bit_and byte 0x80 == 0
    then if ltb 0 n && (payload == 0) then none else some (v', n + 1)
    else rest

unfoldable pub decode_varint : List ℕ → Option (ℕ × ℕ)
unfolding decode_varint_loop
decode_varint b = decode_varint_loop 10 b 0 0 0

-- zupt_read_varint takes its bytes from a stream, here the list of the bytes ahead. The result is
-- `*v`, the returned count and the stream behind the integer. At the end of the stream `fgetc` is EOF.
unfoldable pub read_varint_loop : ℕ → List ℕ → ℕ → ℕ → ℕ → Option (ℕ × ℕ × List ℕ)
read_varint_loop zero f i v shift = none
read_varint_loop (suc r) [] i v shift = none
read_varint_loop (suc r) (byte ∷ f) i v shift =
    let payload = u8 (bit_and byte 0x7f) in
    let v' = bit_or v (u64 (payload <<< shift)) in
    let rest = read_varint_loop r f (i + 1) v' (shift + 7) in
    if (i == 9) && not (bit_and byte 0xfe == 0)
    then none
    else if bit_and byte 0x80 == 0
    then if ltb 0 i && (payload == 0) then none else some (v', i + 1, f)
    else rest

unfoldable pub read_varint : List ℕ → Option (ℕ × ℕ × List ℕ)
unfolding read_varint_loop
read_varint f = read_varint_loop 10 f 0 0 0
