-- ===== src/Wire/Tests.antt =====
-- Runs of the scalar encodings, and the theorems at concrete inputs.
use zupt_web.Base.{◌≤◌, ◌≡◌, refl, arith, none, some, [], ◌∷◌, ◌++◌, length, take, drop, IsU64}
use zupt_web.Wire.{encode_varint, decode_varint, read_varint}
use zupt_web.Wire.Varint.{decode_varint-encode_varint}
use zupt_web.Wire.Canonical.{decode_varint_canonical, read_varint-eq-decode_varint}

encode_300 : encode_varint 300 ≡ 0xac ∷ 0x02 ∷ []
unfolding encode_varint
encode_300 = refl

decode_300 : decode_varint (0xac ∷ 0x02 ∷ 7 ∷ []) ≡ some (300, 2)
unfolding decode_varint
decode_300 = refl

-- A padded zero and an eleventh payload bit are refused.
decode_padded : decode_varint (0x80 ∷ 0x00 ∷ []) ≡ none
unfolding decode_varint
decode_padded = refl

decode_wide :
    decode_varint (0xff ∷ 0xff ∷ 0xff ∷ 0xff ∷ 0xff ∷ 0xff ∷ 0xff ∷ 0xff ∷ 0xff ∷ 2 ∷ []) ≡ none
unfolding decode_varint
decode_wide = refl

decode_varint-encode_varint_example :
    decode_varint (encode_varint 300 ++ (7 ∷ [])) ≡ some (300, length (encode_varint 300))
decode_varint-encode_varint_example = decode_varint-encode_varint 300 (7 ∷ []) (omega arith)

decode_varint_canonical_example :
    IsU64 300
    × (take 2 (0xac ∷ 0x02 ∷ 7 ∷ []) ≡ encode_varint 300)
    × (2 ≡ length (encode_varint 300))
    × (2 ≤ 10)
decode_varint_canonical_example =
    decode_varint_canonical (0xac ∷ 0x02 ∷ 7 ∷ []) 300 2 (omega arith) decode_300

read_varint-eq-decode_varint_example :
    read_varint (0xac ∷ 0x02 ∷ 7 ∷ []) ≡ elim (decode_varint (0xac ∷ 0x02 ∷ 7 ∷ [])) [
      | none ↦ none
      | some (v, n) ↦ some (v, n, drop n (0xac ∷ 0x02 ∷ 7 ∷ []))
    ]
read_varint-eq-decode_varint_example = read_varint-eq-decode_varint (0xac ∷ 0x02 ∷ 7 ∷ [])
