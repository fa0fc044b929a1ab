-- ===== src/Xxh.antt =====
-- The checksum XXH64, zupt-5.2.10/src/zupt_xxh.c. Every loop takes a known number of bytes a round, so
-- the rounds are counted from the length. The words are read as a little-endian machine reads them.
mod Tests
use zupt_web.Base.{
  ℕ, zero, suc, ◌+◌, ◌-◌, ◌*◌, ◌/◌, ◌%◌, ◌^◌, leb, if◌then◌else◌, List, [], ◌∷◌, length, drop,
  bit_or, bit_xor, u64, ◌<<<◌, ◌>>>◌,
}
use zupt_web.Wire.{le32_get, le64_get}

abbrev pub prime1 : ℕ
prime1 = 0x9e37_79b1_85eb_ca87

abbrev pub prime2 : ℕ
prime2 = 0xc2b2_ae3d_27d4_eb4f

abbrev pub prime3 : ℕ
prime3 = 0x1656_67b1_9e37_79f9

abbrev pub prime4 : ℕ
prime4 = 0x85eb_ca77_c2b2_ae63

abbrev pub prime5 : ℕ
prime5 = 0x27d4_eb2f_1656_67c5

unfoldable pub rotl64 : ℕ → ℕ → ℕ
rotl64 x r = bit_or (u64 (x <<< r)) (x >>> (64 - r))

unfoldable pub xround : ℕ → ℕ → ℕ
unfolding rotl64
xround a i = u64 (rotl64 (u64 (a + i * prime2)) 31 * prime1)

unfoldable pub merge : ℕ → ℕ → ℕ
unfolding xround
merge a v = u64 (bit_xor a (xround 0 v) * prime1 + prime4)

unfoldable pub aval : ℕ → ℕ
aval h =
    let h1 = u64 (bit_xor h (h >>> 33) * prime2) in
    let h2 = u64 (bit_xor h1 (h1 >>> 29) * prime3) in bit_xor h2 (h2 >>> 32)

-- The rounds of 32 bytes, and the four lanes at the end.
unfoldable pub lanes : ℕ → List ℕ → ℕ → ℕ → ℕ → ℕ → ℕ
unfolding merge
lanes zero p v1 v2 v3 v4 =
    let h = u64 (rotl64 v1 1 + rotl64 v2 7 + rotl64 v3 12 + rotl64 v4 18) in
    merge (merge (merge (merge h v1) v2) v3) v4
lanes (suc rounds) p v1 v2 v3 v4 =
    lanes rounds (drop 32 p) (xround v1 (le64_get p)) (xround v2 (le64_get (drop 8 p)))
      (xround v3 (le64_get (drop 16 p))) (xround v4 (le64_get (drop 24 p)))

-- `while (p + 8 <= end)`
unfoldable pub word_rounds : ℕ → List ℕ → ℕ → ℕ
unfolding xround
word_rounds zero p h = h
word_rounds (suc rounds) p h =
    word_rounds rounds (drop 8 p)
      (u64 (rotl64 (bit_xor h (xround 0 (le64_get p))) 27 * prime1 + prime4))

-- `while (p < end)`
unfoldable pub byte_rounds : List ℕ → ℕ → ℕ
unfolding rotl64
byte_rounds [] h = h
byte_rounds (b ∷ p) h = byte_rounds p (u64 (rotl64 (bit_xor h (u64 (b * prime5))) 11 * prime1))

-- What is left behind the rounds of 32 bytes: words, half a word, and bytes.
unfoldable pub tail : List ℕ → ℕ → ℕ
unfolding word_rounds byte_rounds
tail p h =
    let h1 = word_rounds (length p / 8) p h in
    let rest = drop (length p / 8 * 8) p in
    let half = u64 (rotl64 (bit_xor h1 (u64 (le32_get rest * prime1))) 23 * prime2 + prime3) in
    if leb 4 (length rest) then byte_rounds (drop 4 rest) half else byte_rounds rest h1

unfoldable pub xxh64 : List ℕ → ℕ → ℕ
unfolding lanes tail aval
xxh64 p seed =
    let rounds = length p / 32 in
    let long =
      lanes rounds p (u64 (seed + prime1 + prime2)) (u64 (seed + prime2)) seed
        (u64 (seed + 2 ^ 64 - prime1)) in
    let h = if leb 32 (length p) then long else u64 (seed + prime5) in
    aval (tail (drop (rounds * 32) p) (u64 (h + length p)))
