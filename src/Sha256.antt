-- ===== src/Sha256.antt =====
-- SHA-256, zupt-5.2.10/src/zupt_sha256.c, with the transform in C: the SHA-NI transform of some
-- processors is not taken. A pointer into the input is the list of the bytes from it on.
pub mod Streaming
pub mod Digest
pub mod Standard
pub mod Schedule
pub mod Conforms
mod Tests
use zupt_web.Base.{
  ℕ, zero, suc, ◌+◌, ◌-◌, ◌*◌, ◌/◌, ◌%◌, ◌^◌, min, ltb, leb, ◌==◌, if◌then◌else◌, List, [], ◌∷◌,
  ◌++◌, length, get_or, take, drop, replicate, bit_and, bit_or, bit_xor, u8, u32, u64, ◌<<<◌, ◌>>>◌,
}

-- The context: `state` has 8 words, `buf` 64 bytes.
pub record Sha256Ctx : Type 0 where
  pub state : List ℕ
  pub count : ℕ
  pub buf : List ℕ

abbrev pub k_table : List ℕ
k_table =
    0x428a_2f98 ∷ 0x7137_4491 ∷ 0xb5c0_fbcf ∷ 0xe9b5_dba5 ∷ 0x3956_c25b ∷ 0x59f1_11f1 ∷ 0x923f_82a4
    ∷ 0xab1c_5ed5 ∷ 0xd807_aa98 ∷ 0x1283_5b01 ∷ 0x2431_85be ∷ 0x550c_7dc3 ∷ 0x72be_5d74
    ∷ 0x80de_b1fe ∷ 0x9bdc_06a7 ∷ 0xc19b_f174 ∷ 0xe49b_69c1 ∷ 0xefbe_4786 ∷ 0x0fc1_9dc6
    ∷ 0x240c_a1cc ∷ 0x2de9_2c6f ∷ 0x4a74_84aa ∷ 0x5cb0_a9dc ∷ 0x76f9_88da ∷ 0x983e_5152
    ∷ 0xa831_c66d ∷ 0xb003_27c8 ∷ 0xbf59_7fc7 ∷ 0xc6e0_0bf3 ∷ 0xd5a7_9147 ∷ 0x06ca_6351
    ∷ 0x1429_2967 ∷ 0x27b7_0a85 ∷ 0x2e1b_2138 ∷ 0x4d2c_6dfc ∷ 0x5338_0d13 ∷ 0x650a_7354
    ∷ 0x766a_0abb ∷ 0x81c2_c92e ∷ 0x9272_2c85 ∷ 0xa2bf_e8a1 ∷ 0xa81a_664b ∷ 0xc24b_8b70
    ∷ 0xc76c_51a3 ∷ 0xd192_e819 ∷ 0xd699_0624 ∷ 0xf40e_3585 ∷ 0x106a_a070 ∷ 0x19a4_c116
    ∷ 0x1e37_6c08 ∷ 0x2748_774c ∷ 0x34b0_bcb5 ∷ 0x391c_0cb3 ∷ 0x4ed8_aa4a ∷ 0x5b9c_ca4f
    ∷ 0x682e_6ff3 ∷ 0x748f_82ee ∷ 0x78a5_636f ∷ 0x84c8_7814 ∷ 0x8cc7_0208 ∷ 0x90be_fffa
    ∷ 0xa450_6ceb ∷ 0xbef9_a3f7 ∷ 0xc671_78f2 ∷ []

-- `RR`
unfoldable pub rr : ℕ → ℕ → ℕ
rr x n = bit_or (x >>> n) (u32 (x <<< (32 - n)))

-- `~x` of 32 bits is `2 ^ 32 - 1 - x`.
unfoldable pub ch : ℕ → ℕ → ℕ → ℕ
ch x y z = bit_xor (bit_and x y) (bit_and (2 ^ 32 - 1 - x) z)

unfoldable pub maj : ℕ → ℕ → ℕ → ℕ
maj x y z = bit_xor (bit_xor (bit_and x y) (bit_and x z)) (bit_and y z)

unfoldable pub ep0 : ℕ → ℕ
unfolding rr
ep0 x = bit_xor (bit_xor (rr x 2) (rr x 13)) (rr x 22)

unfoldable pub ep1 : ℕ → ℕ
unfolding rr
ep1 x = bit_xor (bit_xor (rr x 6) (rr x 11)) (rr x 25)

unfoldable pub sg0 : ℕ → ℕ
unfolding rr
sg0 x = bit_xor (bit_xor (rr x 7) (rr x 18)) (x >>> 3)

unfoldable pub sg1 : ℕ → ℕ
unfolding rr
sg1 x = bit_xor (bit_xor (rr x 17) (rr x 19)) (x >>> 10)

unfoldable pub be32 : List ℕ → ℕ
be32 p =
    bit_or (bit_or (bit_or (get_or p 0 0 <<< 24) (get_or p 1 0 <<< 16)) (get_or p 2 0 <<< 8))
      (get_or p 3 0)

unfoldable pub be32_put : ℕ → List ℕ
be32_put v = u8 (v >>> 24) ∷ u8 (v >>> 16) ∷ u8 (v >>> 8) ∷ u8 v ∷ []

-- The first loop: the words of the block, the first one at `blk`.
unfoldable pub block_words : ℕ → List ℕ → List ℕ
unfolding be32
block_words zero blk = []
block_words (suc words) blk = be32 blk ∷ block_words words (drop 4 blk)

-- The second loop: the rounds left, and the words before `w[i]`.
unfoldable pub schedule : ℕ → ℕ → List ℕ → List ℕ
unfolding sg0 sg1
schedule zero i w = w
schedule (suc rounds) i w = schedule rounds (i + 1) (
    w
    ++ (u32 (
          sg1 (get_or w (i - 2) 0)
          + get_or w (i - 7) 0
          + sg0 (get_or w (i - 15) 0)
          + get_or w (i - 16) 0)
        ∷ []))

-- The third loop: the rounds left, `i`, and the variables.
unfoldable pub rounds : ℕ → ℕ → List ℕ → ℕ → ℕ → ℕ → ℕ → ℕ → ℕ → ℕ → ℕ → List ℕ
unfolding ep0 ep1 ch maj
rounds zero i w a b cc d e f g h = a ∷ b ∷ cc ∷ d ∷ e ∷ f ∷ g ∷ h ∷ []
rounds (suc left) i w a b cc d e f g h =
    let t1 = u32 (h + ep1 e + ch e f g + get_or k_table i 0 + get_or w i 0) in
    let t2 = u32 (ep0 a + maj a b cc) in
    rounds left (i + 1) w (u32 (t1 + t2)) a b cc (u32 (d + t1)) e f g

-- `c->state[i] += ...`
unfoldable pub add_words : List ℕ → List ℕ → List ℕ
add_words [] ys = []
add_words (x ∷ xs) [] = x ∷ xs
add_words (x ∷ xs) (y ∷ ys) = u32 (x + y) ∷ add_words xs ys

unfoldable pub sha256_transform : List ℕ → List ℕ → List ℕ
unfolding block_words schedule rounds add_words
sha256_transform state blk =
    let w = schedule 48 16 (block_words 16 blk) in
    let s = λ (i : ℕ). get_or state i 0 in
    add_words state (rounds 64 0 w (s 0) (s 1) (s 2) (s 3) (s 4) (s 5) (s 6) (s 7))

abbrev pub initial : List ℕ
initial =
    0x6a09_e667 ∷ 0xbb67_ae85 ∷ 0x3c6e_f372 ∷ 0xa54f_f53a ∷ 0x510e_527f ∷ 0x9b05_688c ∷ 0x1f83_d9ab
    ∷ 0x5be0_cd19 ∷ []

-- The context on the stack holds bytes of no meaning in `buf`, which the call leaves.
unfoldable pub sha256_init : List ℕ → Sha256Ctx
sha256_init buf = record { state = initial; count = 0; buf = buf }

unfoldable pub sha256_blocks : List ℕ → List ℕ → ℕ → List ℕ
unfolding sha256_transform
sha256_blocks state p zero = state
sha256_blocks state p (suc blocks) =
    sha256_blocks (sha256_transform state (take 64 p)) (drop 64 p) blocks

-- `memcpy(buf + off, d, length d)`
unfoldable pub write : List ℕ → ℕ → List ℕ → List ℕ
write buf off d = take off buf ++ (d ++ drop (off + length d) buf)

-- The three steps of zupt_sha256_update; the first is for `off != 0`.
unfoldable pub top_up : Sha256Ctx → ℕ → List ℕ → Sha256Ctx
unfolding sha256_blocks write
top_up c off chunk =
    let buf = write c.buf off chunk in
    let count = u64 (c.count + length chunk) in
    let state = if count % 64 == 0 then sha256_blocks c.state buf 1 else c.state in
    record { state = state; count = count; buf = buf }

unfoldable pub bulk : Sha256Ctx → List ℕ → Sha256Ctx × List ℕ
unfolding sha256_blocks
bulk c d =
    let full = length d / 64 in
    if leb 64 (length d)
    then (
      record c { state = sha256_blocks c.state d full; count = u64 (c.count + full * 64) },
      drop (full * 64) d,
    )
    else (c, d)

unfoldable pub keep : Sha256Ctx → List ℕ → Sha256Ctx
unfolding write
keep c d =
    if ltb 0 (length d)
    then record c { count = u64 (c.count + length d); buf = write c.buf 0 d }
    else c

-- The steps behind the first.
unfoldable pub absorb : Sha256Ctx → List ℕ → Sha256Ctx
unfolding bulk keep
absorb c d = let blocked = bulk c d in keep blocked.0 blocked.1

unfoldable pub sha256_update : Sha256Ctx → List ℕ → Sha256Ctx
unfolding top_up absorb
sha256_update c d =
    let off = c.count % 64 in
    let chunk = min (64 - off) (length d) in
    if off == 0 then absorb c d else absorb (top_up c off (take chunk d)) (drop chunk d)

-- `while (c->count % 64 != 56)`, with the passes left.
unfoldable pub pad_zeros : ℕ → Sha256Ctx → Sha256Ctx
unfolding sha256_update
pad_zeros zero c = c
pad_zeros (suc fuel) c =
    let rest = pad_zeros fuel (sha256_update c (0 ∷ [])) in if c.count % 64 == 56 then c else rest

-- `for (i = 7; i >= 0; i--) { len[i] = (uint8_t)(bits & 0xFF); bits >>= 8; }`
unfoldable pub length_bytes : ℕ → ℕ → List ℕ → List ℕ
length_bytes zero bits len = len
length_bytes (suc i) bits len = length_bytes i (bits >>> 8) (u8 (bit_and bits 0xff) ∷ len)

-- The last loop of zupt_sha256_final.
unfoldable pub put_words : List ℕ → List ℕ
unfolding be32_put
put_words [] = []
put_words (v ∷ state) = be32_put v ++ put_words state

-- At most 63 zeros are missing from a whole number of blocks less 8 bytes.
unfoldable pub sha256_final : Sha256Ctx → List ℕ
unfolding pad_zeros length_bytes put_words
sha256_final c =
    let bits = u64 (c.count * 8) in
    let padded = pad_zeros 63 (sha256_update c (0x80 ∷ [])) in
    let done = sha256_update padded (length_bytes 8 bits []) in put_words done.state

unfoldable pub sha256 : List ℕ → List ℕ
unfolding sha256_init sha256_final
sha256 d = sha256_final (sha256_update (sha256_init (replicate 64 0)) d)
