-- ===== src/Aes.antt =====
-- The block cipher AES-256, zupt-5.2.10/src/zupt_aes256.c, and its counter mode, zupt_aes256_ctr of
-- zupt-5.2.10/src/zupt_crypto.c with the cipher in C: the assembly behind ZUPT_USE_JASMIN is not taken.
pub mod Stream
pub mod Bytes
pub mod Counter
mod Tests
use zupt_web.Base.{
  ℕ, zero, suc, ◌+◌, ◌-◌, ◌*◌, ◌/◌, ◌%◌, ◌^◌, ◌==◌, if◌then◌else◌, List, [], ◌∷◌, ◌++◌, length,
  get_or, set, take, drop, map, bit_and, bit_or, bit_xor, u8, u32, ◌<<<◌, ◌>>>◌,
}

abbrev pub sbox_table : List ℕ
sbox_table =
    0x63 ∷ 0x7c ∷ 0x77 ∷ 0x7b ∷ 0xf2 ∷ 0x6b ∷ 0x6f ∷ 0xc5 ∷ 0x30 ∷ 0x01 ∷ 0x67 ∷ 0x2b ∷ 0xfe ∷ 0xd7
    ∷ 0xab ∷ 0x76 ∷ 0xca ∷ 0x82 ∷ 0xc9 ∷ 0x7d ∷ 0xfa ∷ 0x59 ∷ 0x47 ∷ 0xf0 ∷ 0xad ∷ 0xd4 ∷ 0xa2
    ∷ 0xaf ∷ 0x9c ∷ 0xa4 ∷ 0x72 ∷ 0xc0 ∷ 0xb7 ∷ 0xfd ∷ 0x93 ∷ 0x26 ∷ 0x36 ∷ 0x3f ∷ 0xf7 ∷ 0xcc
    ∷ 0x34 ∷ 0xa5 ∷ 0xe5 ∷ 0xf1 ∷ 0x71 ∷ 0xd8 ∷ 0x31 ∷ 0x15 ∷ 0x04 ∷ 0xc7 ∷ 0x23 ∷ 0xc3 ∷ 0x18
    ∷ 0x96 ∷ 0x05 ∷ 0x9a ∷ 0x07 ∷ 0x12 ∷ 0x80 ∷ 0xe2 ∷ 0xeb ∷ 0x27 ∷ 0xb2 ∷ 0x75 ∷ 0x09 ∷ 0x83
    ∷ 0x2c ∷ 0x1a ∷ 0x1b ∷ 0x6e ∷ 0x5a ∷ 0xa0 ∷ 0x52 ∷ 0x3b ∷ 0xd6 ∷ 0xb3 ∷ 0x29 ∷ 0xe3 ∷ 0x2f
    ∷ 0x84 ∷ 0x53 ∷ 0xd1 ∷ 0x00 ∷ 0xed ∷ 0x20 ∷ 0xfc ∷ 0xb1 ∷ 0x5b ∷ 0x6a ∷ 0xcb ∷ 0xbe ∷ 0x39
    ∷ 0x4a ∷ 0x4c ∷ 0x58 ∷ 0xcf ∷ 0xd0 ∷ 0xef ∷ 0xaa ∷ 0xfb ∷ 0x43 ∷ 0x4d ∷ 0x33 ∷ 0x85 ∷ 0x45
    ∷ 0xf9 ∷ 0x02 ∷ 0x7f ∷ 0x50 ∷ 0x3c ∷ 0x9f ∷ 0xa8 ∷ 0x51 ∷ 0xa3 ∷ 0x40 ∷ 0x8f ∷ 0x92 ∷ 0x9d
    ∷ 0x38 ∷ 0xf5 ∷ 0xbc ∷ 0xb6 ∷ 0xda ∷ 0x21 ∷ 0x10 ∷ 0xff ∷ 0xf3 ∷ 0xd2 ∷ 0xcd ∷ 0x0c ∷ 0x13
    ∷ 0xec ∷ 0x5f ∷ 0x97 ∷ 0x44 ∷ 0x17 ∷ 0xc4 ∷ 0xa7 ∷ 0x7e ∷ 0x3d ∷ 0x64 ∷ 0x5d ∷ 0x19 ∷ 0x73
    ∷ 0x60 ∷ 0x81 ∷ 0x4f ∷ 0xdc ∷ 0x22 ∷ 0x2a ∷ 0x90 ∷ 0x88 ∷ 0x46 ∷ 0xee ∷ 0xb8 ∷ 0x14 ∷ 0xde
    ∷ 0x5e ∷ 0x0b ∷ 0xdb ∷ 0xe0 ∷ 0x32 ∷ 0x3a ∷ 0x0a ∷ 0x49 ∷ 0x06 ∷ 0x24 ∷ 0x5c ∷ 0xc2 ∷ 0xd3
    ∷ 0xac ∷ 0x62 ∷ 0x91 ∷ 0x95 ∷ 0xe4 ∷ 0x79 ∷ 0xe7 ∷ 0xc8 ∷ 0x37 ∷ 0x6d ∷ 0x8d ∷ 0xd5 ∷ 0x4e
    ∷ 0xa9 ∷ 0x6c ∷ 0x56 ∷ 0xf4 ∷ 0xea ∷ 0x65 ∷ 0x7a ∷ 0xae ∷ 0x08 ∷ 0xba ∷ 0x78 ∷ 0x25 ∷ 0x2e
    ∷ 0x1c ∷ 0xa6 ∷ 0xb4 ∷ 0xc6 ∷ 0xe8 ∷ 0xdd ∷ 0x74 ∷ 0x1f ∷ 0x4b ∷ 0xbd ∷ 0x8b ∷ 0x8a ∷ 0x70
    ∷ 0x3e ∷ 0xb5 ∷ 0x66 ∷ 0x48 ∷ 0x03 ∷ 0xf6 ∷ 0x0e ∷ 0x61 ∷ 0x35 ∷ 0x57 ∷ 0xb9 ∷ 0x86 ∷ 0xc1
    ∷ 0x1d ∷ 0x9e ∷ 0xe1 ∷ 0xf8 ∷ 0x98 ∷ 0x11 ∷ 0x69 ∷ 0xd9 ∷ 0x8e ∷ 0x94 ∷ 0x9b ∷ 0x1e ∷ 0x87
    ∷ 0xe9 ∷ 0xce ∷ 0x55 ∷ 0x28 ∷ 0xdf ∷ 0x8c ∷ 0xa1 ∷ 0x89 ∷ 0x0d ∷ 0xbf ∷ 0xe6 ∷ 0x42 ∷ 0x68
    ∷ 0x41 ∷ 0x99 ∷ 0x2d ∷ 0x0f ∷ 0xb0 ∷ 0x54 ∷ 0xbb ∷ 0x16 ∷ []

abbrev pub rcon_table : List ℕ
rcon_table = 0x00 ∷ 0x01 ∷ 0x02 ∷ 0x04 ∷ 0x08 ∷ 0x10 ∷ 0x20 ∷ 0x40 ∷ 0x80 ∷ 0x1b ∷ 0x36 ∷ []

unfoldable pub sbox : ℕ → ℕ
sbox i = get_or sbox_table i 0

unfoldable pub xtime : ℕ → ℕ
xtime x = u8 (bit_xor (x <<< 1) (bit_and (x >>> 7) 1 * 0x1b))

-- The rounds left of the loop of gmul, with `r`.
unfoldable pub gmul_loop : ℕ → ℕ → ℕ → ℕ → ℕ
unfolding xtime
gmul_loop zero a b r = r
gmul_loop (suc rounds) a b r =
    gmul_loop rounds (xtime a) (b >>> 1) (if bit_and b 1 == 0 then r else bit_xor r a)

unfoldable pub gmul : ℕ → ℕ → ℕ
unfolding gmul_loop
gmul a b = gmul_loop 8 a b 0

-- The words of the key, the first one at `key`.
unfoldable pub key_words : ℕ → List ℕ → List ℕ
key_words zero key = []
key_words (suc words) key =
    bit_or (bit_or (bit_or (get_or key 0 0 <<< 24) (get_or key 1 0 <<< 16)) (get_or key 2 0 <<< 8))
      (get_or key 3 0)
    ∷ key_words words (drop 4 key)

-- Four bytes through the S-box, from the highest.
unfoldable pub sub_bytes : ℕ → ℕ → ℕ → ℕ → ℕ
unfolding sbox
sub_bytes a b c d = bit_or (bit_or (bit_or (sbox a <<< 24) (sbox b <<< 16)) (sbox c <<< 8)) (sbox d)

-- What `t` becomes for word `i`.
unfoldable pub mixed_word : ℕ → ℕ → ℕ
unfolding sub_bytes
mixed_word i t =
    let rotated =
      sub_bytes (bit_and (t >>> 16) 0xff) (bit_and (t >>> 8) 0xff) (bit_and t 0xff) (t >>> 24) in
    let straight =
      sub_bytes (t >>> 24) (bit_and (t >>> 16) 0xff) (bit_and (t >>> 8) 0xff) (bit_and t 0xff) in
    if i % 8 == 0
    then bit_xor rotated (get_or rcon_table (i / 8) 0 <<< 24)
    else if i % 8 == 4
    then straight
    else t

-- The rounds left, `i`, and the words before `rk[i]`.
unfoldable pub expand : ℕ → ℕ → List ℕ → List ℕ
unfolding mixed_word
expand zero i rk = rk
expand (suc rounds) i rk =
    expand rounds (i + 1)
      (rk ++ (bit_xor (get_or rk (i - 8) 0) (mixed_word i (get_or rk (i - 1) 0)) ∷ []))

unfoldable pub aes256_init : List ℕ → List ℕ
unfolding key_words expand
aes256_init key = expand 52 8 (key_words 8 key)

-- `for (i = 0; i < 16; i++) s[i] = p[i] ^ (uint8_t)(rk[r*4 + i/4] >> ((3 - i%4) * 8))`, from index `i`.
unfoldable pub add_round_key : List ℕ → ℕ → ℕ → List ℕ → List ℕ
add_round_key rk r i [] = []
add_round_key rk r i (x ∷ p) =
    bit_xor x (u8 (get_or rk (r * 4 + i / 4) 0 >>> ((3 - i % 4) * 8)))
    ∷ add_round_key rk r (i + 1) p

unfoldable pub shift_rows : List ℕ → List ℕ
shift_rows t =
    let at = λ (i : ℕ). get_or t i 0 in
    at 0
    ∷ at 5
    ∷ at 10
    ∷ at 15
    ∷ at 4
    ∷ at 9
    ∷ at 14
    ∷ at 3
    ∷ at 8
    ∷ at 13
    ∷ at 2
    ∷ at 7
    ∷ at 12
    ∷ at 1
    ∷ at 6
    ∷ at 11
    ∷ []

-- One column of MixColumns.
unfoldable pub mix_column : ℕ → ℕ → ℕ → ℕ → List ℕ
unfolding gmul
mix_column a0 a1 a2 a3 =
    bit_xor (bit_xor (bit_xor (gmul a0 2) (gmul a1 3)) a2) a3
    ∷ bit_xor (bit_xor (bit_xor a0 (gmul a1 2)) (gmul a2 3)) a3
    ∷ bit_xor (bit_xor (bit_xor a0 a1) (gmul a2 2)) (gmul a3 3)
    ∷ bit_xor (bit_xor (bit_xor (gmul a0 3) a1) a2) (gmul a3 2)
    ∷ []

-- `for (col = 0; col < 4; col++)`: the columns left, the first one at `u`.
unfoldable pub mix_columns : ℕ → List ℕ → List ℕ
unfolding mix_column
mix_columns zero u = []
mix_columns (suc cols) u =
    mix_column (get_or u 0 0) (get_or u 1 0) (get_or u 2 0) (get_or u 3 0)
    ++ mix_columns cols (drop 4 u)

-- `for (r = 1; r <= 13; r++)`: the rounds left, and `r`.
unfoldable pub middle_rounds : ℕ → ℕ → List ℕ → List ℕ → List ℕ
unfolding add_round_key shift_rows mix_columns
middle_rounds zero r rk s = s
middle_rounds (suc left) r rk s =
    middle_rounds left (r + 1) rk (add_round_key rk r 0 (mix_columns 4 (shift_rows (map sbox s))))

unfoldable pub aes256_encrypt_block : List ℕ → List ℕ → List ℕ
unfolding middle_rounds
aes256_encrypt_block rk p =
    let s = middle_rounds 13 1 rk (add_round_key rk 0 0 p) in
    add_round_key rk 14 0 (shift_rows (map sbox s))

-- `for (i = 15; i >= 8; i--) { if (++counter[i] != 0) break; }`: the bytes left, `i` the last of them.
unfoldable pub increment : ℕ → ℕ → List ℕ → List ℕ
increment zero i counter = counter
increment (suc left) i counter =
    let v = u8 (get_or counter i 0 + 1) in
    let rest = increment left (i - 1) (set counter i v) in if v == 0 then rest else set counter i v

-- `out[pos + i] = in[pos + i] ^ keystream[i]` for the bytes of a chunk.
unfoldable pub xor_bytes : List ℕ → List ℕ → List ℕ
xor_bytes [] keystream = []
xor_bytes (x ∷ p) [] = []
xor_bytes (x ∷ p) (k ∷ keystream) = bit_xor x k ∷ xor_bytes p keystream

-- `while (pos < len)`, the input from `pos` on and the passes left; a pass takes a byte or more.
unfoldable pub ctr_loop : ℕ → List ℕ → List ℕ → List ℕ → List ℕ
unfolding aes256_encrypt_block increment xor_bytes
ctr_loop zero rk counter p = []
ctr_loop (suc fuel) rk counter [] = []
ctr_loop (suc fuel) rk counter (x ∷ p) =
    xor_bytes (take 16 (x ∷ p)) (aes256_encrypt_block rk counter)
    ++ ctr_loop fuel rk (increment 8 15 counter) (drop 16 (x ∷ p))

unfoldable pub aes256_ctr : List ℕ → List ℕ → List ℕ → List ℕ
unfolding aes256_init ctr_loop
aes256_ctr key nonce p = ctr_loop (length p) (aes256_init key) nonce p
