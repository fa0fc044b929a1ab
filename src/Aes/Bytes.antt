-- ===== src/Aes/Bytes.antt =====
-- The output of AES-256 and of its counter mode is bytes.
use zupt_web.Base.{
  ℕ, zero, suc, ◌+◌, ◌-◌, ◌*◌, ◌/◌, ◌%◌, List, [], ◌∷◌, length, get_or, take, drop, map, All,
  All-append, All-take, All-drop, IsByte, arith, u8, ◌>>>◌,
}
use zupt_web.Base.Bits.{bit_xor-lt}
use zupt_web.Aes.{
  sbox_table, sbox, add_round_key, shift_rows, middle_rounds, aes256_encrypt_block, aes256_init,
  increment, xor_bytes, ctr_loop, aes256_ctr,
}

get_or-IsByte : (xs : List ℕ) (i : ℕ) → All IsByte xs → IsByte (get_or xs i 0)
get_or-IsByte [] i h = omega arith
get_or-IsByte (x ∷ xs) zero h = h.0
get_or-IsByte (x ∷ xs) (suc i) h = get_or-IsByte xs i h.1

sbox-IsByte : (i : ℕ) → IsByte (sbox i)
unfolding sbox
sbox-IsByte i = get_or-IsByte sbox_table i (omega arith)

map-sbox-IsByte : (s : List ℕ) → All IsByte (map sbox s)
map-sbox-IsByte [] = tt
map-sbox-IsByte (x ∷ s) = (sbox-IsByte x, map-sbox-IsByte s)

add_round_key-IsByte :
    (rk : List ℕ) (r i : ℕ) (p : List ℕ) → All IsByte p → All IsByte (add_round_key rk r i p)
unfolding add_round_key
add_round_key-IsByte rk r i [] h = tt
add_round_key-IsByte rk r i (x ∷ p) h = (
  bit_xor-lt 8 x (u8 (get_or rk (r * 4 + i / 4) 0 >>> ((3 - i % 4) * 8))) h.0 (omega arith),
  add_round_key-IsByte rk r (i + 1) p h.1,
)

shift_rows-IsByte : (t : List ℕ) → All IsByte t → All IsByte (shift_rows t)
unfolding shift_rows
shift_rows-IsByte t h =
    let at = λ (i : ℕ). get_or-IsByte t i h in
    omega (
      arith,
      at 0,
      at 5,
      at 10,
      at 15,
      at 4,
      at 9,
      at 14,
      at 3,
      at 8,
      at 13,
      at 2,
      at 7,
      at 12,
      at 1,
      at 6,
      at 11,
    )

encrypt_block-IsByte : (rk p : List ℕ) → All IsByte (aes256_encrypt_block rk p)
unfolding aes256_encrypt_block
encrypt_block-IsByte rk p =
    let s = middle_rounds 13 1 rk (add_round_key rk 0 0 p) in
    add_round_key-IsByte rk 14 0 (shift_rows (map sbox s))
      (shift_rows-IsByte (map sbox s) (map-sbox-IsByte s))

xor_bytes-IsByte : (p k : List ℕ) → All IsByte p → All IsByte k → All IsByte (xor_bytes p k)
unfolding xor_bytes
xor_bytes-IsByte [] k hp hk = tt
xor_bytes-IsByte (x ∷ p) [] hp hk = tt
xor_bytes-IsByte (x ∷ p) (y ∷ k) hp hk =
    (bit_xor-lt 8 x y hp.0 hk.0, xor_bytes-IsByte p k hp.1 hk.1)

ctr_loop-IsByte :
    (fuel : ℕ) (rk counter p : List ℕ) → All IsByte p → All IsByte (ctr_loop fuel rk counter p)
unfolding ctr_loop
ctr_loop-IsByte zero rk counter p h = tt
ctr_loop-IsByte (suc fuel) rk counter [] h = tt
ctr_loop-IsByte (suc fuel) rk counter (x ∷ p) h =
    All-append IsByte (xor_bytes (take 16 (x ∷ p)) (aes256_encrypt_block rk counter))
      (ctr_loop fuel rk (increment 8 15 counter) (drop 16 (x ∷ p)))
      (xor_bytes-IsByte (take 16 (x ∷ p)) (aes256_encrypt_block rk counter)
        (All-take IsByte 16 (x ∷ p) h) (encrypt_block-IsByte rk counter))
      (ctr_loop-IsByte fuel rk (increment 8 15 counter) (drop 16 (x ∷ p))
        (All-drop IsByte 16 (x ∷ p) h))

-- Bytes are encrypted to bytes.
pub aes256_ctr-IsByte : (key nonce p : List ℕ) → All IsByte p → All IsByte (aes256_ctr key nonce p)
unfolding aes256_ctr
aes256_ctr-IsByte key nonce p h = ctr_loop-IsByte (length p) (aes256_init key) nonce p h
