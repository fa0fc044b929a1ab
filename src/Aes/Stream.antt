-- ===== src/Aes/Stream.antt =====
-- The counter mode of zupt-5.2.10/src/zupt_crypto.c: decryption, and the key stream of each block.
use zupt_web.Base.{
  ℕ, zero, suc, ◌+◌, ◌*◌, ◌≤◌, ◌<◌, ◌≡◌, refl, sym, ap, ◌∙◌, List, [], ◌∷◌, ◌++◌, length, take,
  drop, map, length-append, length-take, length-drop, take-append-drop, arith, bit_xor, drop_nil,
  drop-drop,
}
use zupt_web.Base.Bits.{bit_xor_cancel}
use zupt_web.Aes.{
  aes256_init, add_round_key, shift_rows, middle_rounds, aes256_encrypt_block, increment, xor_bytes,
  ctr_loop, aes256_ctr, sbox,
}

length-add_round_key :
    (rk : List ℕ) (r i : ℕ) (p : List ℕ) → length (add_round_key rk r i p) ≡ length p
unfolding add_round_key
length-add_round_key rk r i [] = refl
length-add_round_key rk r i (x ∷ p) = ap suc (length-add_round_key rk r (i + 1) p)

length-aes256_encrypt_block : (rk p : List ℕ) → length (aes256_encrypt_block rk p) ≡ 16
unfolding aes256_encrypt_block shift_rows
length-aes256_encrypt_block rk p =
    length-add_round_key rk 14 0
      (shift_rows (map sbox (middle_rounds 13 1 rk (add_round_key rk 0 0 p))))

length-xor_bytes : (p k : List ℕ) → length p ≤ length k → length (xor_bytes p k) ≡ length p
unfolding xor_bytes
length-xor_bytes [] k h = refl
length-xor_bytes (x ∷ p) [] h = absurd (omega arith)
length-xor_bytes (x ∷ p) (y ∷ k) h = ap suc (length-xor_bytes p k (omega arith))

xor_bytes_twice : (p k : List ℕ) → length p ≤ length k → xor_bytes (xor_bytes p k) k ≡ p
unfolding xor_bytes
xor_bytes_twice [] k h = refl
xor_bytes_twice (x ∷ p) [] h = absurd (omega arith)
xor_bytes_twice (x ∷ p) (y ∷ k) h =
    ap (λ l. bit_xor (bit_xor x y) y ∷ l) (xor_bytes_twice p k (omega arith))
    ∙ ap (λ t. t ∷ p) (bit_xor_cancel x y)

-- One pass, on any input that is not empty.
ctr_pass :
    (fuel : ℕ) (rk counter p : List ℕ)
    → 0 < length p
    → ctr_loop (suc fuel) rk counter p
      ≡ xor_bytes (take 16 p) (aes256_encrypt_block rk counter)
        ++ ctr_loop fuel rk (increment 8 15 counter) (drop 16 p)
unfolding ctr_loop
ctr_pass fuel rk counter [] h = absurd (omega arith)
ctr_pass fuel rk counter (x ∷ p) h = refl

length-ctr_loop :
    (fuel : ℕ) (rk counter p : List ℕ)
    → length p ≤ fuel
    → length (ctr_loop fuel rk counter p) ≡ length p
unfolding ctr_loop
length-ctr_loop zero rk counter [] h = refl
length-ctr_loop zero rk counter (x ∷ p) h = absurd (omega arith)
length-ctr_loop (suc fuel) rk counter [] h = refl
length-ctr_loop (suc fuel) rk counter (x ∷ p) h =
    let block = aes256_encrypt_block rk counter in
    let rest = drop 16 (x ∷ p) in
    let short : length (take 16 (x ∷ p)) ≤ length block =
      omega (arith, length-take 16 (x ∷ p), length-aes256_encrypt_block rk counter) in
    let left : length rest ≤ fuel = omega (arith, length-drop 16 (x ∷ p)) in
    omega (
      arith,
      length-append (xor_bytes (take 16 (x ∷ p)) block)
          (ctr_loop fuel rk (increment 8 15 counter) rest),
      length-xor_bytes (take 16 (x ∷ p)) block short,
      length-take 16 (x ∷ p),
      length-drop 16 (x ∷ p),
      length-ctr_loop fuel rk (increment 8 15 counter) rest left,
    )

chunk :
    (n : ℕ) (xs ys : List ℕ)
    → length xs ≤ n
    → (length xs < n → length ys ≡ 0)
    → (take n (xs ++ ys) ≡ xs) × (drop n (xs ++ ys) ≡ ys)
chunk zero [] ys h e = (refl, refl)
chunk zero (x ∷ xs) ys h e = absurd (omega arith)
chunk (suc n) [] [] h e = (refl, refl)
chunk (suc n) [] (y ∷ ys) h e = absurd (omega (arith, e (omega arith)))
chunk (suc n) (x ∷ xs) ys h e =
    let (t, d) = chunk n xs ys (omega arith) (λ l. e (omega arith)) in (ap (λ l. x ∷ l) t, d)

-- What a pass writes, and what the later ones write behind it.
pass_parts :
    (fuel : ℕ) (rk counter p : List ℕ)
    → length p ≤ suc fuel
    → let front = xor_bytes (take 16 p) (aes256_encrypt_block rk counter) in
      let back = ctr_loop fuel rk (increment 8 15 counter) (drop 16 p) in
      (take 16 (front ++ back) ≡ front) × (drop 16 (front ++ back) ≡ back)
pass_parts fuel rk counter p h =
    let block = aes256_encrypt_block rk counter in
    let next = increment 8 15 counter in
    let lt = length-take 16 p in
    let ld = length-drop 16 p in
    let lb = length-aes256_encrypt_block rk counter in
    let lf = length-xor_bytes (take 16 p) block (omega arith) in
    let lr = length-ctr_loop fuel rk next (drop 16 p) (omega arith) in
    chunk 16 (xor_bytes (take 16 p) block) (ctr_loop fuel rk next (drop 16 p)) (omega arith)
      (λ l. omega arith)

ctr_loop_twice :
    (fuel : ℕ) (rk counter p : List ℕ)
    → length p ≤ fuel
    → ctr_loop fuel rk counter (ctr_loop fuel rk counter p) ≡ p
unfolding ctr_loop
ctr_loop_twice zero rk counter [] h = refl
ctr_loop_twice zero rk counter (x ∷ p) h = absurd (omega arith)
ctr_loop_twice (suc fuel) rk counter [] h = refl
ctr_loop_twice (suc fuel) rk counter (x ∷ p) h =
    let block = aes256_encrypt_block rk counter in
    let next = increment 8 15 counter in
    let rest = drop 16 (x ∷ p) in
    let front = xor_bytes (take 16 (x ∷ p)) block in
    let back = ctr_loop fuel rk next rest in
    let lt = length-take 16 (x ∷ p) in
    let lb = length-aes256_encrypt_block rk counter in
    let short : length (take 16 (x ∷ p)) ≤ length block = omega arith in
    let left : length rest ≤ fuel = omega (arith, length-drop 16 (x ∷ p)) in
    let lf = length-xor_bytes (take 16 (x ∷ p)) block short in
    let some_bytes : 0 < length (front ++ back) = omega (arith, length-append front back) in
    let (t, d) = pass_parts fuel rk counter (x ∷ p) h in
    ctr_pass fuel rk counter (front ++ back) some_bytes
    ∙ ap (λ l. xor_bytes l block ++ ctr_loop fuel rk next (drop 16 (front ++ back))) t
    ∙ ap (λ l. xor_bytes front block ++ ctr_loop fuel rk next l) d
    ∙ ap (λ l. l ++ ctr_loop fuel rk next back) (xor_bytes_twice (take 16 (x ∷ p)) block short)
    ∙ ap (λ l. take 16 (x ∷ p) ++ l) (ctr_loop_twice fuel rk next rest left)
    ∙ take-append-drop 16 (x ∷ p)

-- zupt_aes256_ctr writes as many bytes as it is given.
pub length-aes256_ctr : (key nonce p : List ℕ) → length (aes256_ctr key nonce p) ≡ length p
unfolding aes256_ctr
length-aes256_ctr key nonce p = length-ctr_loop (length p) (aes256_init key) nonce p (omega arith)

-- zupt_aes256_ctr under the same key and nonce undoes itself.
pub aes256_ctr-aes256_ctr :
    (key nonce p : List ℕ) → aes256_ctr key nonce (aes256_ctr key nonce p) ≡ p
unfolding aes256_ctr
aes256_ctr-aes256_ctr key nonce p =
    let once = ctr_loop (length p) (aes256_init key) nonce p in
    ap (λ (n : ℕ). ctr_loop n (aes256_init key) nonce once)
      (length-ctr_loop (length p) (aes256_init key) nonce p (omega arith))
    ∙ ctr_loop_twice (length p) (aes256_init key) nonce p (omega arith)

-- The counter of each block, from the first.
abbrev pub counters : ℕ → List ℕ → List ℕ
counters zero nonce = nonce
counters (suc i) nonce = increment 8 15 (counters i nonce)

counters_shift :
    (i : ℕ) (c : List ℕ) → counters i (increment 8 15 c) ≡ increment 8 15 (counters i c)
counters_shift zero c = refl
counters_shift (suc i) c = ap (increment 8 15) (counters_shift i c)

step : (j : ℕ) (l : List ℕ) → take 16 (drop (16 * suc j) l) ≡ take 16 (drop (16 * j) (drop 16 l))
step j l =
    let next : 16 * suc j ≡ 16 + 16 * j = omega arith in
    ap (λ (n : ℕ). take 16 (drop n l)) next ∙ ap (λ m. take 16 m) (sym (drop-drop 16 (16 * j) l))

ctr_loop-block :
    (fuel i : ℕ) (rk c p : List ℕ)
    → length p ≤ fuel
    → take 16 (drop (16 * i) (ctr_loop fuel rk c p))
      ≡ xor_bytes (take 16 (drop (16 * i) p)) (aes256_encrypt_block rk (counters i c))
unfolding ctr_loop xor_bytes
ctr_loop-block zero i rk c [] h = rw (drop_nil {A = ℕ} (16 * i)) refl
ctr_loop-block zero i rk c (x ∷ p) h = absurd (omega arith)
ctr_loop-block (suc fuel) i rk c [] h = rw (drop_nil {A = ℕ} (16 * i)) refl
ctr_loop-block (suc fuel) zero rk c (x ∷ p) h = (pass_parts fuel rk c (x ∷ p) h).0
ctr_loop-block (suc fuel) (suc j) rk c (x ∷ p) h =
    let rest = drop 16 (x ∷ p) in
    let left : length rest ≤ fuel = omega (arith, length-drop 16 (x ∷ p)) in
    step j (ctr_loop (suc fuel) rk c (x ∷ p))
    ∙ ap (λ l. take 16 (drop (16 * j) l)) (pass_parts fuel rk c (x ∷ p) h).1
    ∙ ctr_loop-block fuel j rk (increment 8 15 c) rest left
    ∙ ap (λ l. xor_bytes (take 16 (drop (16 * j) rest)) (aes256_encrypt_block rk l))
        (counters_shift j c)
    ∙ ap (λ l. xor_bytes l (aes256_encrypt_block rk (counters (suc j) c))) (sym (step j (x ∷ p)))

-- Block `i` of the output is block `i` of the input under the key stream of the counter that is `i`
-- steps behind the nonce.
pub aes256_ctr-block :
    (key nonce p : List ℕ) (i : ℕ)
    → take 16 (drop (16 * i) (aes256_ctr key nonce p))
      ≡ xor_bytes
          (take 16 (drop (16 * i) p))
          (aes256_encrypt_block (aes256_init key) (counters i nonce))
unfolding aes256_ctr
aes256_ctr-block key nonce p i = ctr_loop-block (length p) i (aes256_init key) nonce p (omega arith)
