-- ===== src/Pbkdf2/Blocks.antt =====
-- PBKDF2 as RFC 8018 defines it, and the loops of zupt-5.2.10/src/zupt_crypto.c.
use zupt_web.Base.{
  ℕ, zero, suc, ◌+◌, ◌-◌, ◌/◌, ◌^◌, ◌≤◌, ◌<◌, min, ◌≡◌, refl, sym, ap, ◌∙◌, List, [], ◌∷◌, ◌++◌,
  length, take, take_all, arith, u8, u32,
}
use native.Mathlib.Nat.{add-zero, suc-sub-suc}
use zupt_web.Hmac.{hmac_sha256, xor_key}
use zupt_web.Hmac.Reference.{hmac_sha256-IsByte}
use zupt_web.Pbkdf2.{xor_chain, block_bytes, pbkdf2_loop, pbkdf2_sha256}

-- Four bytes of a number, the highest first.
abbrev pub int_be : ℕ → List ℕ
int_be i = u8 (i / 2 ^ 24) ∷ u8 (i / 2 ^ 16) ∷ u8 (i / 2 ^ 8) ∷ u8 i ∷ []

-- U_(j+1) of block `i`.
abbrev pub u_bytes : List ℕ → List ℕ → ℕ → ℕ → List ℕ
u_bytes pw salt i zero = hmac_sha256 pw (salt ++ int_be i)
u_bytes pw salt i (suc j) = hmac_sha256 pw (u_bytes pw salt i j)

-- U_1 ^ ... ^ U_(c+1)
abbrev pub f_bytes : List ℕ → List ℕ → ℕ → ℕ → List ℕ
f_bytes pw salt i zero = u_bytes pw salt i 0
f_bytes pw salt i (suc c) = xor_key (f_bytes pw salt i c) (u_bytes pw salt i (suc c))

-- T_i || ... || T_(i+n-1)
abbrev pub t_blocks : List ℕ → List ℕ → ℕ → ℕ → ℕ → List ℕ
t_blocks pw salt c i zero = []
t_blocks pw salt c i (suc n) = f_bytes pw salt i (c - 1) ++ t_blocks pw salt c (i + 1) n

xor_chain-f_bytes :
    (n c i : ℕ) (pw salt : List ℕ)
    → xor_chain n pw (u_bytes pw salt i c) (f_bytes pw salt i c) ≡ f_bytes pw salt i (c + n)
unfolding xor_chain
xor_chain-f_bytes zero c i pw salt = ap (λ (t : ℕ). f_bytes pw salt i t) (sym (add-zero c))
xor_chain-f_bytes (suc n) c i pw salt =
    xor_chain-f_bytes n (suc c) i pw salt ∙ ap (λ (t : ℕ). f_bytes pw salt i t) (omega arith)

block_bytes-f_bytes :
    (pw salt : List ℕ) (c i : ℕ)
    → length salt ≤ 252
    → block_bytes pw salt c i ≡ f_bytes pw salt i (c - 1)
unfolding block_bytes
block_bytes-f_bytes pw salt c i h =
    ap (λ l. xor_chain (c - 1) pw (hmac_sha256 pw (l ++ int_be i)) (hmac_sha256 pw (l ++ int_be i)))
      (take_all (min (length salt) 252) salt (omega arith))
    ∙ xor_chain-f_bytes (c - 1) 0 i pw salt
    ∙ ap (λ (t : ℕ). f_bytes pw salt i t) (omega arith)

length-xor_key : (t u : List ℕ) → length (xor_key t u) ≡ length t
unfolding xor_key
length-xor_key t [] = refl
length-xor_key [] (k ∷ u) = refl
length-xor_key (b ∷ t) (k ∷ u) = ap suc (length-xor_key t u)

length-f_bytes : (pw salt : List ℕ) (i c : ℕ) → length (f_bytes pw salt i c) ≡ 32
length-f_bytes pw salt i zero = (hmac_sha256-IsByte pw _).0
length-f_bytes pw salt i (suc c) =
    length-xor_key (f_bytes pw salt i c) _ ∙ length-f_bytes pw salt i c

take_parts :
    (n : ℕ) (xs ys : List ℕ)
    → take n (xs ++ ys) ≡ take (min n (length xs)) xs ++ take (n - min n (length xs)) ys
take_parts n [] ys =
    let none_left : min n 0 ≡ 0 = omega arith in
    rw none_left (ap (λ (t : ℕ). take t ys) (omega arith))
take_parts zero (x ∷ xs) ys =
    let none_left : min 0 (length (x ∷ xs)) ≡ 0 = omega arith in rw none_left refl
take_parts (suc n) (x ∷ xs) ys =
    let m : min (suc n) (length (x ∷ xs)) ≡ suc (min n (length xs)) = omega arith in
    rw (m, suc-sub-suc) (ap (λ l. x ∷ l) (take_parts n xs ys))

pbkdf2_loop-t_blocks :
    (fuel i left c : ℕ) (pw salt : List ℕ)
    → length salt ≤ 252
    → left ≤ fuel
    → i + left < 2 ^ 32
    → pbkdf2_loop fuel pw salt c i left ≡ take left (t_blocks pw salt c i ((left + 31) / 32))
unfolding pbkdf2_loop
pbkdf2_loop-t_blocks zero i zero c pw salt hs hf hb = refl
pbkdf2_loop-t_blocks zero i (suc left) c pw salt hs hf hb = absurd (omega arith)
pbkdf2_loop-t_blocks (suc fuel) i zero c pw salt hs hf hb = refl
pbkdf2_loop-t_blocks (suc fuel) i (suc left) c pw salt hs hf hb =
    let chunk = min (suc left) 32 in
    let t = f_bytes pw salt i (c - 1) in
    let l = length-f_bytes pw salt i (c - 1) in
    let rest = suc left - chunk in
    let more : (suc left + 31) / 32 ≡ suc ((rest + 31) / 32) = omega arith in
    let same : min (suc left) (length t) ≡ chunk = omega arith in
    let next : u32 (i + 1) ≡ i + 1 = omega arith in
    let later = t_blocks pw salt c (i + 1) ((rest + 31) / 32) in
    ap (λ b. take chunk b ++ pbkdf2_loop fuel pw salt c (u32 (i + 1)) rest)
      (block_bytes-f_bytes pw salt c i hs)
    ∙ ap (λ (n : ℕ). take chunk t ++ pbkdf2_loop fuel pw salt c n rest) next
    ∙ ap (λ b. take chunk t ++ b)
        (pbkdf2_loop-t_blocks fuel (i + 1) rest c pw salt hs (omega arith) (omega arith))
    ∙ ap (λ (n : ℕ). take n t ++ take (suc left - n) later) (sym same)
    ∙ sym (take_parts (suc left) t later)
    ∙ ap (λ (n : ℕ). take (suc left) (t_blocks pw salt c i n)) (sym more)

-- zupt_pbkdf2_sha256 returns the first `olen` bytes of T_1 || T_2 || ... of RFC 8018 for every count of
-- iterations, for a salt of at most 252 bytes and an output shorter than 2^32 - 1 bytes;
-- a count of 0, for which the RFC defines none, is taken as 1.
pub pbkdf2_sha256-t_blocks :
    (pw salt : List ℕ) (c olen : ℕ)
    → length salt ≤ 252
    → olen < 2 ^ 32 - 1
    → pbkdf2_sha256 pw salt c olen ≡ take olen (t_blocks pw salt c 1 ((olen + 31) / 32))
unfolding pbkdf2_sha256
pbkdf2_sha256-t_blocks pw salt c olen hs hb =
    pbkdf2_loop-t_blocks olen 1 olen c pw salt hs (omega arith) (omega arith)
