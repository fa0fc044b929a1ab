-- ===== src/Aes/Counter.antt =====
-- The counters of the blocks of zupt_aes256_ctr, zupt-5.2.10/src/zupt_crypto.c.
use zupt_web.Base.{
  ℕ, zero, suc, ◌+◌, ◌-◌, ◌*◌, ◌%◌, ◌^◌, ◌<◌, ◌==◌, ◌≡◌, ◌≢◌, refl, sym, ap, ◌∙◌, subst, if_rule,
  List, [], ◌∷◌, length, get_or, set, drop, length-set, arith, u8, All, IsByte,
}
use zupt_web.Aes.{increment}
use zupt_web.Aes.Stream.{counters}

-- The last 8 bytes of a counter, the highest first.
abbrev pub number : List ℕ → ℕ → ℕ
number [] acc = acc
number (b ∷ bs) acc = number bs (acc * 256 + b)

abbrev pub low_half : List ℕ → ℕ
low_half counter = number (drop 8 counter) 0

abbrev pub IsCounter : List ℕ → Type 0
IsCounter counter = (length counter ≡ 16) × All IsByte counter

-- A list of known length by its entries.
abbrev spread : ℕ → List ℕ → List ℕ
spread zero c = []
spread (suc n) c = get_or c 0 0 ∷ spread n (drop 1 c)

spread_same : (n : ℕ) (c : List ℕ) → length c ≡ n → spread n c ≡ c
spread_same zero [] h = refl
spread_same zero (x ∷ c) h = absurd (omega arith)
spread_same (suc n) [] h = absurd (omega arith)
spread_same (suc n) (x ∷ c) h = ap (λ l. x ∷ l) (spread_same n c (omega arith))

length-increment : (left i : ℕ) (c : List ℕ) → length (increment left i c) ≡ length c
unfolding increment
length-increment zero i c = refl
length-increment (suc left) i c =
    let v = u8 (get_or c i 0 + 1) in
    if_rule (λ (l : List ℕ). length l ≡ length c) (v == 0)
      (λ t. length-increment left (i - 1) (set c i v) ∙ length-set c i v) (λ f. length-set c i v)

set-IsByte : (c : List ℕ) (i v : ℕ) → All IsByte c → IsByte v → All IsByte (set c i v)
set-IsByte [] i v h p = tt
set-IsByte (x ∷ c) zero v h p = (p, h.1)
set-IsByte (x ∷ c) (suc i) v h p = (h.0, set-IsByte c i v h.1 p)

increment-IsByte : (left i : ℕ) (c : List ℕ) → All IsByte c → All IsByte (increment left i c)
unfolding increment
increment-IsByte zero i c h = h
increment-IsByte (suc left) i c h =
    let v = u8 (get_or c i 0 + 1) in
    let p = set-IsByte c i v h (omega arith) in
    if_rule (λ (l : List ℕ). All IsByte l) (v == 0)
      (λ t. increment-IsByte left (i - 1) (set c i v) p) (λ f. p)

low_half_bytes :
    (a0 a1 a2 a3 a4 a5 a6 a7 b0 b1 b2 b3 b4 b5 b6 b7 : ℕ)
    → let counter =
        a0 ∷ a1 ∷ a2 ∷ a3 ∷ a4 ∷ a5 ∷ a6 ∷ a7 ∷ b0 ∷ b1 ∷ b2 ∷ b3 ∷ b4 ∷ b5 ∷ b6 ∷ b7 ∷ [] in
      All IsByte counter → low_half (increment 8 15 counter) ≡ (low_half counter + 1) % 2 ^ 64
unfolding increment
low_half_bytes a0 a1 a2 a3 a4 a5 a6 a7 b0 b1 b2 b3 b4 b5 b6 b7 h = ground arith

low_half-increment :
    (c : List ℕ) → IsCounter c → low_half (increment 8 15 c) ≡ (low_half c + 1) % 2 ^ 64
low_half-increment c (l, b) =
    let same = spread_same 16 c l in
    subst (λ c. low_half (increment 8 15 c) ≡ (low_half c + 1) % 2 ^ 64) same
      (low_half_bytes _ _ _ _ _ _ _ _ _ _ _ _ _ _ _ _ (subst (λ c. All IsByte c) (sym same) b))

counters-IsCounter : (i : ℕ) (nonce : List ℕ) → IsCounter nonce → IsCounter (counters i nonce)
counters-IsCounter zero nonce h = h
counters-IsCounter (suc i) nonce h =
    let (l, b) = counters-IsCounter i nonce h in
    (length-increment 8 15 (counters i nonce) ∙ l, increment-IsByte 8 15 (counters i nonce) b)

low_half-lt : (c : List ℕ) → IsCounter c → low_half c < 2 ^ 64
low_half-lt c (l, b) =
    let same = spread_same 16 c l in
    subst (λ c. low_half c < 2 ^ 64) same
      (bytes (spread 16 c) (subst (λ c. All IsByte c) (sym same) b))
  where
    bytes : (c : List ℕ) → All IsByte (spread 16 c) → low_half (spread 16 c) < 2 ^ 64
    bytes c h = omega arith

low_half-counters :
    (i : ℕ) (nonce : List ℕ)
    → IsCounter nonce
    → low_half (counters i nonce) ≡ (low_half nonce + i) % 2 ^ 64
low_half-counters zero nonce h = omega (arith, low_half-lt nonce h)
low_half-counters (suc i) nonce h = omega (
  arith,
  low_half-increment (counters i nonce) (counters-IsCounter i nonce h),
  low_half-counters i nonce h,
)

-- From a nonce of 16 bytes, no two of the first 2^64 blocks are encrypted under the same counter.
pub counters_distinct :
    (nonce : List ℕ) (i j : ℕ)
    → length nonce ≡ 16
    → All IsByte nonce
    → i < j
    → j < 2 ^ 64
    → counters i nonce ≢ counters j nonce
counters_distinct nonce i j l b lt bound e = absurd (
    omega
      (arith, ap low_half e, low_half-counters i nonce (l, b), low_half-counters j nonce (l, b)))
