-- ===== src/Base/Bits.antt =====
-- The bit operations at variables. Each is a recursion on binary digits with fuel; here the fuel is
-- dropped, and a mask or a disjoint `|` becomes plain arithmetic, at every width.
use Prim.Native.Nat.{
  ℕ, zero, suc, ◌+◌, ◌-◌, ◌*◌, ◌/◌, ◌%◌, ◌^◌, ◌≤◌, ◌<◌, min, max, differ, digits, bitwise, bit_and,
  bit_or, bit_xor, bit_and-bitwise, bit_or-bitwise, bit_xor-bitwise,
}
use mathlib.Core.Path.{◌≡◌, refl, sym, ap, ◌∙◌}
use native.Mathlib.Nat.{pow-suc, one-le-pow, mod-lt, div-add-mod'}
use native.Mathlib.Omega.{arith}

module _ (z : ℕ → ℕ) (f : ℕ → ℕ → ℕ) where
  -- Any two sufficient counts of digits give one result.
  digits_enough : (n m a b : ℕ) → a ≤ n → a ≤ m → digits z f n a b ≡ digits z f m a b
  digits_enough zero zero a b p q = refl
  digits_enough zero (suc m) zero b p q = refl
  digits_enough (suc n) zero zero b p q = refl
  digits_enough (suc n) (suc m) zero b p q = refl
  digits_enough zero m (suc a) b p q = absurd (omega arith)
  digits_enough (suc n) zero (suc a) b p q = absurd (omega arith)
  digits_enough (suc n) (suc m) (suc a) b p q =
      ap (λ k. k * 2 + f (suc a % 2) (b % 2))
        (digits_enough n m (suc a / 2) (b / 2) (omega arith) (omega arith))

  bitwise_low :
      (a b : ℕ)
      → bitwise z f (suc a) b ≡ bitwise z f (suc a / 2) (b / 2) * 2 + f (suc a % 2) (b % 2)
  bitwise_low a b =
      ap (λ k. k * 2 + f (suc a % 2) (b % 2))
        (digits_enough a (suc a / 2) (suc a / 2) (b / 2) (omega arith) (omega arith))

pub bit_and_low : (a b : ℕ) → bit_and a b ≡ bit_and (a / 2) (b / 2) * 2 + min (a % 2) (b % 2)
bit_and_low zero b = omega (arith, bit_and-bitwise 0 b, bit_and-bitwise 0 (b / 2))
bit_and_low (suc a) b = omega (
  arith,
  bit_and-bitwise (suc a) b,
  bit_and-bitwise (suc a / 2) (b / 2),
  bitwise_low (λ y. 0) min a b,
)

pub bit_or_low : (a b : ℕ) → bit_or a b ≡ bit_or (a / 2) (b / 2) * 2 + max (a % 2) (b % 2)
bit_or_low zero b = omega (arith, bit_or-bitwise 0 b, bit_or-bitwise 0 (b / 2))
bit_or_low (suc a) b = omega (
  arith,
  bit_or-bitwise (suc a) b,
  bit_or-bitwise (suc a / 2) (b / 2),
  bitwise_low (λ y. y) max a b,
)

pub bit_xor_low : (a b : ℕ) → bit_xor a b ≡ bit_xor (a / 2) (b / 2) * 2 + differ (a % 2) (b % 2)
bit_xor_low zero b = omega (arith, bit_xor-bitwise 0 b, bit_xor-bitwise 0 (b / 2))
bit_xor_low (suc a) b = omega (
  arith,
  bit_xor-bitwise (suc a) b,
  bit_xor-bitwise (suc a / 2) (b / 2),
  bitwise_low (λ y. y) differ a b,
)

bit_or-zero_right : (n a : ℕ) → a ≤ n → bit_or a 0 ≡ a
bit_or-zero_right n zero h = refl
bit_or-zero_right zero (suc a) h = absurd (omega arith)
bit_or-zero_right (suc n) (suc a) h =
    omega (arith, bit_or_low (suc a) 0, bit_or-zero_right n (suc a / 2) (omega arith))

bit_and-zero_right : (n a : ℕ) → a ≤ n → bit_and a 0 ≡ 0
bit_and-zero_right n zero h = refl
bit_and-zero_right zero (suc a) h = absurd (omega arith)
bit_and-zero_right (suc n) (suc a) h =
    omega (arith, bit_and_low (suc a) 0, bit_and-zero_right n (suc a / 2) (omega arith))

pub mul-pow-suc : (q k : ℕ) → q * 2 ^ suc k ≡ 2 * (q * 2 ^ k)
mul-pow-suc q k = omega (arith, ap (λ (t : ℕ). q * t) (pow-suc 2 k))

-- `|` of a number below `2 ^ k` with a multiple of it is their sum, in either order.
pub bit_or_disjoint : (k a q : ℕ) → a < 2 ^ k → bit_or a (q * 2 ^ k) ≡ a + q * 2 ^ k
bit_or_disjoint zero zero q h = omega (arith, bit_or-bitwise 0 (q * 2 ^ 0))
bit_or_disjoint zero (suc a) q h = absurd (omega arith)
bit_or_disjoint (suc k) a q h =
    ground (
      arith,
      bit_or_low a (q * 2 ^ suc k),
      mul-pow-suc q k,
      pow-suc 2 k,
      bit_or_disjoint k (a / 2) q,
    )

pub bit_or_disjoint' : (k q r : ℕ) → r < 2 ^ k → bit_or (q * 2 ^ k) r ≡ q * 2 ^ k + r
bit_or_disjoint' zero q zero h =
    omega (arith, bit_or-zero_right (q * 2 ^ 0) (q * 2 ^ 0) (omega arith))
bit_or_disjoint' zero q (suc r) h = absurd (omega arith)
bit_or_disjoint' (suc k) q r h = ground (
  arith,
  bit_or_low (q * 2 ^ suc k) r,
  mul-pow-suc q k,
  pow-suc 2 k,
  bit_or_disjoint' k q (r / 2),
)

half_mask : (k : ℕ) → (2 ^ suc k - 1) / 2 ≡ 2 ^ k - 1
half_mask k = omega (arith, pow-suc 2 k, one-le-pow k 2 (omega arith))

bit_and_split : (k q r : ℕ) → r < 2 ^ k → bit_and (q * 2 ^ k + r) (2 ^ k - 1) ≡ r
bit_and_split zero q zero h = bit_and-zero_right (q * 2 ^ 0 + 0) (q * 2 ^ 0 + 0) (omega arith)
bit_and_split zero q (suc r) h = absurd (omega arith)
bit_and_split (suc k) q r h =
    let p : 1 ≤ 2 ^ k = one-le-pow k 2 (omega arith) in
    let e : (q * 2 ^ suc k + r) / 2 ≡ q * 2 ^ k + r / 2 = omega (arith, mul-pow-suc q k) in
    omega (
      arith,
      bit_and_low (q * 2 ^ suc k + r) (2 ^ suc k - 1),
      ap (λ (t : ℕ). bit_and t ((2 ^ suc k - 1) / 2)) e,
      ap (λ (t : ℕ). bit_and (q * 2 ^ k + r / 2) t) (half_mask k),
      mul-pow-suc q k,
      pow-suc 2 k,
      bit_and_split k q (r / 2) (omega (arith, pow-suc 2 k)),
    )

-- `& (2 ^ k - 1)` is the remainder.
pub bit_and_mask : (k a : ℕ) → bit_and a (2 ^ k - 1) ≡ a % 2 ^ k
bit_and_mask k a =
    let p : 1 ≤ 2 ^ k = one-le-pow k 2 (omega arith) in
    let e : a / 2 ^ k * 2 ^ k + a % 2 ^ k ≡ a = div-add-mod' a (2 ^ k) in
    ap (λ (t : ℕ). bit_and t (2 ^ k - 1)) (sym e)
    ∙ bit_and_split k (a / 2 ^ k) (a % 2 ^ k) (mod-lt a p)

differ_digit : (x y : ℕ) → x < 2 → y < 2 → (differ (differ x y) y ≡ x) × (differ x y < 2)
differ_digit zero zero p q = (refl, omega arith)
differ_digit zero (suc zero) p q = (refl, omega arith)
differ_digit (suc zero) zero p q = (refl, omega arith)
differ_digit (suc zero) (suc zero) p q = (refl, omega arith)
differ_digit (suc (suc x)) y p q = absurd (omega arith)
differ_digit zero (suc (suc y)) p q = absurd (omega arith)
differ_digit (suc zero) (suc (suc y)) p q = absurd (omega arith)

xor_halves :
    (a b : ℕ)
    → (bit_xor a b / 2 ≡ bit_xor (a / 2) (b / 2)) × (bit_xor a b % 2 ≡ differ (a % 2) (b % 2))
xor_halves a b =
    let d = (differ_digit (a % 2) (b % 2) (omega arith) (omega arith)).1 in
    (omega (arith, bit_xor_low a b, d), omega (arith, bit_xor_low a b, d))

bit_xor_cancel_fuel : (n a b : ℕ) → a ≤ n → b ≤ n → bit_xor (bit_xor a b) b ≡ a
bit_xor_cancel_fuel zero zero zero ha hb = refl
bit_xor_cancel_fuel zero zero (suc b) ha hb = absurd (omega arith)
bit_xor_cancel_fuel zero (suc a) b ha hb = absurd (omega arith)
bit_xor_cancel_fuel (suc n) a b ha hb =
    let h = xor_halves a b in
    omega (
      arith,
      bit_xor_low (bit_xor a b) b,
      ap (λ (t : ℕ). bit_xor t (b / 2)) h.0,
      ap (λ (t : ℕ). differ t (b % 2)) h.1,
      (differ_digit (a % 2) (b % 2) (omega arith) (omega arith)).0,
      bit_xor_cancel_fuel n (a / 2) (b / 2) (omega arith) (omega arith),
    )

-- `^ b` twice changes nothing.
pub bit_xor_cancel : (a b : ℕ) → bit_xor (bit_xor a b) b ≡ a
bit_xor_cancel a b = bit_xor_cancel_fuel (a + b) a b (omega arith) (omega arith)

-- `^` stays within the width of its operands.
pub bit_xor-lt : (k a b : ℕ) → a < 2 ^ k → b < 2 ^ k → bit_xor a b < 2 ^ k
bit_xor-lt zero a b ha hb =
    let e : a ≡ 0 = omega arith in let e' : b ≡ 0 = omega arith in rw (e, e') (omega arith)
bit_xor-lt (suc k) a b ha hb = omega (
  arith,
  bit_xor_low a b,
  (differ_digit (a % 2) (b % 2) (omega arith) (omega arith)).1,
  pow-suc 2 k,
  bit_xor-lt k (a / 2) (b / 2) (omega (arith, pow-suc 2 k)) (omega (arith, pow-suc 2 k)),
)

-- A disjunction is zero only where both its operands are.
bit_or_none_fuel : (n a b : ℕ) → a + b ≤ n → bit_or a b ≡ 0 → (a ≡ 0) × (b ≡ 0)
bit_or_none_fuel zero a b h e = omega arith
bit_or_none_fuel (suc n) zero b h e = (refl, omega (arith, bit_or-bitwise 0 b))
bit_or_none_fuel (suc n) (suc a) b h e =
    let low = bit_or_low (suc a) b in
    let halves = bit_or_none_fuel n (suc a / 2) (b / 2) (omega arith) (omega arith) in omega arith

pub bit_or_none : (a b : ℕ) → bit_or a b ≡ 0 → (a ≡ 0) × (b ≡ 0)
bit_or_none a b e = bit_or_none_fuel (a + b) a b (omega arith) e

pub bit_xor_none : (a b : ℕ) → bit_xor a b ≡ 0 → a ≡ b
bit_xor_none a b e = sym (bit_xor_cancel a b) ∙ ap (λ (t : ℕ). bit_xor t b) e ∙ bit_xor-bitwise 0 b

pub bit_xor_self : (a : ℕ) → bit_xor a a ≡ 0
bit_xor_self a = ap (λ (t : ℕ). bit_xor t a) (sym (bit_xor-bitwise 0 a)) ∙ bit_xor_cancel 0 a

pub bit_or-lt : (k a b : ℕ) → a < 2 ^ k → b < 2 ^ k → bit_or a b < 2 ^ k
bit_or-lt zero a b ha hb =
    let e : a ≡ 0 = omega arith in let e' : b ≡ 0 = omega arith in rw (e, e') (omega arith)
bit_or-lt (suc k) a b ha hb = omega (
  arith,
  bit_or_low a b,
  pow-suc 2 k,
  bit_or-lt k (a / 2) (b / 2) (omega (arith, pow-suc 2 k)) (omega (arith, pow-suc 2 k)),
)

bit_or-ge_fuel : (n a b : ℕ) → a + b ≤ n → b ≤ bit_or a b
bit_or-ge_fuel zero a b h = omega arith
bit_or-ge_fuel (suc n) zero b h = omega (arith, bit_or-bitwise 0 b)
bit_or-ge_fuel (suc n) (suc a) b h =
    omega (arith, bit_or_low (suc a) b, bit_or-ge_fuel n (suc a / 2) (b / 2) (omega arith))

pub bit_or-ge : (a b : ℕ) → b ≤ bit_or a b
bit_or-ge a b = bit_or-ge_fuel (a + b) a b (omega arith)
