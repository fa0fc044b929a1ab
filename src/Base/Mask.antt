-- ===== src/Base/Mask.antt =====
-- Masks on one byte as arithmetic; each is a table of at most 256 entries, checked by evaluation.
use Prim.Native.Nat.{ℕ, zero, suc, ◌+◌, ◌*◌, ◌/◌, ◌%◌, ◌<◌, bit_and, bit_or}
use mathlib.Core.Path.{◌≡◌, refl}
use mathlib.Core.Bool.{Bool, true, false}
use mathlib.Core.Logic.{ite}
use native.Mathlib.Decide.{ℕ_discrete}
use native.Mathlib.Omega.{arith}

module _ (f g : ℕ → ℕ) where
  pub agree_below : ℕ → Bool
  unfolding ℕ_discrete
  agree_below zero = true
  agree_below (suc n) = ite (ℕ_discrete (f n) (g n)) (agree_below n) false

  pub agree_below→eq : (n : ℕ) → agree_below n ≡ true → (i : ℕ) → i < n → f i ≡ g i
  unfolding agree_below
  agree_below→eq zero e i h = absurd (omega arith)
  agree_below→eq (suc n) e i h = ground (arith, agree_below→eq n (ground arith) i)

pub bit_or_high : (b : ℕ) → b < 128 → bit_or b 0x80 ≡ b + 128
unfolding agree_below
bit_or_high = agree_below→eq _ _ 128 refl

pub bit_and_low7 : (b : ℕ) → b < 256 → bit_and b 0x7f ≡ b % 128
unfolding agree_below
bit_and_low7 = agree_below→eq _ _ 256 refl

pub bit_and_high : (b : ℕ) → b < 256 → bit_and b 0x80 ≡ b / 128 * 128
unfolding agree_below
bit_and_high = agree_below→eq _ _ 256 refl

pub bit_and_not_one : (b : ℕ) → b < 256 → bit_and b 0xfe ≡ b / 2 * 2
unfolding agree_below
bit_and_not_one = agree_below→eq _ _ 256 refl

pub bit_and_top_two : (b : ℕ) → b < 256 → bit_and b 0xc0 ≡ b / 64 * 64
unfolding agree_below
bit_and_top_two = agree_below→eq _ _ 256 refl
