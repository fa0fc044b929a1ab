-- ===== src/Text/Safe.antt =====
-- What zupt_print_terminal_safe_text prints.
use zupt_web.Base.{
  ℕ, zero, suc, ◌/◌, ◌%◌, ◌≤◌, ◌<◌, ◌≡◌, ◌≢◌, inl, inr, sym, refl, List, [], ◌∷◌, ◌++◌, length,
  length-drop, get_or, take, drop, All, All-append, All-take, All-drop, IsByte, arith, ltb, ◌==◌,
  ◌&&◌, not, Bool, true, false, if_rule,
}
use native.Mathlib.Nat.{eq-or-lt_of_le}
use zupt_web.Base.Mask.{bit_and_top_two}
use zupt_web.Base.Outcome.{Outcome, done, fail, fault, hang, ◌>>=◌}
use zupt_web.Text.{
  within, continues, lead3, lead4, decode_utf8_scalar, is_display_control, hex_digit, escape,
  print_step, print_loop, print_terminal_safe_text,
}

-- A byte that is no control character of ASCII.
abbrev pub Shown : ℕ → Type 0
Shown b = (0x20 ≤ b) × (b ≢ 0x7f)

hex_digit-Shown : (n : ℕ) → n < 16 → Shown (hex_digit n)
unfolding hex_digit
hex_digit-Shown n h = ground arith

escape-Shown : (bs : List ℕ) → All IsByte bs → All Shown (escape bs)
unfolding escape
escape-Shown [] h = tt
escape-Shown (b ∷ bs) h =
    let hi = hex_digit-Shown (b / 16) (omega (arith, h.0)) in
    let lo = hex_digit-Shown (b % 16) (omega arith) in
    let rest = escape-Shown bs h.1 in (omega arith, (omega arith, (hi, (lo, rest))))

get_or-IsByte : (xs : List ℕ) (i : ℕ) → All IsByte xs → IsByte (get_or xs i 0)
get_or-IsByte [] i h = omega arith
get_or-IsByte (x ∷ xs) zero h = h.0
get_or-IsByte (x ∷ xs) (suc i) h = get_or-IsByte xs i h.1

continues-high : (b : ℕ) → b < 256 → continues b ≡ true → 128 ≤ b
continues-high b h e = ground (arith, bit_and_top_two b h)

lead3-high : (a b : ℕ) → b < 256 → lead3 a b ≡ true → (128 ≤ a) × (128 ≤ b)
unfolding lead3
lead3-high a b h e = ground (arith, bit_and_top_two b h)

lead4-high : (a b : ℕ) → b < 256 → lead4 a b ≡ true → (128 ≤ a) × (128 ≤ b)
unfolding lead4
lead4-high a b h e = ground (arith, bit_and_top_two b h)

lead2-high :
    (a b : ℕ) → b < 256 → (within 0xc2 0xdf a && continues b) ≡ true → (128 ≤ a) × (128 ≤ b)
lead2-high a b h e = ground (arith, bit_and_top_two b h)

-- A scalar is one byte, its own code, or bytes of which none is ASCII.
abbrev Scalar : List ℕ → ℕ × ℕ → Type 0
Scalar text r =
    (r.0 ≤ 4)
    × (r.0 ≡ 1 → r.1 ≡ get_or text 0 0)
    × (2 ≤ r.0 → (128 ≤ get_or text 0 0) × (128 ≤ get_or text 1 0))
    × (3 ≤ r.0 → 128 ≤ get_or text 2 0)
    × (4 ≤ r.0 → 128 ≤ get_or text 3 0)

invalid : (text : List ℕ) → Scalar text (0, 0)
invalid text = (
  omega arith,
  λ h. absurd (omega arith),
  λ h. absurd (omega arith),
  λ h. absurd (omega arith),
  λ h. absurd (omega arith),
)

not-not : (b : Bool) → not b ≡ false → b ≡ true
not-not true h = refl
not-not false h = absurd (cc)

decode_utf8_scalar-Scalar :
    (text : List ℕ) → All IsByte text → Scalar text (decode_utf8_scalar text)
unfolding decode_utf8_scalar
decode_utf8_scalar-Scalar text h =
    let a = get_or text 0 0 in
    let b = get_or text 1 0 in
    let c = get_or text 2 0 in
    let d = get_or text 3 0 in
    let hb = get_or-IsByte text 1 h in
    let P = Scalar text in
    if_rule P (ltb a 0x80)
      (λ e. (
        omega arith,
        λ k. refl,
        λ k. absurd (omega arith),
        λ k. absurd (omega arith),
        λ k. absurd (omega arith),
      ))
      λ e.
        if_rule P (b == 0) (λ z. invalid text)
          λ z.
            if_rule P (within 0xc2 0xdf a && continues b)
              (λ t. (
                omega arith,
                λ k. absurd (omega arith),
                λ k. lead2-high a b hb t,
                λ k. absurd (omega arith),
                λ k. absurd (omega arith),
              ))
              λ t.
                if_rule P (c == 0) (λ z. invalid text)
                  λ z.
                    if_rule P (not (continues c)) (λ n. invalid text)
                      λ n.
                        let hc = continues-high c (get_or-IsByte text 2 h) (not-not _ n) in
                        if_rule P (lead3 a b)
                          (λ t. (
                            omega arith,
                            λ k. absurd (omega arith),
                            λ k. lead3-high a b hb t,
                            λ k. hc,
                            λ k. absurd (omega arith),
                          ))
                          λ t.
                            if_rule P (d == 0) (λ z. invalid text)
                              λ z.
                                if_rule P (not (continues d)) (λ n. invalid text)
                                  λ n.
                                    let hd =
                                      continues-high d (get_or-IsByte text 3 h) (not-not _ n) in
                                    if_rule P (not (lead4 a b)) (λ n. invalid text)
                                      λ n. (
                                        omega arith,
                                        λ k. absurd (omega arith),
                                        λ k. lead4-high a b hb (not-not _ n),
                                        λ k. hc,
                                        λ k. hd,
                                      )

take-Shown :
    (n : ℕ) (xs : List ℕ) → ((i : ℕ) → i < n → Shown (get_or xs i 0)) → All Shown (take n xs)
take-Shown zero xs f = tt
take-Shown (suc n) [] f = tt
take-Shown (suc n) (x ∷ xs) f =
    (f 0 (omega arith), take-Shown n xs (λ i h. f (suc i) (omega arith)))

visible : (c : ℕ) → is_display_control c ≡ false → Shown c
unfolding is_display_control
visible c h = ground arith

take-Scalar :
    (text : List ℕ) (r : ℕ × ℕ)
    → Scalar text r
    → is_display_control r.1 ≡ false
    → All Shown (take r.0 text)
take-Scalar text r (small, one, two, three, four) k = take-Shown r.0 text byte
  where
    byte : (i : ℕ) → i < r.0 → Shown (get_or text i 0)
    byte zero h = elim (eq-or-lt_of_le h) [
      | inl e ↦ let q : r.1 ≡ get_or text 0 0 = one (sym e) in let v = visible r.1 k in rw (sym q) v
      | inr l ↦ let p = two l in omega arith
    ]
    byte (suc zero) h = let p = two h in omega arith
    byte (suc (suc zero)) h = let p = three h in omega arith
    byte (suc (suc (suc zero))) h = let p = four h in omega arith
    byte (suc (suc (suc (suc i)))) h = absurd (omega arith)

-- Every round shows bytes that are no controls, and moves on.
print_step-Shown :
    (b : ℕ) (text : List ℕ)
    → All IsByte (b ∷ text)
    → All Shown (print_step (b ∷ text)).0 × (1 ≤ (print_step (b ∷ text)).1)
unfolding print_step
print_step-Shown b text h =
    let r = decode_utf8_scalar (b ∷ text) in
    let P : List ℕ × ℕ → Type 0 = λ p. All Shown p.0 × (1 ≤ p.1) in
    if_rule P (r.0 == 0)
      (λ e. (escape-Shown (take 1 (b ∷ text)) (All-take IsByte 1 (b ∷ text) h), omega arith))
      λ e.
        let moved : 1 ≤ r.0 = ground arith in
        if_rule P (is_display_control r.1)
          (λ c. (escape-Shown (take r.0 (b ∷ text)) (All-take IsByte r.0 (b ∷ text) h), moved))
          λ c. (take-Scalar (b ∷ text) r (decode_utf8_scalar-Scalar (b ∷ text) h) c, moved)

-- The routine ends, with bytes that are no controls.
abbrev pub Safe : Outcome (List ℕ) → Type 0
Safe (done out) = All Shown out
Safe fail = ⊥
Safe fault = ⊥
Safe hang = ⊥

print_loop-Safe :
    (fuel : ℕ) (text : List ℕ) → All IsByte text → length text ≤ fuel → Safe (print_loop fuel text)
unfolding print_loop
print_loop-Safe fuel [] h l = tt
print_loop-Safe zero (b ∷ text) h l = absurd (omega arith)
print_loop-Safe (suc fuel) (b ∷ text) h l =
    let (shown, n) = print_step (b ∷ text) in
    let (good, moved) = print_step-Shown b text h in
    let shorter : length (drop n (b ∷ text)) ≤ fuel =
      omega (arith, length-drop n (b ∷ text), moved, l) in
    join (print_loop fuel (drop n (b ∷ text))) shown good
      (print_loop-Safe fuel (drop n (b ∷ text)) (All-drop IsByte n (b ∷ text) h) shorter)
  where
    join :
        (m : Outcome (List ℕ)) (shown : List ℕ)
        → All Shown shown
        → Safe m
        → Safe (m >>= λ rest. done (shown ++ rest))
    join (done rest) shown g s = All-append Shown shown rest g s
    join fail shown g s = s
    join fault shown g s = s
    join hang shown g s = s

-- On any text, zupt_print_terminal_safe_text ends, and no byte that it prints is an ASCII control
-- character: each is at least 0x20 and none is 0x7f.
pub print_terminal_safe_text-Safe :
    (text : List ℕ) → All IsByte text → Safe (print_terminal_safe_text text)
unfolding print_terminal_safe_text
print_terminal_safe_text-Safe text h = print_loop-Safe (length text) text h (omega arith)
