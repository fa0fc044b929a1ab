-- ===== src/Predict/Best.antt =====
-- The table of zupt_predict_build against a count of the pairs of adjacent bytes.
use zupt_web.Base.{
  ℕ, zero, suc, ◌+◌, ◌≤◌, ◌<◌, min, ◌≡◌, refl, ◌⊎◌, inl, inr, ltb, ◌==◌, ◌&&◌, ◌∙◌, ap, true,
  if◌then◌else◌, List, [], ◌∷◌, get_or, u8, arith, if_rule, ltb→lt,
}
use native.Mathlib.Nat.{eq-or-lt_of_le}
use zupt_web.Predict.{
  Counts, bump, count_successors, best_loop, best_successor, build_loop, predict_build,
}

-- How often `b` follows `c` in a list that stands behind the byte `prev`.
unfoldable pub occurrences : ℕ → ℕ → ℕ → List ℕ → ℕ
occurrences c b prev [] = 0
occurrences c b prev (x ∷ xs) =
    if (c == prev) && (b == x) then occurrences c b x xs + 1 else occurrences c b x xs

count_successors-occurrences :
    (bytes : List ℕ) (prev : ℕ) (counts : Counts) (c b : ℕ)
    → counts c b ≤ 65535
    → count_successors bytes prev counts c b ≡ min 65535 (counts c b + occurrences c b prev bytes)
unfolding count_successors occurrences
count_successors-occurrences [] prev counts c b h = omega arith
count_successors-occurrences (x ∷ bytes) prev counts c b h =
    ground (arith, bump, count_successors-occurrences bytes x (bump counts prev x) c b)

-- What the loop has found after the bytes below `b`: a byte with the count `best_count`, the largest
-- of them, or no byte that follows at all.
record Best (row : ℕ → ℕ) (b best_count best_byte : ℕ) : Type 0 where
  byte : best_byte < 256
  count : row best_byte ≡ best_count ⊎ (best_byte ≡ 0) × (best_count ≡ 0)
  most : (i : ℕ) → i < b → row i ≤ best_count

best_loop-Best :
    (rounds : ℕ) (row : ℕ → ℕ) (b best_count best_byte : ℕ)
    → b + rounds ≡ 256
    → Best row b best_count best_byte
    → (best_loop rounds row b best_count best_byte < 256)
      × ((i : ℕ) → i < 256 → row i ≤ row (best_loop rounds row b best_count best_byte))
unfolding best_loop
best_loop-Best zero row b best_count best_byte e h = (
  h.byte,
  λ i hi. elim h.count [
    | inl c ↦ omega (arith, h.most i (omega arith), c)
    | inr (z, c) ↦ omega (arith, h.most i (omega arith), c)
  ],
)
best_loop-Best (suc rounds) row b best_count best_byte e h =
    if_rule (λ (r : ℕ). (r < 256) × ((i : ℕ) → i < 256 → row i ≤ row r)) (ltb best_count (row b))
      (λ more. best_loop-Best rounds row (b + 1) (row b) (u8 b) (omega arith) record {
        byte = omega arith;
        count = inl (ap row (omega arith));
        most = λ i hi.
            let le : i ≤ b = omega arith in
            elim (eq-or-lt_of_le le) [
              | inl q ↦ rw q (omega arith)
              | inr l ↦ omega (arith, h.most i l, ltb→lt best_count (row b) more)
            ];
      })
      (λ same. best_loop-Best rounds row (b + 1) best_count best_byte (omega arith) record {
        byte = h.byte;
        count = h.count;
        most = λ i hi.
            let le : i ≤ b = omega arith in
            elim (eq-or-lt_of_le le) [ inl q ↦ rw q (ground arith) | inr l ↦ h.most i l ];
      })

build_loop-get :
    (rounds : ℕ) (counts : Counts) (c i : ℕ)
    → i < rounds
    → get_or (build_loop rounds counts c) i 0 ≡ best_successor (counts (c + i))
unfolding build_loop
build_loop-get zero counts c i h = absurd (omega arith)
build_loop-get (suc rounds) counts c zero h =
    ap (λ (k : ℕ). best_successor (counts k)) (omega arith)
build_loop-get (suc rounds) counts c (suc i) h =
    build_loop-get rounds counts (c + 1) i (omega arith)
    ∙ ap (λ (k : ℕ). best_successor (counts k)) {x = c + 1 + i} {y = c + suc i} (omega arith)

found :
    (row : ℕ → ℕ)
    → (best_successor row < 256) × ((i : ℕ) → i < 256 → row i ≤ row (best_successor row))
unfolding best_successor
found row =
    best_loop-Best 256 row 0 0 0 (omega arith)
      record { byte = omega arith; count = inr (refl, refl); most = λ i h. absurd (omega arith) }

-- Where memory is given, entry `c` of the table of zupt_predict_build is a byte that follows `c` in the
-- data at least as often as any other byte does, as long as the counts stay below the limit of 65535
-- of a counter; the data stand behind a byte 0.
pub predict_build-occurrences :
    (bytes : List ℕ) (c b : ℕ)
    → c < 256
    → b < 256
    → let best = get_or (predict_build true bytes) c 0 in
      (best < 256) × (min 65535 (occurrences c b 0 bytes) ≤ min 65535 (occurrences c best 0 bytes))
unfolding predict_build
predict_build-occurrences bytes c b hc hb =
    let counts : Counts = count_successors bytes 0 (λ p n. 0) in
    let e : get_or (build_loop 256 counts 0) c 0 ≡ best_successor (counts c) =
      build_loop-get 256 counts 0 c hc ∙ ap (λ (k : ℕ). best_successor (counts k)) (omega arith) in
    let (small, most) = found (counts c) in
    let at : (n : ℕ) → counts c n ≡ min 65535 (0 + occurrences c n 0 bytes) =
      λ n. count_successors-occurrences bytes 0 (λ p n. 0) c n (omega arith) in
    rw e (small, omega (arith, most b hb, at b, at (best_successor (counts c))))
