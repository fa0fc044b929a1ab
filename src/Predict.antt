-- ===== src/Predict.antt =====
-- The byte prediction preprocessor, zupt-5.2.10/src/zupt_predict.c: zupt_predict_build,
-- zupt_predict_encode and zupt_predict_decode. zupt_predict_benefit computes with floats and is not
-- modelled. The failure of `calloc` in zupt_predict_build is the argument `allocated`.
pub mod Inverse
pub mod Best
mod Tests
use zupt_web.Base.{
  ℕ, zero, suc, ◌+◌, ltb, ◌==◌, ◌&&◌, not, Bool, if◌then◌else◌, List, [], ◌∷◌, get_or, replicate,
  bit_xor, u8,
}

-- `counts[prev * 256 + next]`, zero at first.
abbrev pub Counts : Type 0
Counts = ℕ → ℕ → ℕ

-- `if (row[data[i]] < 65535) row[data[i]]++`
unfoldable pub bump : Counts → ℕ → ℕ → Counts
bump counts prev b = λ p n.
    if (p == prev) && (n == b)
    then if ltb (counts p n) 65535 then counts p n + 1 else counts p n
    else counts p n

unfoldable pub count_successors : List ℕ → ℕ → Counts → Counts
unfolding bump
count_successors [] prev counts = counts
count_successors (b ∷ bytes) prev counts = count_successors bytes b (bump counts prev b)

-- `for (b = 0; b < 256; b++)`: the first argument is `256 - b`.
unfoldable pub best_loop : ℕ → (ℕ → ℕ) → ℕ → ℕ → ℕ → ℕ
best_loop zero row b best_count best_byte = best_byte
best_loop (suc rounds) row b best_count best_byte =
    let better = best_loop rounds row (b + 1) (row b) (u8 b) in
    let same = best_loop rounds row (b + 1) best_count best_byte in
    if ltb best_count (row b) then better else same

-- "For each context byte, find the most common successor."
unfoldable pub best_successor : (ℕ → ℕ) → ℕ
unfolding best_loop
best_successor row = best_loop 256 row 0 0 0

-- `for (c = 0; c < 256; c++)`: the first argument is `256 - c`.
unfoldable pub build_loop : ℕ → Counts → ℕ → List ℕ
build_loop zero counts c = []
build_loop (suc rounds) counts c = best_successor (counts c) ∷ build_loop rounds counts (c + 1)

unfoldable pub predict_build : Bool → List ℕ → List ℕ
predict_build allocated bytes =
    if not allocated
    then replicate 256 0
    else build_loop 256 (count_successors bytes 0 (λ p n. 0)) 0

-- `prediction[prev]` with a table of 256 bytes.
unfoldable pub encode_loop : List ℕ → ℕ → List ℕ → List ℕ
encode_loop prediction prev [] = []
encode_loop prediction prev (b ∷ input) =
    bit_xor b (get_or prediction prev 0) ∷ encode_loop prediction b input

unfoldable pub predict_encode : List ℕ → List ℕ → List ℕ
unfolding encode_loop
predict_encode input prediction = encode_loop prediction 0 input

unfoldable pub decode_loop : List ℕ → ℕ → List ℕ → List ℕ
decode_loop prediction prev [] = []
decode_loop prediction prev (b ∷ input) =
    let recovered = bit_xor b (get_or prediction prev 0) in
    recovered ∷ decode_loop prediction recovered input

unfoldable pub predict_decode : List ℕ → List ℕ → List ℕ
unfolding decode_loop
predict_decode input prediction = decode_loop prediction 0 input
