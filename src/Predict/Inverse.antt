-- ===== src/Predict/Inverse.antt =====
-- zupt_predict_decode undoes zupt_predict_encode, with any table.
use zupt_web.Base.{ℕ, zero, suc, ◌≡◌, refl, ap, List, [], ◌∷◌, get_or, length, All, IsByte, arith}
use zupt_web.Base.Bits.{bit_xor_cancel, bit_xor-lt}
use zupt_web.Predict.{encode_loop, predict_encode, decode_loop, predict_decode}

decode-encode_loop :
    (prediction : List ℕ) (prev : ℕ) (input : List ℕ)
    → decode_loop prediction prev (encode_loop prediction prev input) ≡ input
unfolding encode_loop decode_loop
decode-encode_loop prediction prev [] = refl
decode-encode_loop prediction prev (b ∷ input) =
    rw (bit_xor_cancel b (get_or prediction prev 0))
      (ap (λ l. b ∷ l) (decode-encode_loop prediction b input))

get_or-IsByte : (xs : List ℕ) (i : ℕ) → All IsByte xs → IsByte (get_or xs i 0)
get_or-IsByte [] i h = omega arith
get_or-IsByte (x ∷ xs) zero h = h.0
get_or-IsByte (x ∷ xs) (suc i) h = get_or-IsByte xs i h.1

encode_loop-Bytes :
    (prediction : List ℕ) (prev : ℕ) (input : List ℕ)
    → All IsByte prediction
    → All IsByte input
    → (length (encode_loop prediction prev input) ≡ length input)
      × All IsByte (encode_loop prediction prev input)
unfolding encode_loop
encode_loop-Bytes prediction prev [] hp hi = (refl, tt)
encode_loop-Bytes prediction prev (b ∷ input) hp hi =
    let rest = encode_loop-Bytes prediction b input hp hi.1 in
    (
      ap suc rest.0,
      (bit_xor-lt 8 b (get_or prediction prev 0) hi.0 (get_or-IsByte prediction prev hp), rest.1),
    )

-- With any table of bytes, zupt_predict_encode turns a buffer of bytes into a buffer of bytes of the
-- same length, from which zupt_predict_decode with that table recovers the buffer.
pub predict_decode-predict_encode :
    (input prediction : List ℕ)
    → All IsByte prediction
    → All IsByte input
    → (predict_decode (predict_encode input prediction) prediction ≡ input)
      × (length (predict_encode input prediction) ≡ length input)
      × All IsByte (predict_encode input prediction)
unfolding predict_encode predict_decode
predict_decode-predict_encode input prediction hp hi =
    let (len, bytes) = encode_loop-Bytes prediction 0 input hp hi in
    (decode-encode_loop prediction 0 input, len, bytes)
