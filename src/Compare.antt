-- ===== src/Compare.antt =====
-- The comparison of codes, zupt_ct_memeq of zupt-5.2.10/src/zupt_crypto.c.
use zupt_web.Base.{
  ℕ, ◌+◌, ◌-◌, ◌^◌, ◌<◌, ◌≡◌, refl, sym, ap, ◌∙◌, List, [], ◌∷◌, length, All, IsByte, arith, false,
  not, Bool-cases, inl, inr, bytes_eq, bytes_eq→eq, bytes_eq_refl, ◌==◌, bit_and, bit_or, bit_xor,
  u8, u32, ◌>>>◌,
}
use zupt_web.Base.Bits.{
  bit_or_none, bit_xor_none, bit_xor_self, bit_xor-lt, bit_or-lt, bit_and_mask,
}

-- `diff |= (uint8_t)(pa[i] ^ pb[i])` for the bytes of two buffers of one length.
unfoldable pub ct_diff : List ℕ → List ℕ → ℕ → ℕ
ct_diff [] pb diff = diff
ct_diff (a ∷ pa) [] diff = diff
ct_diff (a ∷ pa) (b ∷ pb) diff = ct_diff pa pb (bit_or diff (u8 (bit_xor a b)))

-- `diff - 1u` is an `unsigned` of 32 bits.
unfoldable pub ct_memeq : List ℕ → List ℕ → ℕ
unfolding ct_diff
ct_memeq pa pb = bit_and (u8 (u32 (ct_diff pa pb 0 + (2 ^ 32 - 1)) >>> 8)) 1

pub ct_diff-IsByte : (pa pb : List ℕ) (diff : ℕ) → IsByte diff → IsByte (ct_diff pa pb diff)
unfolding ct_diff
ct_diff-IsByte [] pb diff h = h
ct_diff-IsByte (a ∷ pa) [] diff h = h
ct_diff-IsByte (a ∷ pa) (b ∷ pb) diff h =
    ct_diff-IsByte pa pb _ (bit_or-lt 8 diff (u8 (bit_xor a b)) h (omega arith))

ct_diff_none :
    (pa pb : List ℕ) (diff : ℕ)
    → length pa ≡ length pb
    → All IsByte pa
    → All IsByte pb
    → ct_diff pa pb diff ≡ 0
    → (diff ≡ 0) × (pa ≡ pb)
unfolding ct_diff
ct_diff_none [] [] diff l ha hb e = (e, refl)
ct_diff_none [] (b ∷ pb) diff l ha hb e = absurd (omega arith)
ct_diff_none (a ∷ pa) [] diff l ha hb e = absurd (omega arith)
ct_diff_none (a ∷ pa) (b ∷ pb) diff l ha hb e =
    let (d, rest) = ct_diff_none pa pb (bit_or diff (u8 (bit_xor a b))) (omega arith) ha.1 hb.1 e in
    let (d0, x0) = bit_or_none diff (u8 (bit_xor a b)) d in
    let x : bit_xor a b ≡ 0 = omega (arith, x0, bit_xor-lt 8 a b ha.0 hb.0) in
    (d0, ap (λ t. t ∷ pa) (bit_xor_none a b x) ∙ ap (λ l. b ∷ l) rest)

ct_diff_same : (pa : List ℕ) → ct_diff pa pa 0 ≡ 0
unfolding ct_diff
ct_diff_same [] = refl
ct_diff_same (a ∷ pa) = rw (bit_xor_self a) (ct_diff_same pa)

pub ct_memeq_same : (pa : List ℕ) → (ct_memeq pa pa == 0) ≡ false
unfolding ct_memeq
ct_memeq_same pa = rw (ct_diff_same pa) refl

fold_diff : (d : ℕ) → d < 256 → (bit_and (u8 (u32 (d + (2 ^ 32 - 1)) >>> 8)) 1 == 0) ≡ false → d ≡ 0
fold_diff d h e = ground (arith, bit_and_mask 1 (u8 (u32 (d + (2 ^ 32 - 1)) >>> 8)))

pub ct_memeq→eq :
    (pa pb : List ℕ)
    → length pa ≡ length pb
    → All IsByte pa
    → All IsByte pb
    → (ct_memeq pa pb == 0) ≡ false
    → pa ≡ pb
unfolding ct_memeq
ct_memeq→eq pa pb l ha hb e =
    (ct_diff_none pa pb 0 l ha hb
      (fold_diff (ct_diff pa pb 0) (ct_diff-IsByte pa pb 0 (omega arith)) e)).1

-- On two codes of one length the comparison in constant time says what `memcmp` says.
pub ct_memeq-bytes_eq :
    (pa pb : List ℕ)
    → length pa ≡ length pb
    → All IsByte pa
    → All IsByte pb
    → (ct_memeq pa pb == 0) ≡ not (bytes_eq pa pb)
ct_memeq-bytes_eq pa pb l ha hb = elim (Bool-cases (bytes_eq pa pb)) [
  | inl t ↦
      let same = bytes_eq→eq pa pb t in
      ap (λ p. ct_memeq p pb == 0) same ∙ ct_memeq_same pb ∙ sym (ap not t)
  | inr f ↦ elim (Bool-cases (ct_memeq pa pb == 0)) [
    | inl z ↦ z ∙ sym (ap not f)
    | inr z ↦
        let same = ct_memeq→eq pa pb l ha hb z in
        absurd (cc (ap (λ p. bytes_eq p pb) same, bytes_eq_refl pb, f))
  ]
]

-- The fold of the differences says whether there is one.
pub ct_diff-bytes_eq :
    (pa pb : List ℕ)
    → length pa ≡ length pb
    → All IsByte pa
    → All IsByte pb
    → (ct_diff pa pb 0 == 0) ≡ bytes_eq pa pb
ct_diff-bytes_eq pa pb l ha hb = elim (Bool-cases (bytes_eq pa pb)) [
  | inl t ↦
      ap (λ p. ct_diff p pb 0 == 0) (bytes_eq→eq pa pb t)
      ∙ ap (λ (d : ℕ). d == 0) (ct_diff_same pb)
      ∙ sym t
  | inr f ↦ elim (Bool-cases (ct_diff pa pb 0 == 0)) [
    | inl z ↦
        let same = (ct_diff_none pa pb 0 l ha hb (ground arith)).1 in
        absurd (cc (ap (λ p. bytes_eq p pb) same, bytes_eq_refl pb, f))
    | inr z ↦ z ∙ sym f
  ]
]
