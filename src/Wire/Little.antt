-- ===== src/Wire/Little.antt =====
-- The little-endian helpers are inverse to one another, at each width.
use zupt_web.Base.{
  ℕ, zero, suc, ◌+◌, ◌*◌, ◌/◌, ◌%◌, ◌^◌, ◌<◌, ◌≡◌, refl, ◌∙◌, bit_and, bit_or, arith, List, [], ◌∷◌,
  ◌++◌, length, All, u8, u64, ◌<<<◌, ◌>>>◌, IsByte, IsU16, IsU32, IsU64,
}
use zupt_web.Base.Bits.{bit_and_mask, bit_or_disjoint, bit_or_disjoint'}
use zupt_web.Wire.{le16_put, le32_put, le64_put, le64_put_loop, le16_get, le32_get, le64_get}

pub low_byte : (v : ℕ) → u8 (bit_and v 0xff) ≡ v % 256
low_byte v = omega (arith, bit_and_mask 8 v)

pub le16_put_bytes : (v : ℕ) → le16_put v ≡ v % 256 ∷ v / 256 % 256 ∷ []
unfolding le16_put
le16_put_bytes v = ground (arith, low_byte v, low_byte (v / 256))

pub le32_put_bytes :
    (v : ℕ) → le32_put v ≡ v % 256 ∷ v / 256 % 256 ∷ v / 65536 % 256 ∷ v / 16777216 % 256 ∷ []
unfolding le32_put
le32_put_bytes v =
    ground (arith, low_byte v, low_byte (v / 256), low_byte (v / 65536), low_byte (v / 16777216))

pub length-le64_put : (v : ℕ) → length (le64_put v) ≡ 8
unfolding le64_put
length-le64_put v = refl

put_loop-IsByte : (n v : ℕ) → All IsByte (le64_put_loop n v)
unfolding le64_put_loop
put_loop-IsByte zero v = tt
put_loop-IsByte (suc n) v = (omega arith, put_loop-IsByte n (v >>> 8))

pub le64_put-IsByte : (v : ℕ) → All IsByte (le64_put v)
unfolding le64_put
le64_put-IsByte v = put_loop-IsByte 8 v

pub le16_put-IsByte : (v : ℕ) → All IsByte (le16_put v)
unfolding le16_put
le16_put-IsByte v = omega arith

pub le32_put-IsByte : (v : ℕ) → All IsByte (le32_put v)
unfolding le32_put
le32_put-IsByte v = omega arith

-- One round of the loop of `le64_get`, on a value that does not wrap.
shift_in : (v b : ℕ) → v < 2 ^ 56 → b < 256 → bit_or (u64 (v <<< 8)) b ≡ v * 256 + b
shift_in v b hv hb =
    let e : u64 (v <<< 8) ≡ v * 2 ^ 8 = omega arith in rw e (bit_or_disjoint' 8 v b (omega arith))

-- Eight bytes as a number, the lowest first.
abbrev pub word : ℕ → ℕ → ℕ → ℕ → ℕ → ℕ → ℕ → ℕ → ℕ
word a b c d e f g h =
    ((((((h * 256 + g) * 256 + f) * 256 + e) * 256 + d) * 256 + c) * 256 + b) * 256 + a

pub le64_get-word :
    (a b c d e f g h : ℕ) (rest : List ℕ)
    → All IsByte (a ∷ b ∷ c ∷ d ∷ e ∷ f ∷ g ∷ h ∷ [])
    → le64_get (a ∷ b ∷ c ∷ d ∷ e ∷ f ∷ g ∷ h ∷ rest) ≡ word a b c d e f g h
unfolding le64_get
le64_get-word a b c d e f g h rest p =
    rw
      (
        shift_in (0) h (omega arith) (omega arith),
        shift_in ((0) * 256 + h) g (omega arith) (omega arith),
        shift_in (((0) * 256 + h) * 256 + g) f (omega arith) (omega arith),
        shift_in ((((0) * 256 + h) * 256 + g) * 256 + f) e (omega arith) (omega arith),
        shift_in (((((0) * 256 + h) * 256 + g) * 256 + f) * 256 + e) d (omega arith) (omega arith),
        shift_in ((((((0) * 256 + h) * 256 + g) * 256 + f) * 256 + e) * 256 + d) c (omega arith)
            (omega arith),
        shift_in (((((((0) * 256 + h) * 256 + g) * 256 + f) * 256 + e) * 256 + d) * 256 + c) b
            (omega arith) (omega arith),
        shift_in
            ((((((((0) * 256 + h) * 256 + g) * 256 + f) * 256 + e) * 256 + d) * 256 + c) * 256 + b)
            a (omega arith) (omega arith),
      )
      (omega arith)

pub le64_put-word :
    (v : ℕ)
    → le64_put v
      ≡ v % 256
        ∷ v / 256 % 256
        ∷ v / 256 / 256 % 256
        ∷ v / 256 / 256 / 256 % 256
        ∷ v / 256 / 256 / 256 / 256 % 256
        ∷ v / 256 / 256 / 256 / 256 / 256 % 256
        ∷ v / 256 / 256 / 256 / 256 / 256 / 256 % 256
        ∷ v / 256 / 256 / 256 / 256 / 256 / 256 / 256 % 256
        ∷ []
unfolding le64_put
le64_put-word v = simp low_byte

-- zupt_le64_get reads back the uint64 that zupt_le64_put wrote, whatever follows it.
pub le64_get-le64_put : (v : ℕ) (rest : List ℕ) → IsU64 v → le64_get (le64_put v ++ rest) ≡ v
le64_get-le64_put v rest h =
    rw le64_put-word (le64_get-word _ _ _ _ _ _ _ _ rest (omega arith) ∙ omega arith)

pub le32_get-le32_put : (v : ℕ) (rest : List ℕ) → IsU32 v → le32_get (le32_put v ++ rest) ≡ v
unfolding le32_get
le32_get-le32_put v rest h = rw le32_put_bytes (
    ground (
      arith,
      bit_or_disjoint 8 (v % 256) (v / 256 % 256),
      bit_or_disjoint 16 (v % 65536) (v / 65536 % 256),
      bit_or_disjoint 24 (v % 16777216) (v / 16777216 % 256),
    ))

pub le16_get-le16_put : (v : ℕ) (rest : List ℕ) → IsU16 v → le16_get (le16_put v ++ rest) ≡ v
unfolding le16_get
le16_get-le16_put v rest h =
    rw le16_put_bytes (ground (arith, bit_or_disjoint 8 (v % 256) (v / 256 % 256)))
