-- ===== src/Wire/Varint.antt =====
-- zupt_encode_varint and zupt_decode_varint in plain arithmetic, and their round trip.
use zupt_web.Base.{
  ℕ, zero, suc, ◌+◌, ◌*◌, ◌/◌, ◌%◌, ◌^◌, ◌≤◌, ◌<◌, ◌≡◌, ◌≢◌, refl, ◌∙◌, ap, ap₂, false, bit_and,
  bit_or, arith, List, [], ◌∷◌, ◌++◌, some, ltb, ltb→lt, if◌then◌else◌, Bool-cases, inl, inr,
  length, All, u8, u64, ◌<<<◌, IsByte, IsU64,
}
use zupt_web.Base.Bits.{bit_and_mask, bit_or_disjoint}
use zupt_web.Base.Mask.{bit_or_high, bit_and_low7, bit_and_high, bit_and_not_one}
use zupt_web.Wire.{encode_varint_loop, encode_varint, decode_varint_loop, decode_varint}
use native.Mathlib.Nat.{mul-le-mul_right}
use native.Mathlib.Numerals.{towards_suc}

-- The groups of seven bits of `v`, lowest first, each but the last with the top bit set.
unfoldable pub groups : ℕ → ℕ → List ℕ
groups zero v = []
groups (suc k) v =
    let rest = groups k (v / 128) in if ltb v 128 then v ∷ [] else (v % 128 + 128) ∷ rest

low7 : (v : ℕ) → u8 (bit_and v 0x7f) ≡ v % 128
low7 v = omega (arith, bit_and_mask 7 v)

pub encode_varint_loop-groups : (k v : ℕ) → encode_varint_loop k v ≡ groups k v
unfolding encode_varint_loop groups
encode_varint_loop-groups zero v = refl
encode_varint_loop-groups (suc k) v =
    ground
      (arith, low7 v, bit_or_high (v % 128) (omega arith), encode_varint_loop-groups k (v / 128))

-- A number below 128 ^ k takes one to k bytes.
pub groups_size :
    (k v : ℕ)
    → v < 128 ^ suc k
    → (1 ≤ length (groups (suc k) v)) × (length (groups (suc k) v) ≤ suc k)
unfolding groups
groups_size zero v h = ground arith
groups_size (suc k) v h = ground (arith, groups_size k (v / 128))

pub groups-IsByte : (k v : ℕ) → All IsByte (groups k v)
unfolding groups
groups-IsByte zero v = tt
groups-IsByte (suc k) v = ground (arith, groups-IsByte k (v / 128))

-- What one byte of a varint holds.
pub payload_of : (b : ℕ) → IsByte b → u8 (bit_and b 0x7f) ≡ b % 128
payload_of b h = omega (arith, bit_and_low7 b h)

pub shift_seven : (s : ℕ) → 2 ^ (s + 7) ≡ 128 * 2 ^ s
shift_seven s = simp towards_suc (omega arith)

-- The payload of the byte at `shift` lands above the value so far, and does not wrap.
pub place :
    (v p shift : ℕ)
    → v < 2 ^ shift
    → p * 2 ^ shift < 2 ^ 64
    → bit_or v (u64 (p <<< shift)) ≡ v + p * 2 ^ shift
place v p shift hv hp =
    let e : u64 (p <<< shift) ≡ p * 2 ^ shift = omega arith in rw e (bit_or_disjoint shift v p hv)

-- A last byte `w`, and a byte with the top bit set over the group `g`.
last_byte :
    (r w n v shift : ℕ) (bs : List ℕ)
    → w < 128
    → (n ≡ 9 → w < 2)
    → (n ≢ 0 → w ≢ 0)
    → v < 2 ^ shift
    → w * 2 ^ shift < 2 ^ 64
    → decode_varint_loop (suc r) (w ∷ bs) n v shift ≡ some (v + w * 2 ^ shift, n + 1)
unfolding decode_varint_loop
last_byte r w n v shift bs hw h9 h0 hv hp = ground (
  arith,
  payload_of w (omega arith),
  bit_and_high w (omega arith),
  bit_and_not_one w (omega arith),
  place v w shift hv hp,
)

inner_byte :
    (r g n v shift : ℕ) (bs : List ℕ)
    → g < 128
    → n < 9
    → v < 2 ^ shift
    → g * 2 ^ shift < 2 ^ 64
    → decode_varint_loop (suc r) ((g + 128) ∷ bs) n v shift
      ≡ decode_varint_loop r bs (n + 1) (v + g * 2 ^ shift) (shift + 7)
unfolding decode_varint_loop
inner_byte r g n v shift bs hg hn hv hp = ground (
  arith,
  payload_of (g + 128) (omega arith),
  bit_and_high (g + 128) (omega arith),
  place v g shift hv hp,
)

split_group : (w s : ℕ) → w * 2 ^ s ≡ w % 128 * 2 ^ s + w / 128 * 2 ^ (s + 7)
split_group w s =
    let e : w ≡ w / 128 * 128 + w % 128 = omega arith in
    omega (arith, ap (λ (t : ℕ). t * 2 ^ s) e, ap (λ (t : ℕ). w / 128 * t) (shift_seven s))

top_group : (w shift : ℕ) → shift ≡ 63 → w * 2 ^ shift < 2 ^ 64 → w < 2
top_group w shift e h = omega (arith, ap (λ (t : ℕ). w * 2 ^ t) e)

-- The head group of `w` fits below `2 ^ (shift + 7)` above `v`.
pub group_fits : (v w shift : ℕ) → v < 2 ^ shift → v + w % 128 * 2 ^ shift < 2 ^ (shift + 7)
group_fits v w shift h =
    let q : w % 128 * 2 ^ shift ≤ 127 * 2 ^ shift = mul-le-mul_right (2 ^ shift) (omega arith) in
    omega (arith, shift_seven shift)

ltb-false→le : (a b : ℕ) → ltb a b ≡ false → b ≤ a
ltb-false→le a b h = ground arith

decode_loop-groups :
    (r w n v shift : ℕ) (rest : List ℕ)
    → n + r ≡ 10
    → shift ≡ 7 * n
    → (n ≢ 0 → w ≢ 0)
    → w < 128 ^ r
    → 0 < r
    → v < 2 ^ shift
    → v + w * 2 ^ shift < 2 ^ 64
    → decode_varint_loop r (groups r w ++ rest) n v shift
      ≡ some (v + w * 2 ^ shift, n + length (groups r w))
unfolding groups
decode_loop-groups zero w n v shift rest hn hs h0 hw hr hv hf = absurd (omega arith)
decode_loop-groups (suc zero) w n v shift rest hn hs h0 hw hr hv hf = ground (
  arith,
  top_group w shift (omega arith) (omega arith),
  last_byte 0 w n v shift rest (omega arith) (λ e. top_group w shift (omega arith) (omega arith)) h0
      hv (omega arith),
)
decode_loop-groups (suc (suc r)) w n v shift rest hn hs h0 hw hr hv hf =
    elim (Bool-cases (ltb w 128)) [
      | inl small ↦ rw small (
          last_byte (suc r) w n v shift rest (ltb→lt _ _ small) (λ e. absurd (omega arith)) h0 hv
            (omega arith))
      | inr big ↦ rw big (
          inner_byte (suc r) (w % 128) n v shift (groups (suc r) (w / 128) ++ rest) (omega arith)
            (omega arith) hv (omega (arith, split_group w shift))
          ∙ decode_loop-groups (suc r) (w / 128) (n + 1) (v + w % 128 * 2 ^ shift) (shift + 7) rest
              (omega arith) (omega arith) (λ _. omega (arith, ltb-false→le w 128 big)) (omega arith)
              (omega arith) (group_fits v w shift hv) (omega (arith, split_group w shift))
          ∙ ap₂ (λ (a b : ℕ). some (a, b)) (omega (arith, split_group w shift)) (omega arith))
    ]

-- zupt_decode_varint reads back the uint64 that zupt_encode_varint wrote, whatever follows it, and
-- returns the number of bytes written.
pub decode_varint-encode_varint :
    (v : ℕ) (rest : List ℕ)
    → IsU64 v
    → decode_varint (encode_varint v ++ rest) ≡ some (v, length (encode_varint v))
unfolding encode_varint decode_varint
decode_varint-encode_varint v rest h = rw (encode_varint_loop-groups 10 v) (
    decode_loop-groups 10 v 0 0 0 rest refl refl (λ z. absurd (z refl)) (omega arith) (omega arith)
      (omega arith) (omega arith)
    ∙ ap₂ (λ (a b : ℕ). some (a, b)) (omega arith) (omega arith))

-- zupt_encode_varint writes 1 to 10 bytes, which fit the callers' `uint8_t b[10]`.
pub encode_varint_size :
    (v : ℕ)
    → IsU64 v
    → (1 ≤ length (encode_varint v))
      × (length (encode_varint v) ≤ 10)
      × All IsByte (encode_varint v)
unfolding encode_varint
encode_varint_size v h =
    let s = groups_size 9 v (omega arith) in
    rw (encode_varint_loop-groups 10 v) (s.0, s.1, groups-IsByte 10 v)
