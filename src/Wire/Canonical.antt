-- ===== src/Wire/Canonical.antt =====
-- zupt_decode_varint accepts only what zupt_encode_varint writes, and zupt_read_varint reads a stream
-- as zupt_decode_varint reads a buffer.
use zupt_web.Base.{
  ℕ, zero, suc, ◌+◌, ◌-◌, ◌*◌, ◌/◌, ◌%◌, ◌^◌, ◌≤◌, ◌<◌, ◌≡◌, ◌≢◌, ◌⊎◌, inl, inr, refl, ◌∙◌, ap, sym,
  bit_and, bit_or, u64, ◌<<<◌, arith, List, [], ◌∷◌, ◌++◌, Option, some, none, length, take, drop,
  All, u8, IsByte, IsU64, take-append, ltb, false,
}
use zupt_web.Base.Mask.{bit_and_high, bit_and_not_one}
use zupt_web.Wire.{encode_varint, decode_varint_loop, decode_varint, read_varint_loop, read_varint}
use zupt_web.Wire.Varint.{
  groups, encode_varint_loop-groups, payload_of, place, shift_seven, group_fits, groups_size,
}
use native.Mathlib.Nat.{pow-le-pow_right, mul-le-mul, eq-or-lt_of_le}

-- A payload that the guard of the tenth byte lets through does not wrap.
payload_fits :
    (n shift p : ℕ)
    → shift ≡ 7 * n
    → n ≤ 9
    → p < 128
    → (n ≡ 9 → p < 2)
    → p * 2 ^ shift + 2 ^ shift ≤ 2 ^ 64
payload_fits n shift p hs hn hp h9 = elim (eq-or-lt_of_le hn) [
  | inl e ↦ nine (h9 e) (rw (hs, e) refl)
  | inr l ↦
      let a : 2 ^ shift ≤ 2 ^ 56 = pow-le-pow_right (omega arith) {j = 56} (omega arith) in
      let b : p * 2 ^ shift ≤ 127 * 2 ^ 56 = mul-le-mul {n₂ = 127} (omega arith) a in omega arith
]
  where
    nine : p < 2 → 2 ^ shift ≡ 2 ^ 63 → p * 2 ^ shift + 2 ^ shift ≤ 2 ^ 64
    nine h e = rw e (omega arith)

abbrev Last : ℕ → ℕ → ℕ → ℕ → ℕ → ℕ → Type 0
Last b n v shift w m =
    (b < 128) × (w ≡ v + b * 2 ^ shift) × (m ≡ n + 1) × (n ≢ 0 → b ≢ 0) × (w < 2 ^ 64)

abbrev More : ℕ → ℕ → List ℕ → ℕ → ℕ → ℕ → ℕ → ℕ → Type 0
More r b bs n v shift w m =
    (128 ≤ b)
    × (n < 9)
    × (decode_varint_loop r bs (n + 1) (v + b % 128 * 2 ^ shift) (shift + 7) ≡ some (w, m))

-- A result means that the guard of the tenth byte let the byte through.
tenth_byte :
    (r b n v shift w m : ℕ) (bs : List ℕ)
    → IsByte b
    → decode_varint_loop (suc r) (b ∷ bs) n v shift ≡ some (w, m)
    → n ≡ 9
    → b < 2
unfolding decode_varint_loop
tenth_byte r b n v shift w m bs hb e h = ground (arith, bit_and_not_one b hb)

-- One round that leads to a result: the byte is the last one, or the loop goes on.
round_cases :
    (r b n v shift w m : ℕ) (bs : List ℕ)
    → n + suc r ≡ 10
    → shift ≡ 7 * n
    → v < 2 ^ shift
    → IsByte b
    → decode_varint_loop (suc r) (b ∷ bs) n v shift ≡ some (w, m)
    → Last b n v shift w m ⊎ More r b bs n v shift w m
unfolding decode_varint_loop
round_cases r b n v shift w m bs hn hs hv hb e =
    let ninth : (n ≡ 9 → b < 2) = tenth_byte r b n v shift w m bs hb e in
    let fits : b % 128 * 2 ^ shift + 2 ^ shift ≤ 2 ^ 64 =
      payload_fits n shift (b % 128) hs (omega arith) (omega arith) (λ h. omega arith) in
    let at = place v (b % 128) shift hv (omega arith) in
    let small : (b < 128 → b % 128 ≡ b) = λ h. omega arith in
    ground (
      arith,
      payload_of b hb,
      bit_and_high b hb,
      bit_and_not_one b hb,
      ap (λ (t : ℕ). t * 2 ^ shift) {x = b % 128} {y = b},
    )

-- What a result says of the bytes read: they are the groups of a number `q`, placed at `shift`.
record Read (r : ℕ) (bs : List ℕ) (n v shift w m : ℕ) : Type 0 where
  q : ℕ
  rest : List ℕ
  bytes : bs ≡ groups r q ++ rest
  scalar : w ≡ v + q * 2 ^ shift
  count : m ≡ n + length (groups r q)
  shortest : n ≢ 0 → q ≢ 0
  fits : w < 2 ^ 64

groups_last : (r b : ℕ) → b < 128 → groups (suc r) b ≡ b ∷ []
unfolding groups
groups_last r b h = ground arith

groups_more :
    (r b q : ℕ) → 128 ≤ b → b < 256 → q ≢ 0 → groups (suc r) (b % 128 + q * 128) ≡ b ∷ groups r q
unfolding groups
groups_more r b q h hb hq =
    let e : (b % 128 + q * 128) / 128 ≡ q = omega arith in
    let e' : (b % 128 + q * 128) % 128 + 128 ≡ b = omega arith in
    let big : ltb (b % 128 + q * 128) 128 ≡ false = ground arith in rw (big, e, e')

add-mul_shift :
    (v p q shift : ℕ) → v + p * 2 ^ shift + q * 2 ^ (shift + 7) ≡ v + (p + q * 128) * 2 ^ shift
add-mul_shift v p q shift = omega (arith, ap (λ (t : ℕ). q * t) (shift_seven shift))

decode_loop-Read :
    (r n v shift w m : ℕ) (bs : List ℕ)
    → n + r ≡ 10
    → shift ≡ 7 * n
    → v < 2 ^ shift
    → All IsByte bs
    → decode_varint_loop r bs n v shift ≡ some (w, m)
    → Read r bs n v shift w m
decode_loop-Read zero n v shift w m bs hn hs hv hb e = absurd (unfold decode_varint_loop in cc)
decode_loop-Read (suc r) n v shift w m [] hn hs hv hb e = absurd (unfold decode_varint_loop in cc)
decode_loop-Read (suc r) n v shift w m (b ∷ bs) hn hs hv hb e =
    elim (round_cases r b n v shift w m bs hn hs hv hb.0 e) [
      | inl (small, ew, em, h0, fits) ↦
          let g = groups_last r b small in
          record {
            q = b;
            rest = bs;
            bytes = rw g;
            scalar = ew;
            count = rw g em;
            shortest = h0;
            fits = fits;
          }
      | inr (big, hn9, e') ↦
          let inner =
            decode_loop-Read r (n + 1) (v + b % 128 * 2 ^ shift) (shift + 7) w m bs (omega arith)
              (omega arith) (group_fits v b shift hv) hb.1 e' in
          let q0 : inner.q ≢ 0 = inner.shortest (λ z. omega arith) in
          let g = groups_more r b inner.q big hb.0 q0 in
          record {
            q = b % 128 + inner.q * 128;
            rest = inner.rest;
            bytes = rw g (ap (λ l. b ∷ l) inner.bytes);
            scalar = inner.scalar ∙ add-mul_shift v (b % 128) inner.q shift;
            count = rw g (omega (arith, inner.count));
            shortest = λ _ z. omega arith;
            fits = inner.fits;
          }
    ]

-- Where zupt_decode_varint accepts a buffer of bytes, the buffer begins with the bytes that
-- zupt_encode_varint writes for the value returned, which is a uint64; the count returned is their
-- number, at most ten.
pub decode_varint_canonical :
    (b : List ℕ) (v n : ℕ)
    → All IsByte b
    → decode_varint b ≡ some (v, n)
    → IsU64 v × (take n b ≡ encode_varint v) × (n ≡ length (encode_varint v)) × (n ≤ 10)
unfolding decode_varint encode_varint
decode_varint_canonical b v n hb e =
    let got = decode_loop-Read 10 0 0 0 v n b refl refl (omega arith) hb e in
    let same : got.q ≡ v = omega (arith, got.scalar) in
    let count : n ≡ length (groups 10 got.q) = omega (arith, got.count) in
    let len : n ≡ length (groups 10 v) = rw same at count in
    let bytes : b ≡ groups 10 v ++ got.rest = rw same at got.bytes in
    let size = groups_size 9 v (omega (arith, got.fits)) in
    (
      got.fits,
      rw (encode_varint_loop-groups 10 v, bytes) (take-append n (groups 10 v) got.rest (sym len)),
      rw (encode_varint_loop-groups 10 v) len,
      omega arith,
    )

drop_step : (m i b : ℕ) (f : List ℕ) → i < m → drop (m - i) (b ∷ f) ≡ drop (m - (i + 1)) f
drop_step m i b f h = let e : m - i ≡ suc (m - (i + 1)) = omega arith in rw e

drop_none : (m i : ℕ) (f : List ℕ) → m ≡ i + 1 → drop (m - (i + 1)) f ≡ f
drop_none m i f h = let e : m - (i + 1) ≡ 0 = omega arith in rw e

read_loop-some :
    (r i v shift w m : ℕ) (f : List ℕ)
    → decode_varint_loop r f i v shift ≡ some (w, m)
    → (i < m) × (read_varint_loop r f i v shift ≡ some (w, m, drop (m - i) f))
unfolding read_varint_loop decode_varint_loop
read_loop-some zero i v shift w m f e = absurd (cc)
read_loop-some (suc r) i v shift w m [] e = absurd (cc)
read_loop-some (suc r) i v shift w m (b ∷ f) e = ground (
  arith,
  drop_step m i b f,
  drop_none m i f,
  read_loop-some r (i + 1) (bit_or v (u64 (u8 (bit_and b 0x7f) <<< shift))) (shift + 7) w m f,
)

read_loop-none :
    (r i v shift : ℕ) (f : List ℕ)
    → decode_varint_loop r f i v shift ≡ none
    → read_varint_loop r f i v shift ≡ none
unfolding read_varint_loop decode_varint_loop
read_loop-none zero i v shift f e = refl
read_loop-none (suc r) i v shift [] e = refl
read_loop-none (suc r) i v shift (b ∷ f) e =
    ground (
      arith,
      read_loop-none r (i + 1) (bit_or v (u64 (u8 (bit_and b 0x7f) <<< shift))) (shift + 7) f,
    )

-- zupt_read_varint on a stream agrees with zupt_decode_varint on the bytes ahead: the same value and
-- count, the stream left behind the integer, and a failure exactly when the other fails.
pub read_varint-eq-decode_varint :
    (f : List ℕ)
    → read_varint f ≡ elim (decode_varint f) [ none ↦ none | some (v, n) ↦ some (v, n, drop n f) ]
unfolding read_varint decode_varint
read_varint-eq-decode_varint f = go (decode_varint_loop 10 f 0 0 0) refl
  where
    go :
        (o : Option (ℕ × ℕ))
        → decode_varint_loop 10 f 0 0 0 ≡ o
        → read_varint_loop 10 f 0 0 0 ≡ elim o [ none ↦ none | some (v, n) ↦ some (v, n, drop n f) ]
    go none e = read_loop-none 10 0 0 0 f e
    go (some (v, n)) e =
        (read_loop-some 10 0 0 0 v n f e).1 ∙ ap (λ (k : ℕ). some (v, n, drop k f)) (omega arith)
