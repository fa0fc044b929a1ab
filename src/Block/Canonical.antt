-- ===== src/Block/Canonical.antt =====
-- read_block accepts only frames.
use zupt_web.Base.{
  ℕ, zero, suc, ◌+◌, ◌*◌, ◌≤◌, ◌≡◌, inl, inr, refl, sym, ap, ap₂, subst, ◌∙◌, List, [], ◌∷◌, ◌++◌,
  if◌then◌else◌, Bool, false, length, length-take, take, drop, All, IsByte, IsU16, IsU64, arith,
  take-append-drop, All-take, All-drop, ltb, get_or, bytes_eq, bytes_eq→eq, some, none,
  Option-cases, Bool-cases, u64, ◌<<<◌, take_all,
}
use zupt_web.Base.Bits.{bit_or_disjoint, bit_or-lt}
use zupt_web.Wire.{
  le16_put, le16_get, le64_put, le64_get, le64_get_loop, encode_varint, decode_varint, read_varint,
}
use zupt_web.Wire.Little.{le16_put_bytes}
use zupt_web.Wire.Canonical.{decode_varint_canonical, read_varint-eq-decode_varint}
use zupt_web.Header.Layout.{le64_put-le64_get}
use zupt_web.Failure.{corrupt, Result, ok, err, ◌>>=◌}
use zupt_web.Block.{
  Block, block_magic, max_block_sz, frame, fread, r16le, r64le, varint_field, read_payload,
  read_fields, read_block,
}
use zupt_web.Block.Frame.{IsBlock, frame_onto}

-- A chain that succeeds has steps that do.
bind_ok {ℓ κ} :
    {A : Type ℓ} {B : Type κ} (m : Result A) (f : A → Result B) (y : B)
    → (m >>= f) ≡ ok y
    → (x : A) × (m ≡ ok x) × (f x ≡ ok y)
bind_ok (ok x) f y e = (x, refl, e)
bind_ok (err z) f y e = absurd (cc)

ok_injective {ℓ} : {A : Type ℓ} (x y : A) → ok x ≡ ok y → x ≡ y
ok_injective x y e = cc

-- What a reader has taken from the stream, and the bytes that it leaves.
abbrev Took : List ℕ → List ℕ → List ℕ → Type 0
Took f bytes rest = (f ≡ bytes ++ rest) × All IsByte rest

not_short : (n k : ℕ) → ltb n k ≡ false → k ≤ n
not_short n k h = ground arith

fread-Took :
    (n : ℕ) (f bytes rest : List ℕ)
    → All IsByte f
    → fread n f ≡ ok (bytes, rest)
    → Took f bytes rest × (length bytes ≡ n) × All IsByte bytes
unfolding fread
fread-Took n f bytes rest h e = elim (Bool-cases (ltb (length f) n)) [
  | inl t ↦ absurd (cc)
  | inr t ↦
      let eb : take n f ≡ bytes = cc in
      let er : drop n f ≡ rest = cc in
      (
        (
          sym (take-append-drop n f) ∙ ap₂ (λ a b. a ++ b) eb er,
          subst (All IsByte) er (All-drop IsByte n f h),
        ),
        ap length (sym eb) ∙ omega (arith, length-take n f, not_short (length f) n t),
        subst (All IsByte) eb (All-take IsByte n f h),
      )
]

two_bytes :
    (bs : List ℕ)
    → All IsByte bs
    → length bs ≡ 2
    → (le16_put (le16_get bs) ≡ bs) × IsU16 (le16_get bs)
unfolding le16_get
two_bytes [] h l = absurd (omega arith)
two_bytes (a ∷ []) h l = absurd (omega arith)
two_bytes (a ∷ b ∷ []) h l =
    let e : le16_get (a ∷ b ∷ []) ≡ a + b * 256 = ground (arith, bit_or_disjoint 8 a b) in
    (rw (le16_put_bytes (le16_get (a ∷ b ∷ [])), e) (ground arith), omega (arith, e))
two_bytes (a ∷ b ∷ c ∷ bs) h l = absurd (omega arith)

get_or-IsByte : (xs : List ℕ) (i : ℕ) → All IsByte xs → IsByte (get_or xs i 0)
get_or-IsByte [] i h = omega arith
get_or-IsByte (x ∷ xs) zero h = h.0
get_or-IsByte (x ∷ xs) (suc i) h = get_or-IsByte xs i h.1

get_loop-IsU64 : (p : List ℕ) (i v : ℕ) → All IsByte p → IsU64 v → IsU64 (le64_get_loop p i v)
unfolding le64_get_loop
get_loop-IsU64 p zero v h hv = hv
get_loop-IsU64 p (suc i) v h hv =
    let small : IsByte (get_or p i 0) = get_or-IsByte p i h in
    get_loop-IsU64 p i _ h
      (bit_or-lt 64 (u64 (v <<< 8)) (get_or p i 0) (omega arith) (omega (arith, small)))

le64_get-IsU64 : (p : List ℕ) → All IsByte p → IsU64 (le64_get p)
unfolding le64_get
le64_get-IsU64 p h = get_loop-IsU64 p 8 0 h (omega arith)

r16le-Took :
    (f : List ℕ) (v : ℕ) (rest : List ℕ)
    → All IsByte f
    → r16le f ≡ ok (v, rest)
    → Took f (le16_put v) rest × IsU16 v
unfolding r16le
r16le-Took f v rest h e =
    let (p, ep, eq) = bind_ok (fread 2 f) (λ p. ok (le16_get p.0, p.1)) (v, rest) e in
    let (bytes, r) = p in
    let (took, len, good) = fread-Took 2 f bytes r h ep in
    let (back, small) = two_bytes bytes good len in
    let ev : le16_get bytes ≡ v = cc in
    let er : r ≡ rest = cc in
    let eb : bytes ≡ le16_put v = sym back ∙ ap le16_put ev in
    ((took.0 ∙ ap₂ (λ a b. a ++ b) eb er, subst (All IsByte) er took.1), subst IsU16 ev small)

r64le-Took :
    (f : List ℕ) (v : ℕ) (rest : List ℕ)
    → All IsByte f
    → r64le f ≡ ok (v, rest)
    → Took f (le64_put v) rest × IsU64 v
unfolding r64le
r64le-Took f v rest h e =
    let (p, ep, eq) = bind_ok (fread 8 f) (λ p. ok (le64_get p.0, p.1)) (v, rest) e in
    let (bytes, r) = p in
    let (took, len, good) = fread-Took 8 f bytes r h ep in
    let back : le64_put (le64_get bytes) ≡ bytes =
      le64_put-le64_get bytes good (omega (arith, len)) ∙ take_all 8 bytes (omega (arith, len)) in
    let ev : le64_get bytes ≡ v = cc in
    let er : r ≡ rest = cc in
    let eb : bytes ≡ le64_put v = sym back ∙ ap le64_put ev in
    (
      (took.0 ∙ ap₂ (λ a b. a ++ b) eb er, subst (All IsByte) er took.1),
      subst IsU64 ev (le64_get-IsU64 bytes good),
    )

varint_field-Took :
    (f : List ℕ) (v : ℕ) (rest : List ℕ)
    → All IsByte f
    → varint_field f ≡ ok (v, rest)
    → Took f (encode_varint v) rest
unfolding varint_field
varint_field-Took f v rest h e = elim (Option-cases (decode_varint f)) [
  | inl n ↦
      let r : read_varint f ≡ none = rw (read_varint-eq-decode_varint f, n) refl in absurd (cc)
  | inr ((w, m), d) ↦
      let r : read_varint f ≡ some (w, m, drop m f) = rw (read_varint-eq-decode_varint f, d) refl in
      let ev : w ≡ v = cc in
      let er : drop m f ≡ rest = cc in
      let (small, took, len, ten) = decode_varint_canonical f w m h d in
      (
        sym (take-append-drop m f) ∙ ap₂ (λ a b. a ++ b) (took ∙ ap encode_varint ev) er,
        subst (All IsByte) er (All-drop IsByte m f h),
      )
]

payload_took :
    (malloc : ℕ → Bool) (b b' : Block) (f rest : List ℕ)
    → All IsByte f
    → read_payload malloc b f ≡ ok (b', rest)
    → (b' ≡ record b { payload = b'.payload })
      × (f ≡ b'.payload ++ rest)
      × (length b'.payload ≡ b.compressed_size)
      × (b.compressed_size ≤ max_block_sz + 4096)
      × (b.uncompressed_size ≤ max_block_sz)
unfolding read_payload
payload_took malloc b b' f rest h e =
    elim (Bool-cases (ltb (max_block_sz + 4096) b.compressed_size)) [
      | inl t ↦ absurd (cc)
      | inr small ↦ elim (Bool-cases (ltb max_block_sz b.uncompressed_size)) [
        | inl t ↦ absurd (cc)
        | inr small' ↦ elim (Bool-cases (malloc b.compressed_size)) [
          | inr t ↦ absurd (cc)
          | inl given ↦
              let fill : List ℕ × List ℕ → Result (Block × List ℕ) =
                λ p. ok (record b { payload = p.0 }, p.1) in
              let filled : (fread b.compressed_size f >>= fill) ≡ ok (b', rest) = cc in
              let (p, ep, eq) = bind_ok (fread b.compressed_size f) fill (b', rest) filled in
              let (took, len, good) = fread-Took b.compressed_size f p.0 p.1 h ep in
              let eb : record b { payload = p.0 } ≡ b' = cc in
              let er : p.1 ≡ rest = cc in
              let ep' : p.0 ≡ b'.payload = ap (λ (k : Block). k.payload) eb in
              (
                sym eb ∙ ap (λ t. record b { payload = t }) ep',
                took.0 ∙ ap₂ (λ x y. x ++ y) ep' er,
                ap length (sym ep') ∙ len,
                not_short _ _ small,
                not_short _ _ small',
              )
        ]
      ]
    ]

one_byte : (bs : List ℕ) → length bs ≡ 1 → bs ≡ get_or bs 0 0 ∷ []
one_byte [] l = absurd (omega arith)
one_byte (a ∷ []) l = refl
one_byte (a ∷ b ∷ bs) l = absurd (omega arith)

-- The fields taken one after another are a frame.
assemble :
    (b k : Block) (t f f1 f2 f3 f4 f5 f6 rest : List ℕ)
    → b ≡ record k { payload = b.payload }
    → t ≡ k.block_type ∷ []
    → f ≡ t ++ f1
    → f1 ≡ le16_put k.codec_id ++ f2
    → f2 ≡ le16_put k.block_flags ++ f3
    → f3 ≡ encode_varint k.uncompressed_size ++ f4
    → f4 ≡ encode_varint k.compressed_size ++ f5
    → f5 ≡ le64_put k.checksum ++ f6
    → f6 ≡ b.payload ++ rest
    → block_magic ++ f ≡ frame b ++ rest
assemble b k t f f1 f2 f3 f4 f5 f6 rest same et e0 e1 e2 e3 e4 e5 e6 =
    let whole : block_magic ++ f ≡ frame (record k { payload = b.payload }) ++ rest =
      rw (frame_onto (record k { payload = b.payload }) rest, e0, et, e1, e2, e3, e4, e5, e6)
        refl in
    whole ∙ ap (λ (c : Block). frame c ++ rest) (sym same)

limits :
    (b k : Block)
    → b ≡ record k { payload = b.payload }
    → IsByte k.block_type
    → IsU16 k.codec_id
    → IsU16 k.block_flags
    → k.uncompressed_size ≤ max_block_sz
    → k.compressed_size ≤ max_block_sz + 4096
    → IsU64 k.checksum
    → length b.payload ≡ k.compressed_size
    → IsBlock b
limits b k same ht hc hg hu hz hk hp = subst IsBlock (sym same) record {
  type_byte = ht;
  codec = hc;
  flags = hg;
  size = hu;
  packed_size = hz;
  sum = hk;
  payload_len = hp;
}

read_fields_canonical :
    (malloc : ℕ → Bool) (f : List ℕ) (b : Block) (rest : List ℕ)
    → All IsByte f
    → read_fields malloc f ≡ ok (b, rest)
    → (block_magic ++ f ≡ frame b ++ rest) × IsBlock b
unfolding read_fields
read_fields_canonical malloc f b rest h e =
    let (t, et, e1) = bind_ok (fread 1 f) _ (b, rest) e in
    let (took_t, len_t, good_t) = fread-Took 1 f t.0 t.1 h et in
    let (c, ec, e2) = bind_ok (r16le t.1) _ (b, rest) e1 in
    let (took_c, small_c) = r16le-Took t.1 c.0 c.1 took_t.1 ec in
    let (g, eg, e3) = bind_ok (r16le c.1) _ (b, rest) e2 in
    let (took_g, small_g) = r16le-Took c.1 g.0 g.1 took_c.1 eg in
    let (u, eu, e4) = bind_ok (varint_field g.1) _ (b, rest) e3 in
    let took_u = varint_field-Took g.1 u.0 u.1 took_g.1 eu in
    let (z, ez, e5) = bind_ok (varint_field u.1) _ (b, rest) e4 in
    let took_z = varint_field-Took u.1 z.0 z.1 took_u.1 ez in
    let (k, ek, e6) = bind_ok (r64le z.1) _ (b, rest) e5 in
    let (took_k, small_k) = r64le-Took z.1 k.0 k.1 took_z.1 ek in
    let preface : Block = record {
      block_type = get_or t.0 0 0;
      codec_id = c.0;
      block_flags = g.0;
      uncompressed_size = u.0;
      compressed_size = z.0;
      checksum = k.0;
      payload = [];
    } in
    let (same, took_p, len, packed, size) = payload_took malloc preface b k.1 rest took_k.1 e6 in
    (
      assemble b preface t.0 f t.1 c.1 g.1 u.1 z.1 k.1 rest same (one_byte t.0 len_t) took_t.0
          took_c.0 took_g.0 took_u.0 took_z.0 took_k.0 took_p,
      limits b preface same (get_or-IsByte t.0 0 good_t) small_c small_g size packed small_k len,
    )

-- Where read_block returns a block and the stream behind it, the bytes that it took are the frame of
-- that block, whose fields fit their types and the limits of the reader and whose payload has the size
-- stated.
pub read_block_canonical :
    (malloc : ℕ → Bool) (f : List ℕ) (b : Block) (rest : List ℕ)
    → All IsByte f
    → read_block malloc f ≡ ok (b, rest)
    → (f ≡ frame b ++ rest) × IsBlock b
unfolding read_block
read_block_canonical malloc f b rest h e =
    let tested : List ℕ × List ℕ → Result (Block × List ℕ) =
      λ m. if bytes_eq m.0 block_magic then read_fields malloc m.1 else err corrupt in
    let (m, em, e1) = bind_ok (fread 2 f) tested (b, rest) e in
    let (took, len, good) = fread-Took 2 f m.0 m.1 h em in
    elim (Bool-cases (bytes_eq m.0 block_magic)) [
      | inr t ↦ absurd (cc)
      | inl t ↦
          let fields : read_fields malloc m.1 ≡ ok (b, rest) = cc in
          let (back, is) = read_fields_canonical malloc m.1 b rest took.1 fields in
          (took.0 ∙ ap (λ l. l ++ m.1) (bytes_eq→eq m.0 block_magic t) ∙ back, is)
    ]
