-- ===== src/Sha256/Digest.antt =====
-- The buffering and the padding of zupt-5.2.10/src/zupt_sha256.c: what it computes of a message, in one
-- call or in pieces, is its own transform along the blocks of the padded message. Sha256.Standard and
-- Sha256.Conforms compare the transform with FIPS 180-4.
use zupt_web.Base.{
  ℕ, zero, suc, ◌+◌, ◌-◌, ◌*◌, ◌/◌, ◌%◌, ◌^◌, ◌≤◌, ◌==◌, true, ◌≡◌, refl, sym, ap, ◌∙◌, subst, ◌<◌,
  false, List, [], ◌∷◌, ◌++◌, append_assoc, append-nil, length, replicate, length-append,
  length-replicate, arith, u8, u64, take, drop, All, IsByte, All-append,
}
use zupt_web.Wire.Little.{low_byte}
use zupt_web.Sha256.{
  Sha256Ctx, initial, sha256_init, sha256_blocks, sha256_transform, add_words, be32_put,
  sha256_update, pad_zeros, length_bytes, put_words, sha256_final, sha256,
}
use zupt_web.Sha256.Streaming.{Hashing, sha256_update-Hashing, sha256_init-Hashing}

-- The length of a message in bits, in 64 bits, the highest byte first.
unfoldable pub be64 : ℕ → List ℕ
be64 v =
    u8 (v / 2 ^ 56)
    ∷ u8 (v / 2 ^ 48)
    ∷ u8 (v / 2 ^ 40)
    ∷ u8 (v / 2 ^ 32)
    ∷ u8 (v / 2 ^ 24)
    ∷ u8 (v / 2 ^ 16)
    ∷ u8 (v / 2 ^ 8)
    ∷ u8 v
    ∷ []

abbrev missing : ℕ → ℕ
missing n = (119 - n % 64) % 64

-- The padding of section 5.1.1: one bit, zeros up to 8 bytes from the end of a block, the length.
abbrev pub padding : List ℕ → List ℕ
padding m = 0x80 ∷ (replicate (missing (length m)) 0 ++ be64 (8 * length m))

-- The transform of the code along the blocks of the padded message.
abbrev pub padded_digest : List ℕ → List ℕ
padded_digest m =
    let padded = m ++ padding m in put_words (sha256_blocks initial padded (length padded / 64))

counted : (c : Sha256Ctx) (m : List ℕ) → Hashing c m → c.count ≡ u64 (length m)
counted c m (whole, rest, e, h) = omega (arith, h.counted, ap length e, length-append whole rest)

-- With as many passes as zeros are missing, or more, the loop adds exactly these.
pad_zeros-Hashing :
    (fuel z : ℕ) (c : Sha256Ctx) (m : List ℕ)
    → Hashing c m
    → z ≤ fuel
    → z < 64
    → (length m + z) % 64 ≡ 56
    → Hashing (pad_zeros fuel c) (m ++ replicate z 0)
unfolding pad_zeros
pad_zeros-Hashing zero zero c m h f s e = subst (λ l. Hashing c l) (sym (append-nil m)) h
pad_zeros-Hashing zero (suc z) c m h f s e = absurd (omega arith)
pad_zeros-Hashing (suc fuel) zero c m h f s e =
    let full : (c.count % 64 == 56) ≡ true = ground (arith, counted c m h) in
    rw full (subst (λ l. Hashing c l) (sym (append-nil m)) h)
pad_zeros-Hashing (suc fuel) (suc z) c m h f s e =
    let partial : (c.count % 64 == 56) ≡ false = ground (arith, counted c m h) in
    rw partial (
      subst (λ l. Hashing (pad_zeros fuel (sha256_update c (0 ∷ []))) l)
        (append_assoc m (0 ∷ []) (replicate z 0))
        (pad_zeros-Hashing fuel z (sha256_update c (0 ∷ [])) (m ++ (0 ∷ []))
          (sha256_update-Hashing c m (0 ∷ []) h) (omega arith) (omega arith)
          (omega (arith, length-append m (0 ∷ [])))))

length_bytes-be64 : (v : ℕ) → length_bytes 8 (u64 v) [] ≡ be64 v
unfolding length_bytes be64
length_bytes-be64 v =
    rw
      (
        low_byte (u64 v),
        low_byte (u64 v / 2 ^ 8),
        low_byte (u64 v / 2 ^ 8 / 2 ^ 8),
        low_byte (u64 v / 2 ^ 8 / 2 ^ 8 / 2 ^ 8),
        low_byte (u64 v / 2 ^ 8 / 2 ^ 8 / 2 ^ 8 / 2 ^ 8),
        low_byte (u64 v / 2 ^ 8 / 2 ^ 8 / 2 ^ 8 / 2 ^ 8 / 2 ^ 8),
        low_byte (u64 v / 2 ^ 8 / 2 ^ 8 / 2 ^ 8 / 2 ^ 8 / 2 ^ 8 / 2 ^ 8),
        low_byte (u64 v / 2 ^ 8 / 2 ^ 8 / 2 ^ 8 / 2 ^ 8 / 2 ^ 8 / 2 ^ 8 / 2 ^ 8),
      )
      (ground arith)

-- The state of a context that stands for a message of whole blocks.
whole_message :
    (c : Sha256Ctx) (m : List ℕ)
    → Hashing c m
    → length m % 64 ≡ 0
    → c.state ≡ sha256_blocks initial m (length m / 64)
whole_message c m (whole, [], e, h) w =
    let same : whole ≡ m = sym (append-nil whole) ∙ sym e in
    let k : h.blocks ≡ length m / 64 = omega (arith, h.size, ap length same) in
    h.chained
    ∙ ap (λ l. sha256_blocks initial l h.blocks) same
    ∙ ap (λ (t : ℕ). sha256_blocks initial m t) k
whole_message c m (whole, (x ∷ rest), e, h) w =
    absurd (omega (arith, h.size, h.short, ap length e, length-append whole (x ∷ rest)))

-- zupt_sha256_final on a context that stands for a message.
pub sha256_final-padded_digest :
    (c : Sha256Ctx) (m : List ℕ) → Hashing c m → sha256_final c ≡ padded_digest m
unfolding sha256_final be64
sha256_final-padded_digest c m h =
    let z = missing (length m) in
    let m1 = m ++ (0x80 ∷ []) in
    let c1 = sha256_update c (0x80 ∷ []) in
    let h1 = sha256_update-Hashing c m (0x80 ∷ []) h in
    let c2 = pad_zeros 63 c1 in
    let m2 = m1 ++ replicate z 0 in
    let h2 : Hashing c2 m2 =
      pad_zeros-Hashing 63 z c1 m1 h1 (omega arith) (omega arith)
        (omega (arith, length-append m (0x80 ∷ []))) in
    let len = length_bytes 8 (u64 (c.count * 8)) [] in
    let bits : u64 (c.count * 8) ≡ u64 (8 * length m) = omega (arith, counted c m h) in
    let len_eq : len ≡ be64 (8 * length m) =
      ap (λ (t : ℕ). length_bytes 8 t []) bits ∙ length_bytes-be64 (8 * length m) in
    let m3 = m2 ++ len in
    let h3 = sha256_update-Hashing c2 m2 len h2 in
    let padded : m3 ≡ m ++ padding m =
      ap (λ l. m2 ++ l) len_eq
      ∙ append_assoc m1 (replicate z 0) (be64 (8 * length m))
      ∙ append_assoc m (0x80 ∷ []) (replicate z 0 ++ be64 (8 * length m)) in
    let blocks : length m3 % 64 ≡ 0 = omega (
      arith,
      length-append m2 len,
      length-append m1 (replicate z 0),
      length-append m (0x80 ∷ []),
      length-replicate {A = ℕ} z 0,
      ap length len_eq,
    ) in
    ap put_words (whole_message (sha256_update c2 len) m3 h3 blocks)
    ∙ ap (λ l. put_words (sha256_blocks initial l (length l / 64))) padded

-- The calls of zupt_sha256_update with one piece after the other.
abbrev pub updates : Sha256Ctx → List (List ℕ) → Sha256Ctx
updates c [] = c
updates c (d ∷ pieces) = updates (sha256_update c d) pieces

abbrev pub concat : List (List ℕ) → List ℕ
concat [] = []
concat (d ∷ pieces) = d ++ concat pieces

updates-Hashing :
    (c : Sha256Ctx) (m : List ℕ) (pieces : List (List ℕ))
    → Hashing c m
    → Hashing (updates c pieces) (m ++ concat pieces)
updates-Hashing c m [] h = subst (λ l. Hashing c l) (sym (append-nil m)) h
updates-Hashing c m (d ∷ pieces) h =
    subst (λ l. Hashing (updates (sha256_update c d) pieces) l) (append_assoc m d (concat pieces))
      (updates-Hashing (sha256_update c d) (m ++ d) pieces (sha256_update-Hashing c m d h))

-- zupt_sha256 on a message at once.
pub sha256-padded_digest : (m : List ℕ) → sha256 m ≡ padded_digest m
unfolding sha256
sha256-padded_digest m =
    let start = sha256_init-Hashing (replicate 64 0) (length-replicate {A = ℕ} 64 0) in
    sha256_final-padded_digest _ m (sha256_update-Hashing (sha256_init (replicate 64 0)) [] m start)

-- However a message is cut into pieces, and whatever bytes the buffer of the context holds at first,
-- zupt_sha256_init, zupt_sha256_update for each piece and zupt_sha256_final yield what zupt_sha256
-- yields for the message at once.
pub sha256_final-updates :
    (buf : List ℕ) (pieces : List (List ℕ))
    → length buf ≡ 64
    → sha256_final (updates (sha256_init buf) pieces) ≡ sha256 (concat pieces)
sha256_final-updates buf pieces l =
    sha256_final-padded_digest _ (concat pieces)
      (updates-Hashing (sha256_init buf) [] pieces (sha256_init-Hashing buf l))
    ∙ sym (sha256-padded_digest (concat pieces))

length-add_words : (xs ys : List ℕ) → length (add_words xs ys) ≡ length xs
unfolding add_words
length-add_words [] ys = refl
length-add_words (x ∷ xs) [] = refl
length-add_words (x ∷ xs) (y ∷ ys) = ap suc (length-add_words xs ys)

length-sha256_transform : (s blk : List ℕ) → length (sha256_transform s blk) ≡ length s
unfolding sha256_transform
length-sha256_transform s blk = length-add_words s _

length-sha256_blocks : (s p : List ℕ) (k : ℕ) → length (sha256_blocks s p k) ≡ length s
unfolding sha256_blocks
length-sha256_blocks s p zero = refl
length-sha256_blocks s p (suc k) =
    length-sha256_blocks (sha256_transform s (take 64 p)) (drop 64 p) k
    ∙ length-sha256_transform s (take 64 p)

put_words-IsByte :
    (ws : List ℕ) → (length (put_words ws) ≡ 4 * length ws) × All IsByte (put_words ws)
unfolding put_words be32_put
put_words-IsByte [] = (omega arith, tt)
put_words-IsByte (w ∷ ws) =
    let (l, b) = put_words-IsByte ws in
    (omega arith, All-append IsByte (be32_put w) (put_words ws) (omega arith) b)

-- A digest has 32 bytes.
pub sha256-IsByte : (m : List ℕ) → (length (sha256 m) ≡ 32) × All IsByte (sha256 m)
sha256-IsByte m =
    let s = sha256_blocks initial (m ++ padding m) (length (m ++ padding m) / 64) in
    rw (sha256-padded_digest m) (
      (put_words-IsByte s).0
          ∙ ap (λ (t : ℕ). 4 * t) (length-sha256_blocks initial (m ++ padding m) _),
      (put_words-IsByte s).1,
    )
