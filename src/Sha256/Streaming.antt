-- ===== src/Sha256/Streaming.antt =====
-- SHA-256 in pieces: what a context of zupt-5.2.10/src/zupt_sha256.c stands for, and the digest that
-- FIPS 180-4 defines.
use zupt_web.Base.{
  ℕ, zero, suc, ◌+◌, ◌-◌, ◌*◌, ◌/◌, ◌%◌, ◌≤◌, ◌<◌, min, ltb, leb, ◌==◌, Bool-cases, true, false,
  ◌≡◌, refl, sym, ap, ◌∙◌, subst, inl, inr, List, [], ◌∷◌, ◌++◌, append_assoc, append-nil, length,
  take, drop, length-append, length-take, length-drop, take_all, take-append, take-append-drop,
  arith, u64,
}
use native.Mathlib.Nat.{add-zero, zero-add, suc-add}
use zupt_web.Sha256.{
  Sha256Ctx, initial, sha256_init, sha256_blocks, sha256_transform, write, top_up, bulk, keep,
  absorb, sha256_update,
}

module _ {ℓ} {A : Type ℓ} where
  take-append_within : (n : ℕ) (xs ys : List A) → n ≤ length xs → take n (xs ++ ys) ≡ take n xs
  take-append_within zero xs ys h = refl
  take-append_within (suc n) [] ys h = absurd (omega arith)
  take-append_within (suc n) (x ∷ xs) ys h =
      ap (λ l. x ∷ l) (take-append_within n xs ys (omega arith))

  drop-append_within :
      (n : ℕ) (xs ys : List A) → n ≤ length xs → drop n (xs ++ ys) ≡ drop n xs ++ ys
  drop-append_within zero xs ys h = refl
  drop-append_within (suc n) [] ys h = absurd (omega arith)
  drop-append_within (suc n) (x ∷ xs) ys h = drop-append_within n xs ys (omega arith)

  nothing : (xs : List A) → length xs ≡ 0 → xs ≡ []
  nothing [] h = refl
  nothing (x ∷ xs) h = absurd (omega arith)

-- Whole blocks one list after the other.
blocks_append :
    (s a b : List ℕ) (k j : ℕ)
    → length a ≡ k * 64
    → sha256_blocks s (a ++ b) (k + j) ≡ sha256_blocks (sha256_blocks s a k) b j
unfolding sha256_blocks
blocks_append s [] b zero j h = rw zero-add refl
blocks_append s (x ∷ a) b zero j h = absurd (omega arith)
blocks_append s a b (suc k) j h =
    ap (λ (t : ℕ). sha256_blocks s (a ++ b) t) (suc-add k j)
    ∙ ap (λ l. sha256_blocks (sha256_transform s l) (drop 64 (a ++ b)) (k + j))
        (take-append_within 64 a b (omega arith))
    ∙ ap (λ l. sha256_blocks (sha256_transform s (take 64 a)) l (k + j))
        (drop-append_within 64 a b (omega arith))
    ∙ blocks_append (sha256_transform s (take 64 a)) (drop 64 a) b k j
        (omega (arith, length-drop 64 a))

blocks_take :
    (s d : List ℕ) (n : ℕ)
    → n * 64 ≤ length d
    → sha256_blocks s (take (n * 64) d) n ≡ sha256_blocks s d n
unfolding sha256_blocks
blocks_take s d n h =
    sym (
      blocks_append s (take (n * 64) d) (drop (n * 64) d) n 0
        (omega (arith, length-take (n * 64) d)))
    ∙ ap (λ (t : ℕ). sha256_blocks s (take (n * 64) d ++ drop (n * 64) d) t) (add-zero n)
    ∙ ap (λ l. sha256_blocks s l n) (take-append-drop (n * 64) d)

length-write :
    (buf : List ℕ) (off : ℕ) (d : List ℕ)
    → off + length d ≤ length buf
    → length (write buf off d) ≡ length buf
unfolding write
length-write buf off d h = omega (
  arith,
  length-append (take off buf) (d ++ drop (off + length d) buf),
  length-append d (drop (off + length d) buf),
  length-take off buf,
  length-drop (off + length d) buf,
)

take-write :
    (buf : List ℕ) (off : ℕ) (d : List ℕ)
    → off + length d ≤ length buf
    → take (off + length d) (write buf off d) ≡ take off buf ++ d
unfolding write
take-write buf off d h =
    let behind = drop (off + length d) buf in
    ap (λ l. take (off + length d) l) (sym (append_assoc (take off buf) d behind))
    ∙ take-append (off + length d) (take off buf ++ d) behind
        (omega (arith, length-append (take off buf) d, length-take off buf))

-- The context has taken in the whole blocks `whole`, and holds the bytes `rest` behind them.
pub record Absorbed (c : Sha256Ctx) (whole rest : List ℕ) : Type 0 where
  pub blocks : ℕ
  pub size : length whole ≡ blocks * 64
  pub short : length rest < 64
  pub counted : c.count ≡ u64 (length whole + length rest)
  pub room : length c.buf ≡ 64
  pub held : take (length rest) c.buf ≡ rest
  pub chained : c.state ≡ sha256_blocks initial whole blocks

offset : (c : Sha256Ctx) (whole rest : List ℕ) → Absorbed c whole rest → c.count % 64 ≡ length rest
offset c whole rest h = omega (arith, h.size, h.short, h.counted)

-- A context that stands for the message `m`: SHA-256 began with the initial state and took in `m`.
abbrev pub Hashing : Sha256Ctx → List ℕ → Type 0
Hashing c m = (whole : List ℕ) × (rest : List ℕ) × (m ≡ whole ++ rest) × Absorbed c whole rest

keep-Absorbed :
    (c : Sha256Ctx) (whole d : List ℕ)
    → Absorbed c whole []
    → length d < 64
    → Absorbed (keep c d) whole d
unfolding keep
keep-Absorbed c whole [] h s = h
keep-Absorbed c whole (x ∷ d) h s =
    let some_bytes : ltb 0 (length (x ∷ d)) ≡ true = ground arith in
    let kept : Absorbed
        (record c { count = u64 (c.count + length (x ∷ d)); buf = write c.buf 0 (x ∷ d) }) whole
        (x ∷ d) =
      record {
        blocks = h.blocks;
        size = h.size;
        short = s;
        counted = omega (arith, h.counted, h.size);
        room = length-write c.buf 0 (x ∷ d) (omega (arith, h.room)) ∙ h.room;
        held =
            ap (λ (t : ℕ). take t (write c.buf 0 (x ∷ d))) (sym (zero-add (length (x ∷ d))))
            ∙ take-write c.buf 0 (x ∷ d) (omega (arith, h.room));
        chained = h.chained;
      } in
    rw some_bytes kept

absorb-Absorbed :
    (c : Sha256Ctx) (whole d : List ℕ) → Absorbed c whole [] → Hashing (absorb c d) (whole ++ d)
unfolding absorb bulk
absorb-Absorbed c whole d h = elim (Bool-cases (leb 64 (length d))) [
  | inl t ↦
      let full = length d / 64 in
      let blocks = take (full * 64) d in
      let rest = drop (full * 64) d in
      let some_blocks : leb 64 (length d) ≡ true = t in
      let n : full * 64 ≤ length d = omega arith in
      let k : length blocks ≡ full * 64 = omega (arith, length-take (full * 64) d) in
      let all : Absorbed
          (record c { state = sha256_blocks c.state d full; count = u64 (c.count + full * 64) })
          (whole ++ blocks) [] =
        record {
          blocks = h.blocks + full;
          size = omega (arith, length-append whole blocks, h.size);
          short = omega arith;
          counted = omega (arith, length-append whole blocks, h.counted);
          room = h.room;
          held = refl;
          chained =
              ap (λ s. sha256_blocks s d full) h.chained
              ∙ sym (blocks_take (sha256_blocks initial whole h.blocks) d full n)
              ∙ sym (blocks_append initial whole blocks h.blocks full h.size);
        } in
      rw t (
        whole ++ blocks,
        rest,
        ap (λ l. whole ++ l) (sym (take-append-drop (full * 64) d))
            ∙ sym (append_assoc whole blocks rest),
        keep-Absorbed _ (whole ++ blocks) rest all (omega (arith, length-drop (full * 64) d)),
      )
  | inr f ↦ rw f (whole, d, refl, keep-Absorbed c whole d h (ground arith))
]

top_up-partial :
    (c : Sha256Ctx) (whole rest d : List ℕ)
    → Absorbed c whole rest
    → length rest + length d < 64
    → 0 < length rest
    → Absorbed (top_up c (length rest) d) whole (rest ++ d)
unfolding top_up
top_up-partial c whole rest d h s p =
    let off = offset c whole rest h in
    let not_full : (u64 (c.count + length d) % 64 == 0) ≡ false = ground (arith, h.size) in
    record {
      blocks = h.blocks;
      size = h.size;
      short = omega (arith, length-append rest d);
      counted = omega (arith, h.counted, length-append rest d);
      room = length-write c.buf (length rest) d (omega (arith, h.room)) ∙ h.room;
      held =
          ap (λ (t : ℕ). take t (write c.buf (length rest) d)) (length-append rest d)
          ∙ take-write c.buf (length rest) d (omega (arith, h.room))
          ∙ ap (λ l. l ++ d) h.held;
      chained = rw not_full h.chained;
    }

top_up-full :
    (c : Sha256Ctx) (whole rest d : List ℕ)
    → Absorbed c whole rest
    → length rest + length d ≡ 64
    → Absorbed (top_up c (length rest) d) (whole ++ (rest ++ d)) []
unfolding top_up
top_up-full c whole rest d h s =
    let off = offset c whole rest h in
    let full : (u64 (c.count + length d) % 64 == 0) ≡ true = ground (arith, h.size) in
    let buf = write c.buf (length rest) d in
    let len : length buf ≡ 64 =
      length-write c.buf (length rest) d (omega (arith, h.room)) ∙ h.room in
    let block : buf ≡ rest ++ d =
      sym (take_all (length rest + length d) buf (omega arith))
      ∙ take-write c.buf (length rest) d (omega (arith, h.room))
      ∙ ap (λ l. l ++ d) h.held in
    record {
      blocks = h.blocks + 1;
      size = omega (arith, h.size, length-append whole (rest ++ d), length-append rest d);
      short = omega arith;
      counted = omega (arith, h.counted, length-append whole (rest ++ d), length-append rest d);
      room = len;
      held = refl;
      chained = rw full (
          ap (λ s. sha256_blocks s buf 1) h.chained
          ∙ ap (λ l. sha256_blocks (sha256_blocks initial whole h.blocks) l 1) block
          ∙ sym (blocks_append initial whole (rest ++ d) h.blocks 1 h.size));
    }

topped :
    (c : Sha256Ctx) (whole rest d : List ℕ)
    → Absorbed c whole rest
    → 0 < length rest
    → let chunk = min (64 - length rest) (length d) in
      Hashing (absorb (top_up c (length rest) (take chunk d)) (drop chunk d)) (whole ++ (rest ++ d))
unfolding absorb bulk keep
topped c whole rest d h p =
    let chunk = min (64 - length rest) (length d) in
    let len : length (take chunk d) ≡ chunk = omega (arith, length-take chunk d) in
    let parts : rest ++ d ≡ (rest ++ take chunk d) ++ drop chunk d =
      ap (λ l. rest ++ l) (sym (take-append-drop chunk d))
      ∙ sym (append_assoc rest (take chunk d) (drop chunk d)) in
    elim (Bool-cases (ltb (length rest + length d) 64)) [
      | inl t ↦
          let small : ltb (length rest + length d) 64 ≡ true = t in
          let end : drop chunk d ≡ [] =
            nothing (drop chunk d) (ground (arith, length-drop chunk d)) in
          let whole_chunk : take chunk d ≡ d = take_all chunk d (ground arith) in
          rw (end, whole_chunk)
            (whole, rest ++ d, refl, top_up-partial c whole rest d h (ground arith) p)
      | inr f ↦
          let s : length rest + length (take chunk d) ≡ 64 = ground (arith, h.short) in
          let full = top_up-full c whole rest (take chunk d) h s in
          subst (λ m. Hashing (absorb (top_up c (length rest) (take chunk d)) (drop chunk d)) m)
            (append_assoc whole (rest ++ take chunk d) (drop chunk d)
              ∙ ap (λ l. whole ++ l) (sym parts))
            (absorb-Absorbed _ (whole ++ (rest ++ take chunk d)) (drop chunk d) full)
    ]

-- zupt_sha256_update takes a context that stands for a message to one that stands for the message with
-- the bytes of the call behind it.
pub sha256_update-Hashing :
    (c : Sha256Ctx) (m d : List ℕ) → Hashing c m → Hashing (sha256_update c d) (m ++ d)
unfolding sha256_update
sha256_update-Hashing c m d (whole, [], e, h) =
    let off : c.count % 64 ≡ 0 = offset c whole [] h in
    let same : whole ++ d ≡ m ++ d = ap (λ l. l ++ d) (sym (e ∙ append-nil whole)) in
    rw off (subst (λ l. Hashing (absorb c d) l) same (absorb-Absorbed c whole d h))
sha256_update-Hashing c m d (whole, (x ∷ rest), e, h) =
    let off : c.count % 64 ≡ length (x ∷ rest) = offset c whole (x ∷ rest) h in
    let chunk = min (64 - length (x ∷ rest)) (length d) in
    let partial : (length (x ∷ rest) == 0) ≡ false = ground arith in
    let same : whole ++ ((x ∷ rest) ++ d) ≡ m ++ d =
      sym (append_assoc whole (x ∷ rest) d) ∙ ap (λ l. l ++ d) (sym e) in
    rw (off, partial)
      (subst (λ l. Hashing (absorb (top_up c (length (x ∷ rest)) (take chunk d)) (drop chunk d)) l)
        same (topped c whole (x ∷ rest) d h (omega arith)))

pub sha256_init-Hashing : (buf : List ℕ) → length buf ≡ 64 → Hashing (sha256_init buf) []
unfolding sha256_init sha256_blocks
sha256_init-Hashing buf l = (
  [],
  [],
  refl,
  record {
    blocks = 0;
    size = omega arith;
    short = omega arith;
    counted = omega arith;
    room = l;
    held = refl;
    chained = refl;
  },
)
