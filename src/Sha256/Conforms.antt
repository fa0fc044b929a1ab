-- ===== src/Sha256/Conforms.antt =====
-- zupt-5.2.10/src/zupt_sha256.c computes the SHA-256 of FIPS 180-4.
use zupt_web.Base.{
  ℕ, zero, suc, ◌+◌, ◌-◌, ◌*◌, ◌/◌, ◌%◌, ◌≤◌, ◌≡◌, refl, ap, ap₂, ◌∙◌, subst, List, [], ◌∷◌, ◌++◌,
  length, get_or, take, drop, replicate, arith, All, IsByte, All-take, All-drop, All-append,
  drop-drop,
}
use zupt_web.Sha256.{
  k_table, initial, ch, maj, ep0, ep1, be32_put, block_words, schedule, rounds, add_words,
  sha256_transform, sha256_blocks, put_words, sha256,
}
use zupt_web.Sha256.Digest.{be64, padding, sha256-padded_digest}
use zupt_web.Sha256.Schedule.{Scheduled, schedule-Scheduled, block_words-Scheduled}
use zupt_web.Sha256.Standard.{
  constants, Vars, initial_hash, schedule_word, round, after_rounds, add_vars, hash_value, pad,
  word_bytes, fips_digest,
}

-- The table of the code has the fractional parts of the cube roots of the prime numbers.
k_table-constants : k_table ≡ constants
unfolding constants
k_table-constants = refl

div-one : (x : ℕ) → x / 1 ≡ x
div-one x = omega arith

-- The eight words of a hash value.
abbrev words : Vars → List ℕ
words v = v.a ∷ v.b ∷ v.c ∷ v.d ∷ v.e ∷ v.f ∷ v.g ∷ v.h ∷ []

initial-initial_hash : initial ≡ words initial_hash
initial-initial_hash = refl

-- The rounds from given variables on.
abbrev rounds_from : ℕ → ℕ → List ℕ → Vars → List ℕ
rounds_from left i w v = rounds left i w v.a v.b v.c v.d v.e v.f v.g v.h

rounds-round :
    (left i : ℕ) (w : List ℕ) (v : Vars)
    → rounds_from (suc left) i w v
      ≡ rounds_from left (i + 1) w (round (get_or k_table i 0) (get_or w i 0) v)
unfolding rounds round ep0 ep1 ch maj
rounds-round left i w v = refl

rounds-after_rounds :
    (block w : List ℕ) (left i : ℕ) (v : Vars)
    → Scheduled block w
    → i + left ≤ length w
    → rounds_from left i w (after_rounds block i v) ≡ words (after_rounds block (i + left) v)
rounds-after_rounds block w zero i v s l =
    unfold rounds in
    ap (λ (t : ℕ). words (after_rounds block t v)) {x = i} {y = i + 0} (omega arith)
rounds-after_rounds block w (suc left) i v s l =
    let u = after_rounds block i v in
    let one : round (get_or constants i 0) (schedule_word block i) u
        ≡ after_rounds block (suc i) v =
      unfold after_rounds in refl in
    let further =
      ap (rounds_from left (suc i) w) one
      ∙ rounds-after_rounds block w left (suc i) v s (omega arith) in
    rounds-round left i w u
    ∙ ap (λ ks. rounds_from left (i + 1) w (round (get_or ks i 0) (get_or w i 0) u))
        k_table-constants
    ∙ ap (λ x. rounds_from left (i + 1) w (round (get_or constants i 0) x u)) (s i (omega arith))
    ∙ ap (λ (n : ℕ). rounds_from left n w (round (get_or constants i 0) (schedule_word block i) u))
        {x = i + 1} {y = suc i} (omega arith)
    ∙ further
    ∙ ap (λ (t : ℕ). words (after_rounds block t v)) {x = suc i + left} {y = i + suc left}
        (omega arith)

rounds_all :
    (block w : List ℕ) (v : Vars)
    → Scheduled block w
    → 64 ≤ length w
    → rounds_from 64 0 w v ≡ words (after_rounds block 64 v)
rounds_all block w v s l =
    let first : v ≡ after_rounds block 0 v = unfold after_rounds in refl in
    ap (rounds_from 64 0 w) first ∙ rounds-after_rounds block w 64 0 v s (omega arith)

add_words-add_vars : (v u : Vars) → add_words (words v) (words u) ≡ words (add_vars v u)
unfolding add_words
add_words-add_vars v u = refl

transform-rounds_from :
    (block : List ℕ) (v : Vars)
    → sha256_transform (words v) block
      ≡ add_words (words v) (rounds_from 64 0 (schedule 48 16 (block_words 16 block)) v)
unfolding sha256_transform
transform-rounds_from block v = refl

sha256_transform-add_vars :
    (block : List ℕ) (v : Vars)
    → All IsByte block
    → sha256_transform (words v) block ≡ words (add_vars v (after_rounds block 64 v))
sha256_transform-add_vars block v h =
    let ws = block_words 16 block in
    let l : length ws ≡ 16 = unfold block_words in refl in
    let (n, s) =
      schedule-Scheduled block 48 ws (omega (arith, l)) (block_words-Scheduled block h) in
    let w = schedule 48 16 ws in
    let s' : Scheduled block w = subst (λ (i : ℕ). Scheduled block (schedule 48 i ws)) l s in
    let n' : length w ≡ length ws + 48 =
      subst (λ (i : ℕ). length (schedule 48 i ws) ≡ length ws + 48) l n in
    transform-rounds_from block v
    ∙ ap (add_words (words v)) (rounds_all block w v s' (omega (arith, l, n')))
    ∙ add_words-add_vars v (after_rounds block 64 v)

sha256_blocks-hash_value :
    (padded : List ℕ) (n i : ℕ)
    → All IsByte padded
    → sha256_blocks (words (hash_value padded i)) (drop (64 * i) padded) n
      ≡ words (hash_value padded (i + n))
unfolding sha256_blocks hash_value
sha256_blocks-hash_value padded zero i h =
    ap (λ (t : ℕ). words (hash_value padded t)) {x = i} {y = i + 0} (omega arith)
sha256_blocks-hash_value padded (suc n) i h =
    let block = take 64 (drop (64 * i) padded) in
    let bytes = All-take IsByte 64 _ (All-drop IsByte (64 * i) padded h) in
    let next : drop 64 (drop (64 * i) padded) ≡ drop (64 * suc i) padded =
      drop-drop (64 * i) 64 padded
      ∙ ap (λ (t : ℕ). drop t padded) {x = 64 * i + 64} {y = 64 * suc i} (omega arith) in
    ap₂ (λ s p. sha256_blocks s p n) (sha256_transform-add_vars block (hash_value padded i) bytes)
      next
    ∙ sha256_blocks-hash_value padded n (suc i) h
    ∙ ap (λ (t : ℕ). words (hash_value padded t)) {x = suc i + n} {y = i + suc n} (omega arith)

padding-pad : (m : List ℕ) → m ++ padding m ≡ pad m
unfolding be64
padding-pad m = rw div-one refl

put_words-word_bytes : (v : Vars) → put_words (words v) ≡ word_bytes v
unfolding put_words be32_put
put_words-word_bytes v =
    rw
      (
        div-one v.a,
        div-one v.b,
        div-one v.c,
        div-one v.d,
        div-one v.e,
        div-one v.f,
        div-one v.g,
        div-one v.h,
      )
      refl

zeros-IsByte : (n : ℕ) → All IsByte (replicate n 0)
zeros-IsByte zero = tt
zeros-IsByte (suc n) = (omega arith, zeros-IsByte n)

pad-IsByte : (m : List ℕ) → All IsByte m → All IsByte (pad m)
pad-IsByte m h = All-append IsByte m _ h (
  omega arith,
  All-append IsByte (replicate ((119 - length m % 64) % 64) 0) _ (zeros-IsByte _) (omega arith),
)

-- zupt_sha256 computes the digest that FIPS 180-4 defines of a message of bytes, the length of the
-- message in bits taken modulo 2^64. The constants are defined by the roots of prime numbers.
pub sha256-fips_digest : (m : List ℕ) → All IsByte m → sha256 m ≡ fips_digest m
unfolding fips_digest
sha256-fips_digest m h =
    let n = length (pad m) / 64 in
    let words_of = sha256_blocks-hash_value (pad m) n 0 (pad-IsByte m h) in
    sha256-padded_digest m
    ∙ ap (λ p. put_words (sha256_blocks initial p (length p / 64))) (padding-pad m)
    ∙ ap put_words words_of
    ∙ ap (λ (t : ℕ). put_words (words (hash_value (pad m) t))) {x = 0 + n} {y = n} (omega arith)
    ∙ put_words-word_bytes (hash_value (pad m) n)
