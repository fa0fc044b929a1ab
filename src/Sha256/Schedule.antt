-- ===== src/Sha256/Schedule.antt =====
-- The message schedule of zupt-5.2.10/src/zupt_sha256.c against that of FIPS 180-4.
use zupt_web.Base.{
  ℕ, zero, suc, ◌+◌, ◌-◌, ◌*◌, ◌^◌, ◌≤◌, ◌<◌, ltb, false, true, Bool-cases, inl, inr, ◌≡◌, refl,
  sym, ap, ◌∙◌, subst, List, [], ◌∷◌, ◌++◌, length, get_or, drop, length-append, arith, All, IsByte,
  All-drop, drop-drop, bit_or, u32, ◌<<<◌,
}
use zupt_web.Base.Bits.{bit_or_disjoint'}
use zupt_web.Sha256.{sg0, sg1, be32, block_words, schedule}
use zupt_web.Sha256.Standard.{message_word, next_word, past_words, schedule_word}

-- The words before the word `t`, the last one first.
past_words-schedule_word :
    (block : List ℕ) (t j : ℕ)
    → j < t
    → get_or (past_words block t) j 0 ≡ schedule_word block (t - 1 - j)
unfolding past_words schedule_word
past_words-schedule_word block zero j h = absurd (omega arith)
past_words-schedule_word block (suc t) zero h = ap (schedule_word block) (omega arith)
past_words-schedule_word block (suc t) (suc j) h =
    past_words-schedule_word block t j (omega arith) ∙ ap (schedule_word block) (omega arith)

get_or-front :
    (w : List ℕ) (x : ℕ) (t : ℕ) → t < length w → get_or (w ++ (x ∷ [])) t 0 ≡ get_or w t 0
get_or-front [] x t h = absurd (omega arith)
get_or-front (y ∷ w) x zero h = refl
get_or-front (y ∷ w) x (suc t) h = get_or-front w x t (omega arith)

get_or-back : (w : List ℕ) (x : ℕ) → get_or (w ++ (x ∷ [])) (length w) 0 ≡ x
get_or-back [] x = refl
get_or-back (y ∷ w) x = get_or-back w x

-- These words are the first of the schedule.
abbrev pub Scheduled : List ℕ → List ℕ → Type 0
Scheduled block w = (t : ℕ) → t < length w → get_or w t 0 ≡ schedule_word block t

-- The next word of the code is the next word of the schedule.
next_word-word :
    (block w : List ℕ)
    → 16 ≤ length w
    → Scheduled block w
    → let i = length w in
      u32 (
        sg1 (get_or w (i - 2) 0)
        + get_or w (i - 7) 0
        + sg0 (get_or w (i - 15) 0)
        + get_or w (i - 16) 0)
      ≡ schedule_word block i
unfolding sg0 sg1 next_word schedule_word
next_word-word block w h s =
    let i = length w in
    let past = past_words block i in
    let later : ltb i 16 ≡ false = ground arith in
    let back : (j : ℕ) → j < 16 → get_or past j 0 ≡ get_or w (i - suc j) 0 = λ j l.
      past_words-schedule_word block i j (omega arith)
      ∙ ap (schedule_word block) (omega arith)
      ∙ sym (s (i - suc j) (omega arith)) in
    rw
      (
        later,
        back 1 (omega arith),
        back 6 (omega arith),
        back 14 (omega arith),
        back 15 (omega arith),
      )
      refl

Scheduled-next :
    (block w : List ℕ) (x : ℕ)
    → Scheduled block w
    → x ≡ schedule_word block (length w)
    → Scheduled block (w ++ (x ∷ []))
Scheduled-next block w x s e t h = elim (Bool-cases (ltb t (length w))) [
  | inl l ↦ get_or-front w x t (ground arith) ∙ s t (ground arith)
  | inr l ↦
      let last : t ≡ length w = ground (arith, length-append w (x ∷ [])) in
      ap (λ (n : ℕ). get_or (w ++ (x ∷ [])) n 0) last
      ∙ get_or-back w x
      ∙ e
      ∙ ap (schedule_word block) (sym last)
]

pub schedule-Scheduled :
    (block : List ℕ) (r : ℕ) (w : List ℕ)
    → 16 ≤ length w
    → Scheduled block w
    → (length (schedule r (length w) w) ≡ length w + r) × Scheduled block (schedule r (length w) w)
unfolding schedule
schedule-Scheduled block zero w h s = (omega arith, s)
schedule-Scheduled block (suc r) w h s =
    let x = u32 (
      sg1 (get_or w (length w - 2) 0)
      + get_or w (length w - 7) 0
      + sg0 (get_or w (length w - 15) 0)
      + get_or w (length w - 16) 0) in
    let w' = w ++ (x ∷ []) in
    let l : length w' ≡ length w + 1 = length-append w (x ∷ []) in
    let (n, more) =
      schedule-Scheduled block r w' (omega (arith, l))
        (Scheduled-next block w x s (next_word-word block w h s)) in
    subst
      (λ (i : ℕ). (length (schedule r i w') ≡ length w + suc r) × Scheduled block (schedule r i w'))
      l (omega (arith, n, l), more)

get_or-lt : (p : List ℕ) (i : ℕ) → All IsByte p → get_or p i 0 < 256
get_or-lt [] i h = omega arith
get_or-lt (x ∷ p) zero h = h.0
get_or-lt (x ∷ p) (suc i) h = get_or-lt p i h.1

be32-number :
    (p : List ℕ)
    → All IsByte p
    → be32 p ≡ ((get_or p 0 0 * 256 + get_or p 1 0) * 256 + get_or p 2 0) * 256 + get_or p 3 0
unfolding be32
be32-number p h =
    let a = get_or p 0 0 in
    let b = get_or p 1 0 in
    let c = get_or p 2 0 in
    let d = get_or p 3 0 in
    let hb = get_or-lt p 1 h in
    let hc = get_or-lt p 2 h in
    let hd = get_or-lt p 3 h in
    let e1 : bit_or (a <<< 24) (b <<< 16) ≡ (a * 256 + b) * 2 ^ 16 =
      bit_or_disjoint' 24 a (b * 2 ^ 16) (omega arith) ∙ omega arith in
    let e2 : bit_or ((a * 256 + b) * 2 ^ 16) (c <<< 8) ≡ ((a * 256 + b) * 256 + c) * 2 ^ 8 =
      bit_or_disjoint' 16 (a * 256 + b) (c * 2 ^ 8) (omega arith) ∙ omega arith in
    ap (λ (x : ℕ). bit_or (bit_or x (c <<< 8)) d) e1
    ∙ ap (λ (x : ℕ). bit_or x d) e2
    ∙ bit_or_disjoint' 8 ((a * 256 + b) * 256 + c) d hd

block_words-message_word :
    (block : List ℕ) (n t k : ℕ)
    → All IsByte block
    → t < n
    → get_or (block_words n (drop (4 * k) block)) t 0 ≡ message_word block (k + t)
unfolding block_words
block_words-message_word block zero t k h l = absurd (omega arith)
block_words-message_word block (suc n) zero k h l =
    be32-number (drop (4 * k) block) (All-drop IsByte (4 * k) block h)
    ∙ ap (message_word block) {x = k} {y = k + 0} (omega arith)
block_words-message_word block (suc n) (suc t) k h l =
    let next : drop 4 (drop (4 * k) block) ≡ drop (4 * suc k) block =
      drop-drop (4 * k) 4 block
      ∙ ap (λ (m : ℕ). drop m block) {x = 4 * k + 4} {y = 4 * suc k} (omega arith) in
    ap (λ p. get_or (block_words n p) t 0) next
    ∙ block_words-message_word block n t (suc k) h (omega arith)
    ∙ ap (message_word block) {x = suc k + t} {y = k + suc t} (omega arith)

pub block_words-Scheduled :
    (block : List ℕ) → All IsByte block → Scheduled block (block_words 16 block)
unfolding block_words schedule_word next_word
block_words-Scheduled block h t l =
    let first : ltb t 16 ≡ true = ground arith in
    block_words-message_word block 16 t 0 h l
    ∙ ap (message_word block) {x = 0 + t} {y = t} (omega arith)
    ∙ rw first refl
