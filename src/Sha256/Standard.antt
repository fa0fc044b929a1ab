-- ===== src/Sha256/Standard.antt =====
-- SHA-256 as FIPS 180-4 defines it, without any function of the code. A message is a list of bytes, and
-- a word a number below 2^32.
use zupt_web.Base.{
  ℕ, zero, suc, ◌+◌, ◌-◌, ◌*◌, ◌/◌, ◌%◌, ◌^◌, ltb, leb, ◌==◌, if◌then◌else◌, Bool, false, ◌||◌,
  List, [], ◌∷◌, ◌++◌, map, length, get_or, take, drop, replicate, bit_and, bit_or, bit_xor,
}

-- Section 3.2: a rotation and a shift to the right.
abbrev pub rotate_right : ℕ → ℕ → ℕ
rotate_right n x = bit_or (x / 2 ^ n) (x * 2 ^ (32 - n) % 2 ^ 32)

abbrev pub shift_right : ℕ → ℕ → ℕ
shift_right n x = x / 2 ^ n

-- Section 4.1.2.
abbrev pub choose : ℕ → ℕ → ℕ → ℕ
choose x y z = bit_xor (bit_and x y) (bit_and (2 ^ 32 - 1 - x) z)

abbrev pub majority : ℕ → ℕ → ℕ → ℕ
majority x y z = bit_xor (bit_xor (bit_and x y) (bit_and x z)) (bit_and y z)

abbrev pub upper_sigma0 : ℕ → ℕ
upper_sigma0 x = bit_xor (bit_xor (rotate_right 2 x) (rotate_right 13 x)) (rotate_right 22 x)

abbrev pub upper_sigma1 : ℕ → ℕ
upper_sigma1 x = bit_xor (bit_xor (rotate_right 6 x) (rotate_right 11 x)) (rotate_right 25 x)

abbrev pub lower_sigma0 : ℕ → ℕ
lower_sigma0 x = bit_xor (bit_xor (rotate_right 7 x) (rotate_right 18 x)) (shift_right 3 x)

abbrev pub lower_sigma1 : ℕ → ℕ
lower_sigma1 x = bit_xor (bit_xor (rotate_right 17 x) (rotate_right 19 x)) (shift_right 10 x)

-- The largest `r` with `r ^ e ≤ n`, by its binary digits: those left, and those found.
abbrev pub root : ℕ → ℕ → ℕ → ℕ → ℕ
root e zero n found = found
root e (suc digits) n found =
    root e digits n (if leb ((found + 2 ^ digits) ^ e) n then found + 2 ^ digits else found)

-- The first 32 bits of the fractional part of the root of a small number.
abbrev pub fraction : ℕ → ℕ → ℕ
fraction e n = root e 35 (n * 2 ^ (32 * e)) 0 % 2 ^ 32

abbrev pub divided : ℕ → ℕ → Bool
divided zero n = false
divided (suc zero) n = false
divided (suc (suc d)) n = (n % suc (suc d) == 0) || divided (suc d) n

-- The prime numbers among `n`, `n + 1`, ... of which `count` are left.
abbrev pub primes : ℕ → ℕ → List ℕ
primes zero n = []
primes (suc count) n =
    let rest = primes count (n + 1) in if divided (n - 1) n then rest else n ∷ rest

-- Section 4.2.2: the first 64 prime numbers are those from 2 to 311.
unfoldable pub constants : List ℕ
constants = map (fraction 3) (primes 310 2)

-- The working variables, and the words of a hash value.
pub record Vars : Type 0 where
  pub a : ℕ
  pub b : ℕ
  pub c : ℕ
  pub d : ℕ
  pub e : ℕ
  pub f : ℕ
  pub g : ℕ
  pub h : ℕ

-- Section 5.3.3, for the first eight prime numbers.
abbrev pub initial_hash : Vars
initial_hash = record {
  a = fraction 2 2;
  b = fraction 2 3;
  c = fraction 2 5;
  d = fraction 2 7;
  e = fraction 2 11;
  f = fraction 2 13;
  g = fraction 2 17;
  h = fraction 2 19;
}

-- Section 5.2.1: the word `t` of a block.
abbrev pub message_word : List ℕ → ℕ → ℕ
message_word block t =
    let p = drop (4 * t) block in
    ((get_or p 0 0 * 256 + get_or p 1 0) * 256 + get_or p 2 0) * 256 + get_or p 3 0

-- Section 6.2.2, step 1: the word `t` of the schedule. `past` holds the words before it, the last one
-- first.
unfoldable pub next_word : List ℕ → ℕ → List ℕ → ℕ
next_word block t past =
    if ltb t 16
    then message_word block t
    else (lower_sigma1 (get_or past 1 0)
        + get_or past 6 0
        + lower_sigma0 (get_or past 14 0)
        + get_or past 15 0)
      % 2 ^ 32

unfoldable pub past_words : List ℕ → ℕ → List ℕ
unfolding next_word
past_words block zero = []
past_words block (suc t) = let past = past_words block t in next_word block t past ∷ past

unfoldable pub schedule_word : List ℕ → ℕ → ℕ
unfolding next_word past_words
schedule_word block t = next_word block t (past_words block t)

-- Step 3: one round under the constant `k` and the word `w`.
unfoldable pub round : ℕ → ℕ → Vars → Vars
round k w v =
    let t1 = (v.h + upper_sigma1 v.e + choose v.e v.f v.g + k + w) % 2 ^ 32 in
    let t2 = (upper_sigma0 v.a + majority v.a v.b v.c) % 2 ^ 32 in
    record {
      a = (t1 + t2) % 2 ^ 32;
      b = v.a;
      c = v.b;
      d = v.c;
      e = (v.d + t1) % 2 ^ 32;
      f = v.e;
      g = v.f;
      h = v.g;
    }

-- The working variables behind the rounds 0, ..., t - 1.
unfoldable pub after_rounds : List ℕ → ℕ → Vars → Vars
unfolding constants schedule_word round
after_rounds block zero v = v
after_rounds block (suc t) v =
    round (get_or constants t 0) (schedule_word block t) (after_rounds block t v)

-- Step 4.
abbrev pub add_vars : Vars → Vars → Vars
add_vars v w = record {
  a = (v.a + w.a) % 2 ^ 32;
  b = (v.b + w.b) % 2 ^ 32;
  c = (v.c + w.c) % 2 ^ 32;
  d = (v.d + w.d) % 2 ^ 32;
  e = (v.e + w.e) % 2 ^ 32;
  f = (v.f + w.f) % 2 ^ 32;
  g = (v.g + w.g) % 2 ^ 32;
  h = (v.h + w.h) % 2 ^ 32;
}

-- The hash value behind the first `i` blocks.
unfoldable pub hash_value : List ℕ → ℕ → Vars
unfolding after_rounds
hash_value padded zero = initial_hash
hash_value padded (suc i) =
    let before = hash_value padded i in
    add_vars before (after_rounds (take 64 (drop (64 * i) padded)) 64 before)

-- The bytes of a number, the highest one first.
abbrev pub number_bytes : ℕ → ℕ → List ℕ
number_bytes zero v = []
number_bytes (suc n) v = v / 2 ^ (8 * n) % 256 ∷ number_bytes n v

-- Section 5.1.1: the bit 1, zeros up to 8 bytes from the end of a block, and the length in bits.
abbrev pub pad : List ℕ → List ℕ
pad m = m ++ (0x80 ∷ (replicate ((119 - length m % 64) % 64) 0 ++ number_bytes 8 (8 * length m)))

abbrev pub word_bytes : Vars → List ℕ
word_bytes v =
    number_bytes 4 v.a
    ++ (number_bytes 4 v.b
        ++ (number_bytes 4 v.c
            ++ (number_bytes 4 v.d
                ++ (number_bytes 4 v.e
                    ++ (number_bytes 4 v.f ++ (number_bytes 4 v.g ++ number_bytes 4 v.h))))))

-- The digest of a message, whose length in bits is taken modulo 2^64.
unfoldable pub fips_digest : List ℕ → List ℕ
unfolding hash_value
fips_digest m = word_bytes (hash_value (pad m) (length (pad m) / 64))
