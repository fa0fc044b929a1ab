-- ===== src/Lz/Match.antt =====
-- lz_find_match: whatever the hash table and the chain hold, what it returns is a match.
use zupt_web.Base.{
  ℕ, zero, suc, ◌+◌, ◌-◌, ◌%◌, ◌^◌, ◌≤◌, ◌<◌, ◌≡◌, ◌⊎◌, refl, arith, ltb, leb, ◌==◌, ◌||◌,
  if◌then◌else◌, if_rule, &&-right, ltb→lt, leb→le, inl, inr, List, length, get_or, u64,
}
use zupt_web.Lz.{min_match, max_offset, window_size, Table, hash4, match_run, find_loop, find_match}

-- `len` bytes at `ip` repeat those `off` bytes before, and the three numbers fit the format.
pub record IsMatch (src : List ℕ) (ip len off : ℕ) : Type 0 where
  pub long : min_match ≤ len
  pub short : len ≤ 65535
  pub inside : ip + len ≤ length src
  pub back : 1 ≤ off
  pub reach : off ≤ ip
  pub window : off ≤ max_offset
  pub same : (k : ℕ) → k < len → get_or src (ip - off + k) 0 ≡ get_or src (ip + k) 0

match_run-le : (src : List ℕ) (r a b : ℕ) → match_run src r a b ≤ r
unfolding match_run
match_run-le src zero a b = omega arith
match_run-le src (suc r) a b = ground (arith, match_run-le src r (a + 1) (b + 1))

match_run_same :
    (src : List ℕ) (r a b k : ℕ)
    → k < match_run src r a b
    → get_or src (a + k) 0 ≡ get_or src (b + k) 0
unfolding match_run
match_run_same src zero a b k h = absurd (omega arith)
match_run_same src (suc r) a b zero h =
    let ea : a + 0 ≡ a = omega arith in
    let eb : b + 0 ≡ b = omega arith in rw (ea, eb) (ground arith)
match_run_same src (suc r) a b (suc k) h =
    let ea : a + suc k ≡ a + 1 + k = omega arith in
    let eb : b + suc k ≡ b + 1 + k = omega arith in
    rw (ea, eb) (match_run_same src r (a + 1) (b + 1) k (ground arith))

-- What the walk holds: the initial length, or a match.
abbrev Found : List ℕ → ℕ → ℕ × ℕ → Type 0
Found src ip p = (p.0 ≡ min_match - 1) ⊎ IsMatch src ip p.0 p.1

capped-le : (n : ℕ) → (if ltb 65535 n then 65535 else n) ≤ n
capped-le n = ground arith

capped-le_max : (n : ℕ) → (if ltb 65535 n then 65535 else n) ≤ 65535
capped-le_max n = ground arith

-- A run that beats the best one so far is a match at a distance that is in the window.
run-IsMatch :
    (src : List ℕ) (ip ref best_len : ℕ)
    → ip ≤ length src
    → ip < 2 ^ 31
    → ref < 2 ^ 31
    → 2 ≤ best_len
    → u64 (ip + 2 ^ 64 - ref) ≤ max_offset
    → 0 < u64 (ip + 2 ^ 64 - ref)
    → (rounds : ℕ) → rounds ≤ length src - ip
    → rounds ≤ 65535
    → best_len < match_run src rounds ref ip
    → IsMatch src ip (match_run src rounds ref ip) (u64 (ip + 2 ^ 64 - ref))
run-IsMatch src ip ref best_len hi hw hr h2 hd h0 rounds hm hx hb =
    let le = match_run-le src rounds ref ip in
    let from : ip - u64 (ip + 2 ^ 64 - ref) ≡ ref = omega arith in
    record {
      long = omega arith;
      short = omega arith;
      inside = omega arith;
      back = h0;
      reach = omega arith;
      window = hd;
      same = λ k h. rw from (match_run_same src rounds ref ip k h);
    }

Found-least : {src : List ℕ} {ip : ℕ} (p : ℕ × ℕ) → Found src ip p → 2 ≤ p.0
Found-least p (inl e) = omega arith
Found-least p (inr m) = let l = m.long in omega arith

find_loop-Found :
    (src : List ℕ) (ip : ℕ) (chain : Table) (rounds ref best_len best_off : ℕ)
    → ip ≤ length src
    → ip < 2 ^ 31
    → Found src ip (best_len, best_off)
    → Found src ip (find_loop src ip chain rounds ref best_len best_off)
unfolding find_loop
find_loop-Found src ip chain zero ref best_len best_off hi hw f = f
find_loop-Found src ip chain (suc rounds) ref best_len best_off hi hw f =
    let dist = u64 (ip + 2 ^ 64 - ref) in
    let cap = if ltb 65535 (length src - ip) then 65535 else length src - ip in
    let mlen = match_run src cap ref ip in
    let next = chain (ref % window_size) in
    if_rule (Found src ip) (leb (2 ^ 31) ref) (λ _. f)
      λ neg.
        if_rule (Found src ip) (ltb max_offset dist || (dist == 0)) (λ _. f)
          λ far.
            if_rule (Found src ip) _
              (λ better.
                let m : IsMatch src ip mlen dist =
                  run-IsMatch src ip ref best_len hi hw (ground arith)
                    (Found-least (best_len, best_off) f) (ground arith) (ground arith) cap
                    (capped-le (length src - ip)) (capped-le_max (length src - ip))
                    (ltb→lt _ _ (&&-right _ _ better)) in
                if_rule (Found src ip) (leb 256 mlen) (λ _. inr m)
                  λ _. find_loop-Found src ip chain rounds next mlen dist hi hw (inr m))
              (λ _. find_loop-Found src ip chain rounds next best_len best_off hi hw f)

-- Whatever the hash table and the chain hold, lz_find_match returns 0 or a match: `len` bytes that
-- repeat those `off` bytes before, inside the input and within the window. The input is shorter than
-- 2^31 bytes, as the `int32_t` positions want.
pub find_match-IsMatch :
    (src : List ℕ) (ip : ℕ) (hash_table chain : Table) (max_chain : ℕ)
    → length src < 2 ^ 31
    → let (len, off) = find_match src ip hash_table chain max_chain in
      (len ≡ 0) ⊎ IsMatch src ip len off
unfolding find_match
find_match-IsMatch src ip hash_table chain max_chain hw =
    let best = find_loop src ip chain max_chain (hash_table (hash4 src ip)) (min_match - 1) 0 in
    if_rule Answer (ltb (length src) (ip + 4)) (λ _. inl refl)
      λ fits.
        let found : Found src ip best =
          find_loop-Found src ip chain max_chain (hash_table (hash4 src ip)) (min_match - 1) 0
            (ground arith) (ground arith) (inl refl) in
        if_rule Answer (leb min_match best.0)
          (λ long. elim found [
            | inl e ↦ absurd (omega (arith, leb→le min_match best.0 long))
            | inr m ↦ inr m
          ])
          (λ _. inl refl)
  where
    Answer : ℕ × ℕ → Type 0
    Answer p = (p.0 ≡ 0) ⊎ IsMatch src ip p.0 p.1
