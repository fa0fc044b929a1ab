-- ===== src/Lz.antt =====
-- zupt-5.2.10/src/zupt_lz.c, the ZUPT-LZ codec (0x0008): a byte-oriented LZ77 with hash chains.
-- The input buffer is the list of its bytes, and the output buffer the list of the bytes written so
-- far, whose length is `op`: both routines only ever append. The decompressor's `ip` is the list of
-- the bytes still ahead. `malloc` says which requests the allocator grants; `calloc` asks it too. `hash_table` and `chain` are
-- functions from an index to the bit pattern of the `int32_t` stored there.
pub mod Safety
pub mod Match
pub mod Lengths
pub mod Decode
pub mod Emit
pub mod Step
pub mod RoundTrip
mod Tests
use zupt_web.Base.{
  ℕ, zero, suc, ◌+◌, ◌-◌, ◌*◌, ◌/◌, ◌%◌, ◌^◌, bit_and, bit_or, ltb, leb, ◌==◌, if◌then◌else◌, Bool,
  true, false, not, ◌&&◌, ◌||◌, Option, none, some, List, [], ◌∷◌, ◌++◌, length, get_elem?, get_or,
  take, drop, u8, u32, u64, ◌<<<◌, ◌>>>◌,
}
use zupt_web.Base.Outcome.{Outcome, done, fail, fault, hang, ◌>>=◌}
use zupt_web.Wire.{le32_get}

abbrev pub min_match : ℕ
min_match = 3

abbrev pub max_offset : ℕ
max_offset = 65535

abbrev pub window_size : ℕ
window_size = 65535

abbrev pub hash_size : ℕ
hash_size = 2 ^ 18

-- `memcpy(&v, p, 4)` on a little-endian host; the value only selects a hash bucket.
unfoldable pub hash4 : List ℕ → ℕ → ℕ
unfolding le32_get
hash4 src ip = u32 (le32_get (drop ip src) * 2654435761) >>> 14

-- The first argument is the room left in `dst`, `cap - w`.
unfoldable pub write_extra : ℕ → ℕ → List ℕ
write_extra zero len = []
write_extra (suc room) len =
    let rest = write_extra room (len - 255) in if leb 255 len then 0xff ∷ rest else u8 len ∷ []

-- The list is `s[*pos..slen)`; `none` is (size_t)-1.
unfoldable pub read_extra : List ℕ → ℕ → Option (ℕ × List ℕ)
read_extra [] t = some (t, [])
read_extra (b ∷ s) t =
    let rest = read_extra s (t + b) in
    if ltb (0xffff_ffff - 255) t then none else if ltb b 255 then some (t + b, s) else rest

abbrev pub Table : Type 0
Table = ℕ → ℕ

unfoldable pub store : Table → ℕ → ℕ → Table
store f i v j = if j == i then v else f j

-- `while (mlen < max_m && src[ref + mlen] == src[ip + mlen]) mlen++` from `mlen = 0`: the first
-- argument is `max_m - mlen`, the result the rounds made.
unfoldable pub match_run : List ℕ → ℕ → ℕ → ℕ → ℕ
match_run src zero ref ip = 0
match_run src (suc rounds) ref ip =
    let more = match_run src rounds (ref + 1) (ip + 1) in
    if get_or src ref 0 == get_or src ip 0 then suc more else 0

-- The chain walk of lz_find_match: the rounds left (`max_chain - count`), `ref`, `best_len` and
-- `*best_off`. An `int32_t` is at least 0 when its pattern is below 2^31.
unfoldable pub find_loop : List ℕ → ℕ → Table → ℕ → ℕ → ℕ → ℕ → ℕ × ℕ
unfolding match_run
find_loop src ip chain zero ref best_len best_off = (best_len, best_off)
find_loop src ip chain (suc rounds) ref best_len best_off =
    let dist = u64 (ip + 2 ^ 64 - ref) in
    let room = length src - ip in
    let mlen = match_run src (if ltb 65535 room then 65535 else room) ref ip in
    let better =
      ltb best_len room
      && (get_or src (ref + best_len) 0 == get_or src (ip + best_len) 0)
      && (get_or src ref 0 == get_or src ip 0)
      && ltb best_len mlen in
    let next = chain (ref % window_size) in
    let stay = find_loop src ip chain rounds next best_len best_off in
    let take_it = find_loop src ip chain rounds next mlen dist in
    if leb (2 ^ 31) ref
    then (best_len, best_off)
    else if ltb max_offset dist || (dist == 0)
    then (best_len, best_off)
    else if better
    then if leb 256 mlen then (mlen, dist) else take_it
    else stay

-- lz_find_match: the length, 0 for none, and `*best_off`.
unfoldable pub find_match : List ℕ → ℕ → Table → Table → ℕ → ℕ × ℕ
unfolding find_loop hash4
find_match src ip hash_table chain max_chain =
    let (best_len, best_off) =
      find_loop src ip chain max_chain (hash_table (hash4 src ip)) (min_match - 1) 0 in
    if ltb (length src) (ip + 4)
    then (0, 0)
    else if leb min_match best_len
    then (best_len, best_off)
    else (0, best_off)

-- lz_insert_hash: the pair of `hash_table` and `chain`.
unfoldable pub insert_hash : List ℕ → ℕ → Table → Table → Table × Table
unfolding hash4 store
insert_hash src ip hash_table chain =
    let h = hash4 src ip in
    if leb (ip + 4) (length src)
    then (store hash_table h (u32 ip), store chain (ip % window_size) (hash_table h))
    else (hash_table, chain)

unfoldable pub lz_bound : ℕ → ℕ
lz_bound src_len = src_len + src_len / 255 + 32

-- `for (; ip < match_end && ip + 4 <= src_len; ip++) lz_insert_hash(...)`: the rounds are
-- `match_end - ip`.
unfoldable pub insert_range : List ℕ → ℕ → ℕ → Table → Table → Table × Table
unfolding insert_hash
insert_range src zero ip hash_table chain = (hash_table, chain)
insert_range src (suc rounds) ip hash_table chain =
    let (hash_table', chain') = insert_hash src ip hash_table chain in
    let rest = insert_range src rounds (ip + 1) hash_table' chain' in
    if leb (ip + 4) (length src) then rest else (hash_table, chain)

-- The variables of the main loop of zupt_lz_compress.
pub record Encoder : Type 0 where
  pub hash_table : Table
  pub chain : Table
  pub ip : ℕ
  pub anchor : ℕ
  pub out : List ℕ

-- A length that does not fit the token, written behind `out`.
unfoldable pub put_extra : ℕ → List ℕ → ℕ → List ℕ
unfolding write_extra
put_extra dst_cap out n =
    if leb 15 n then out ++ write_extra (dst_cap - length out) (n - 15) else out

-- "Emit sequence": a token, the literals since `anchor`, the offset, and the lengths that do not fit
-- the token.
unfoldable pub put_sequence : List ℕ → ℕ → List ℕ → ℕ → ℕ → ℕ → ℕ → List ℕ
unfolding put_extra
put_sequence src dst_cap out anchor ip match_len off =
    let lit_len = ip - anchor in
    let match_extra = match_len - min_match in
    let tl = if leb 15 lit_len then 15 else u8 lit_len in
    let tm = if leb 15 match_extra then 15 else u8 match_extra in
    let out1 = out ++ (u8 (bit_or (tl <<< 4) tm) ∷ []) in
    let out2 = put_extra dst_cap out1 lit_len in
    let out3 = out2 ++ take lit_len (drop anchor src) in
    let out4 = out3 ++ (u8 (bit_and off 0xff) ∷ u8 (bit_and (off >>> 8) 0xff) ∷ []) in
    put_extra dst_cap out4 match_extra

-- The same behind its test; `none` where the bytes might not fit `dst_cap`.
unfoldable pub emit_sequence : List ℕ → ℕ → List ℕ → ℕ → ℕ → ℕ → ℕ → Option (List ℕ)
unfolding put_sequence
emit_sequence src dst_cap out anchor ip match_len off =
    let lit_len = ip - anchor in
    let match_extra = match_len - min_match in
    if ltb dst_cap (length out + 1 + lit_len / 255 + 1 + lit_len + 2 + match_extra / 255 + 1)
    then none
    else some (put_sequence src dst_cap out anchor ip match_len off)

-- "Final literals".
unfoldable pub put_final : List ℕ → ℕ → List ℕ → ℕ → List ℕ
unfolding put_extra
put_final src dst_cap out anchor =
    let lit_len = length src - anchor in
    let tl = if leb 15 lit_len then 15 else u8 lit_len in
    let out1 = out ++ (u8 (bit_or (tl <<< 4) 0) ∷ []) in
    put_extra dst_cap out1 lit_len ++ take lit_len (drop anchor src)

unfoldable pub emit_final : List ℕ → ℕ → List ℕ → ℕ → Option (List ℕ)
unfolding put_final
emit_final src dst_cap out anchor =
    let lit_len = length src - anchor in
    if ltb dst_cap (length out + 1 + lit_len / 255 + 1 + lit_len)
    then none
    else some (put_final src dst_cap out anchor)

-- The lazy step: insert `ip`, look one position further, and take the later match if it is longer by
-- more than one. The results are the tables, `ip`, `len1` and `off1`.
unfoldable pub lazy_step : List ℕ → ℕ → Bool → Table → Table → ℕ → ℕ → ℕ → Table × Table × ℕ × ℕ × ℕ
lazy_step src max_chain lazy hash_table chain ip len1 off1 =
    let (hash_table', chain') = insert_hash src ip hash_table chain in
    let (len2, off2) = find_match src (ip + 1) hash_table' chain' max_chain in
    if lazy && leb (ip + 1 + min_match) (length src)
    then if ltb (len1 + 1) len2
      then (hash_table', chain', ip + 1, len2, off2)
      else (hash_table', chain', ip, len1, off1)
    else (hash_table, chain, ip, len1, off1)

-- "Update hash for all positions in the match".
unfoldable pub index_match : List ℕ → Bool → Table → Table → ℕ → ℕ → Table × Table
index_match src lazy hash_table chain ip match_len =
    let (hash_table', chain') =
      if not lazy then insert_hash src ip hash_table chain else (hash_table, chain) in
    insert_range src (match_len - 1) (ip + 1) hash_table' chain'

-- One round of `while (ip + LZ_MIN_MATCH <= src_len)`; `none` is the return of 0.
unfoldable pub compress_step : List ℕ → ℕ → ℕ → Bool → Encoder → Option Encoder
compress_step src dst_cap max_chain lazy s =
    let (len1, off1) = find_match src s.ip s.hash_table s.chain max_chain in
    let (skipped_table, skipped_chain) = insert_hash src s.ip s.hash_table s.chain in
    let (table1, chain1, ip, match_len, off) =
      lazy_step src max_chain lazy s.hash_table s.chain s.ip len1 off1 in
    let (table2, chain2) = index_match src lazy table1 chain1 ip match_len in
    if len1 == 0
    then some (record s { hash_table = skipped_table; chain = skipped_chain; ip = s.ip + 1 })
    else elim (emit_sequence src dst_cap s.out s.anchor ip match_len off) [
      | none ↦ none
      | some out ↦ some (record {
        hash_table = table2;
        chain = chain2;
        ip = ip + match_len;
        anchor = ip + match_len;
        out = out;
      })
    ]

-- The main loop on fuel, and the final literals behind it.
unfoldable pub compress_loop : ℕ → List ℕ → ℕ → ℕ → Bool → Encoder → Outcome (List ℕ)
compress_loop zero src dst_cap max_chain lazy s = hang
compress_loop (suc fuel) src dst_cap max_chain lazy s = elim (ltb (length src) (s.ip + min_match)) [
  | true ↦ elim (emit_final src dst_cap s.out s.anchor) [ none ↦ fail | some out ↦ done out ]
  | false ↦ elim (compress_step src dst_cap max_chain lazy s) [
    | none ↦ fail
    | some s' ↦ compress_loop fuel src dst_cap max_chain lazy s'
  ]
]

-- `memset(hash_table, 0xFF)` makes each entry -1, and `calloc` each entry of `chain` 0.
abbrev pub start : Encoder
start = record { hash_table = λ i. 2 ^ 32 - 1; chain = λ i. 0; ip = 0; anchor = 0; out = [] }

-- The two `calloc` calls, of `int32_t` entries.
abbrev pub tables : (ℕ → Bool) → Bool
tables malloc = malloc (hash_size * 4) && malloc (window_size * 4)

-- zupt_lz_compress: the bytes written, whose number is returned; `fail` is the return of 0. A
-- negative `level` is clamped as 0 is. Every round moves `ip` on, so `src_len + 1` rounds are enough.
unfoldable pub compress : (ℕ → Bool) → List ℕ → ℕ → ℕ → Outcome (List ℕ)
compress malloc src dst_cap level =
    let level' = if ltb level 1 then 1 else if ltb 9 level then 9 else level in
    let ended =
      compress_loop (length src + 1) src dst_cap (4 + level' * level' * 3) (leb 3 level') start in
    if length src == 0 then fail else if tables malloc then ended else fail

-- `memcpy(dst + op, src + ip, n)`: a fault if a byte is read behind `src` or written behind `dst`.
unfoldable pub copy_literals : ℕ → ℕ → List ℕ → List ℕ → Outcome (List ℕ × List ℕ)
copy_literals dst_len zero s out = done (s, out)
copy_literals dst_len (suc n) [] out = fault
copy_literals dst_len (suc n) (b ∷ s) out =
    let rest = copy_literals dst_len n s (out ++ (b ∷ [])) in
    if ltb (length out) dst_len then rest else fault

-- `for (i = 0; i < match_len; i++) dst[op + i] = dst[ref + i]`: a fault if a byte is read that has not
-- been written, or written behind `dst`. The ranges may overlap.
unfoldable pub copy_match : ℕ → ℕ → ℕ → List ℕ → Outcome (List ℕ)
copy_match dst_len zero ref out = done out
copy_match dst_len (suc n) ref out = elim (get_elem? out ref) [
  | none ↦ fault
  | some b ↦
      let rest = copy_match dst_len n (ref + 1) (out ++ (b ∷ [])) in
      if ltb (length out) dst_len then rest else fault
]

-- A length from its four-bit code: 15 goes on in the bytes ahead. `base` is what is added to the code.
unfoldable pub read_length : ℕ → ℕ → List ℕ → Option (ℕ × List ℕ)
unfolding read_extra
read_length code base s = if code == 15 then read_extra s (15 + base) else some (code + base, s)

-- `if (lit_len > 0)`: the bounds test and the copy.
unfoldable pub put_literals : ℕ → ℕ → List ℕ → List ℕ → Outcome (List ℕ × List ℕ)
unfolding copy_literals
put_literals dst_len lit_len s out =
    if lit_len == 0
    then done (s, out)
    else if ltb (length s) lit_len || ltb dst_len (length out + lit_len)
    then fail
    else copy_literals dst_len lit_len s out

-- The literals of a sequence.
unfoldable pub literals : ℕ → ℕ → List ℕ → List ℕ → Outcome (List ℕ × List ℕ)
unfolding put_literals read_length
literals dst_len token s out = elim (read_length (bit_and (token >>> 4) 0xf) 0 s) [
  | none ↦ fail
  | some (lit_len, s') ↦ put_literals dst_len lit_len s' out
]

-- The bounds test and the copy of a match; `ref = op - offset`.
unfoldable pub put_match : ℕ → ℕ → ℕ → List ℕ → List ℕ → Outcome (List ℕ × List ℕ)
unfolding copy_match
put_match dst_len offset match_len s out =
    if ltb dst_len (length out + match_len)
    then fail
    else copy_match dst_len match_len (u64 (length out + 2 ^ 64 - offset)) out >>= λ out'.
        done (s, out')

-- The match of a sequence, behind its literals: the offset, the length and the copy.
unfoldable pub match_copy : ℕ → ℕ → List ℕ → List ℕ → Outcome (List ℕ × List ℕ)
unfolding put_match read_length
match_copy dst_len token [] out = fail
match_copy dst_len token (lo ∷ []) out = fail
match_copy dst_len token (lo ∷ hi ∷ s) out =
    let offset = bit_or lo (u64 (hi <<< 8)) in
    if (offset == 0) || ltb (length out) offset
    then fail
    else elim (read_length (bit_and token 0xf) min_match s) [
      | none ↦ fail
      | some (match_len, s') ↦ put_match dst_len offset match_len s' out
    ]

-- One round of the loop of zupt_lz_decompress: a token, its literals, and its match unless the input
-- ends there.
unfoldable pub sequence : ℕ → ℕ → List ℕ → List ℕ → Outcome (List ℕ × List ℕ)
unfolding literals match_copy
sequence dst_len token s out = literals dst_len token s out >>= λ p. elim p.0 [
  | [] ↦ done ([], p.1)
  | b ∷ s' ↦ match_copy dst_len token p.0 p.1
]

-- The loop on fuel: every round takes a token, so `src_len` rounds are enough.
unfoldable pub decompress_loop : ℕ → ℕ → List ℕ → List ℕ → Outcome (List ℕ)
unfolding sequence
decompress_loop dst_len fuel [] out = done out
decompress_loop dst_len zero (token ∷ s) out = hang
decompress_loop dst_len (suc fuel) (token ∷ s) out =
    sequence dst_len token s out >>= λ p. decompress_loop dst_len fuel p.0 p.1

-- zupt_lz_decompress: the bytes written to `dst`, whose number is returned; `fail` is the return of 0.
unfoldable pub decompress : List ℕ → ℕ → Outcome (List ℕ)
unfolding decompress_loop
decompress src dst_len = decompress_loop dst_len (length src) src []
