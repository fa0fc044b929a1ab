-- ===== src/Lz/Decode.antt =====
-- One round of zupt_lz_decompress (zupt-5.2.10/src/zupt_lz.c) on the bytes that the compressor emits for a
-- sequence.
use zupt_web.Base.{
  ℕ, ◌+◌, ◌-◌, ◌/◌, ◌^◌, ◌≤◌, ◌<◌, ◌≡◌, refl, sym, ◌∙◌, ap, arith, bit_and, bit_or, false, ltb,
  ◌==◌, ◌||◌, append-nil, Option, some, none, List, [], ◌∷◌, ◌++◌, append_assoc, length,
  length-append, length-drop, length-take, take, drop, take-append, drop-append, segments_join,
  take_all, u8, u64, ◌<<<◌, ◌>>>◌,
}
use zupt_web.Base.Outcome.{Outcome, done, fail, ◌>>=◌}
use zupt_web.Lz.{min_match, read_length, put_literals, literals, put_match, match_copy, sequence}
use zupt_web.Lz.Safety.{copy_literals-take}
use zupt_web.Lz.Match.{IsMatch}
use zupt_web.Lz.Lengths.{
  max_length, code_of, extra_of, read_length_of, code_of-lt, token_of, token_fields, offset_of,
  at_index, copy_match-take,
}

-- The bytes of a sequence: the literals from `anchor` to `ip`, and a match of `len` bytes, `off` back.
-- `r1` and `r2` are the rooms that the compressor had for the two long lengths.
abbrev pub sequence_bytes : List ℕ → ℕ → ℕ → ℕ → ℕ → ℕ → ℕ → List ℕ
sequence_bytes src anchor ip len off r1 r2 =
    extra_of r1 (ip - anchor)
    ++ (take (ip - anchor) (drop anchor src)
        ++ (u8 (bit_and off 0xff) ∷ u8 (bit_and (off >>> 8) 0xff) ∷ extra_of r2 (len - min_match)))

read_literals :
    (dst_len token n : ℕ) (s' s out : List ℕ)
    → read_length (bit_and (token >>> 4) 0xf) 0 s ≡ some (n, s')
    → literals dst_len token s out ≡ put_literals dst_len n s' out
unfolding literals
read_literals dst_len token n s' s out e =
    ap
      (λ (o : Option (ℕ × List ℕ)). elim o [
        | none ↦ fail
        | some (lit_len, t) ↦ put_literals dst_len lit_len t out
      ])
      e

-- The bytes of a prefix of the input, copied behind the output.
put_literals-append :
    (dst_len n : ℕ) (lits rest out : List ℕ)
    → length lits ≡ n
    → length out + n ≤ dst_len
    → put_literals dst_len n (lits ++ rest) out ≡ done (rest, out ++ lits)
unfolding put_literals
put_literals-append dst_len n [] rest out e h = ground (arith, append-nil out)
put_literals-append dst_len n (b ∷ lits) rest out e h = ground (
  arith,
  copy_literals-take dst_len n (b ∷ lits ++ rest) out,
  take-append n (b ∷ lits) rest e,
  drop-append n (b ∷ lits) rest e,
  length-append lits rest,
)

literals_of :
    (src : List ℕ) (dst_len n tl tm room anchor : ℕ) (rest : List ℕ)
    → tl ≡ code_of n
    → tm < 16
    → n ≤ max_length
    → (15 ≤ n → (n - 15) / 255 < room)
    → anchor + n ≤ length src
    → length src ≤ dst_len
    → literals dst_len
        (token_of tl tm)
        (extra_of room n ++ (take n (drop anchor src) ++ rest))
        (take anchor src)
      ≡ done (rest, take (anchor + n) src)
literals_of src dst_len n tl tm room anchor rest et hm hn hr ha hd =
    let size : length (take n (drop anchor src)) ≡ n =
      omega (arith, length-take n (drop anchor src), length-drop anchor src) in
    let fields = token_fields tl tm (omega (arith, et, code_of-lt n)) hm in
    let zero_base : n + 0 ≡ n = omega arith in
    let coded : bit_and (token_of tl tm >>> 4) 0xf ≡ code_of n = fields.0 ∙ et in
    let got : read_length (bit_and (token_of tl tm >>> 4) 0xf) 0
          (extra_of room n ++ (take n (drop anchor src) ++ rest))
        ≡ some (n, take n (drop anchor src) ++ rest) =
      ap (λ c. read_length c 0 (extra_of room n ++ (take n (drop anchor src) ++ rest))) coded
      ∙ read_length_of n 0 room (take n (drop anchor src) ++ rest) (omega arith) hr
      ∙ ap (λ (k : ℕ). some (k, take n (drop anchor src) ++ rest)) zero_base in
    read_literals dst_len (token_of tl tm) n (take n (drop anchor src) ++ rest)
      (extra_of room n ++ (take n (drop anchor src) ++ rest)) (take anchor src) got
    ∙ put_literals-append dst_len n (take n (drop anchor src)) rest (take anchor src) size
        (omega (arith, length-take anchor src))
    ∙ ap (λ (o : List ℕ). done (rest, o)) (segments_join anchor n src)

read_match :
    (dst_len token lo hi off n : ℕ) (s s' out : List ℕ)
    → bit_or lo (u64 (hi <<< 8)) ≡ off
    → 1 ≤ off
    → off ≤ length out
    → read_length (bit_and token 0xf) min_match s ≡ some (n, s')
    → match_copy dst_len token (lo ∷ hi ∷ s) out ≡ put_match dst_len off n s' out
unfolding match_copy
read_match dst_len token lo hi off n s s' out eo h1 ho e =
    let raw = bit_or lo (u64 (hi <<< 8)) in
    let test : ((raw == 0) || ltb (length out) raw) ≡ false = ground arith in
    rw test (
      ap
        (λ (o : Option (ℕ × List ℕ)). elim o [
          | none ↦ fail
          | some (match_len, t) ↦ put_match dst_len (bit_or lo (u64 (hi <<< 8))) match_len t out
        ])
        e
      ∙ ap (λ o. put_match dst_len o n s' out) eo)

put_match-take :
    (src : List ℕ) (dst_len ip len off : ℕ) (rest : List ℕ)
    → IsMatch src ip len off
    → length src ≤ dst_len
    → dst_len < 2 ^ 64
    → put_match dst_len off len rest (take ip src) ≡ done (rest, take (ip + len) src)
unfolding put_match
put_match-take src dst_len ip len off rest m hd hw =
    let size : length (take ip src) ≡ ip = omega (arith, length-take ip src) in
    let ref : u64 (length (take ip src) + 2 ^ 64 - off) ≡ ip - off = omega arith in
    let room : ltb dst_len (length (take ip src) + len) ≡ false = ground arith in
    rw (room, ref)
      (ap (λ (o : Outcome (List ℕ)). o >>= λ out'. done (rest, out'))
        (copy_match-take src dst_len len (ip - off) ip (omega arith) m.inside hd m.same))

-- The match of a sequence, decoded behind the prefix that the literals filled.
match_of :
    (src : List ℕ) (dst_len tl tm room ip len off : ℕ) (rest : List ℕ)
    → IsMatch src ip len off
    → tm ≡ code_of (len - min_match)
    → tl < 16
    → (15 ≤ len - min_match → (len - min_match - 15) / 255 < room)
    → length src ≤ dst_len
    → dst_len < 2 ^ 64
    → match_copy dst_len
        (token_of tl tm)
        (u8 (bit_and off 0xff) ∷ u8 (bit_and (off >>> 8) 0xff) ∷ extra_of room (len - min_match)
          ++ rest)
        (take ip src)
      ≡ done (rest, take (ip + len) src)
match_of src dst_len tl tm room ip len off rest m et hl hr hd hw =
    let fields = token_fields tl tm hl (omega (arith, et, code_of-lt (len - min_match))) in
    let whole : len - min_match + min_match ≡ len = omega arith in
    let coded : bit_and (token_of tl tm) 0xf ≡ code_of (len - min_match) = fields.1 ∙ et in
    let got : read_length (bit_and (token_of tl tm) 0xf) min_match
          (extra_of room (len - min_match) ++ rest)
        ≡ some (len, rest) =
      ap (λ c. read_length c min_match (extra_of room (len - min_match) ++ rest)) coded
      ∙ read_length_of (len - min_match) min_match room rest (omega arith) hr
      ∙ ap (λ (k : ℕ). some (k, rest)) whole in
    read_match dst_len (token_of tl tm) (u8 (bit_and off 0xff)) (u8 (bit_and (off >>> 8) 0xff)) off
      len (extra_of room (len - min_match) ++ rest) rest (take ip src) (offset_of off m.window)
      m.back (let r = m.reach in omega (arith, length-take ip src)) got
    ∙ put_match-take src dst_len ip len off rest m hd hw

-- A round on the bytes of a sequence goes on behind them, with the literals and the match decoded.
pub sequence_of :
    (src : List ℕ) (dst_len anchor ip len off r1 r2 : ℕ) (rest : List ℕ)
    → IsMatch src ip len off
    → anchor ≤ ip
    → length src ≤ max_length
    → (15 ≤ ip - anchor → (ip - anchor - 15) / 255 < r1)
    → (15 ≤ len - min_match → (len - min_match - 15) / 255 < r2)
    → length src ≤ dst_len
    → dst_len < 2 ^ 64
    → sequence dst_len
        (token_of (code_of (ip - anchor)) (code_of (len - min_match)))
        (sequence_bytes src anchor ip len off r1 r2 ++ rest)
        (take anchor src)
      ≡ done (rest, take (ip + len) src)
unfolding sequence
sequence_of src dst_len anchor ip len off r1 r2 rest m ha hs h1 h2 hd hw =
    let n = ip - anchor in
    let tail : List ℕ =
      u8 (bit_and off 0xff) ∷ u8 (bit_and (off >>> 8) 0xff) ∷ extra_of r2 (len - min_match) in
    let lits = take n (drop anchor src) in
    let regroup : sequence_bytes src anchor ip len off r1 r2 ++ rest
        ≡ extra_of r1 n ++ (lits ++ (tail ++ rest)) =
      append_assoc (extra_of r1 n) (lits ++ tail) rest
      ∙ ap (λ l. extra_of r1 n ++ l) (append_assoc lits tail rest) in
    let at_ip : take (anchor + n) src ≡ take ip src = at_index src (anchor + n) ip (omega arith) in
    let got =
      literals_of src dst_len n (code_of n) (code_of (len - min_match)) r1 anchor (tail ++ rest)
        refl (code_of-lt (len - min_match)) (omega arith) h1 (omega arith) hd
      ∙ ap (λ (o : List ℕ). done (tail ++ rest, o)) at_ip in
    rw (regroup, got)
      (match_of src dst_len (code_of n) (code_of (len - min_match)) r2 ip len off rest m refl
        (code_of-lt n) h2 hd hw)

-- The last round: literals up to the end of the input.
pub final_of :
    (src : List ℕ) (dst_len anchor room : ℕ)
    → anchor ≤ length src
    → length src ≤ max_length
    → (15 ≤ length src - anchor → (length src - anchor - 15) / 255 < room)
    → length src ≤ dst_len
    → sequence dst_len
        (token_of (code_of (length src - anchor)) 0)
        (extra_of room (length src - anchor) ++ take (length src - anchor) (drop anchor src))
        (take anchor src)
      ≡ done ([], src)
unfolding sequence
final_of src dst_len anchor room ha hs hr hd =
    let n = length src - anchor in
    let all : take (anchor + n) src ≡ src = take_all (anchor + n) src (omega arith) in
    let more : extra_of room n ++ take n (drop anchor src)
        ≡ extra_of room n ++ (take n (drop anchor src) ++ []) =
      ap (λ l. extra_of room n ++ l) (sym (append-nil (take n (drop anchor src)))) in
    rw (
      more,
      literals_of src dst_len n (code_of n) 0 room anchor [] refl (omega arith) (omega arith) hr
          (omega arith) hd,
      all,
    )
