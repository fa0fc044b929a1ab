-- ===== src/Lz/Lengths.antt =====
-- The lengths, the token and the copy of a match, written and read (zupt-5.2.10/src/zupt_lz.c).
use zupt_web.Base.{
  ℕ, zero, suc, ◌+◌, ◌-◌, ◌*◌, ◌/◌, ◌%◌, ◌^◌, ◌≤◌, ◌<◌, ◌≡◌, sym, ◌∙◌, ap, arith, bit_and, bit_or,
  leb, if◌then◌else◌, Bool-cases, inl, inr, some, List, [], ◌∷◌, ◌++◌, length, length-take,
  get_elem?, get_or, take, take_snoc, get_elem?-take, u8, u64, ◌<<<◌, ◌>>>◌,
}
use zupt_web.Base.Bits.{bit_or_disjoint, bit_or_disjoint', bit_and_mask}
use zupt_web.Base.Outcome.{done}
use zupt_web.Lz.{write_extra, read_extra, read_length, copy_match}

-- The longest length that the guard of lz_read_extra lets through whole.
abbrev pub max_length : ℕ
max_length = 0xffff_ffff - 255

read_extra-write_extra :
    (room len t : ℕ) (rest : List ℕ)
    → len / 255 < room
    → t + len ≤ max_length
    → read_extra (write_extra room len ++ rest) t ≡ some (t + len, rest)
unfolding read_extra write_extra
read_extra-write_extra zero len t rest hr ht = absurd (omega arith)
read_extra-write_extra (suc room) len t rest hr ht = elim (Bool-cases (leb 255 len)) [
  | inl big ↦ rw big (ground (arith, read_extra-write_extra room (len - 255) (t + 255) rest))
  | inr small ↦ rw small (ground arith)
]

-- The four-bit code of a length, and the bytes that follow where it is 15.
abbrev pub code_of : ℕ → ℕ
code_of n = if leb 15 n then 15 else u8 n

abbrev pub extra_of : ℕ → ℕ → List ℕ
extra_of room n = if leb 15 n then write_extra room (n - 15) else []

pub read_length_of :
    (n base room : ℕ) (rest : List ℕ)
    → n + base ≤ max_length
    → (15 ≤ n → (n - 15) / 255 < room)
    → read_length (code_of n) base (extra_of room n ++ rest) ≡ some (n + base, rest)
unfolding read_length
read_length_of n base room rest hn hr = elim (Bool-cases (leb 15 n)) [
  | inl big ↦
      let h : 15 ≤ n = ground arith in
      rw big (
        read_extra-write_extra room (n - 15) (15 + base) rest (hr h) (omega arith)
        ∙ ap (λ (t : ℕ). some (t, rest)) (omega arith))
  | inr small ↦ rw small (ground arith)
]

pub code_of-lt : (n : ℕ) → code_of n < 16
code_of-lt n = ground arith

abbrev pub token_of : ℕ → ℕ → ℕ
token_of tl tm = u8 (bit_or (tl <<< 4) tm)

pub token_fields :
    (tl tm : ℕ)
    → tl < 16
    → tm < 16
    → (bit_and (token_of tl tm >>> 4) 0xf ≡ tl) × (bit_and (token_of tl tm) 0xf ≡ tm)
token_fields tl tm hl hm =
    let e : token_of tl tm ≡ tl * 16 + tm = omega (arith, bit_or_disjoint' 4 tl tm (omega arith)) in
    rw e (
      omega (arith, bit_and_mask 4 ((tl * 16 + tm) / 2 ^ 4)),
      omega (arith, bit_and_mask 4 (tl * 16 + tm)),
    )

pub offset_of :
    (off : ℕ)
    → off ≤ 65535
    → bit_or (u8 (bit_and off 0xff)) (u64 (u8 (bit_and (off >>> 8) 0xff) <<< 8)) ≡ off
offset_of off h = ground (
  arith,
  bit_and_mask 8 off,
  bit_and_mask 8 (off / 2 ^ 8),
  bit_or_disjoint 8 (off % 256) (off / 256),
)

copy_match_step :
    (dst_len n ref b : ℕ) (out : List ℕ)
    → get_elem? out ref ≡ some b
    → length out < dst_len
    → copy_match dst_len (suc n) ref out ≡ copy_match dst_len n (ref + 1) (out ++ (b ∷ []))
unfolding copy_match
copy_match_step dst_len n ref b out e h = ground (arith, e)

pub at_index : (src : List ℕ) (i j : ℕ) → i ≡ j → take i src ≡ take j src
at_index src i j e = ap (λ k. take k src) e

next_same :
    (src : List ℕ) (ref p k : ℕ)
    → get_or src (ref + suc k) 0 ≡ get_or src (p + suc k) 0
    → get_or src (ref + 1 + k) 0 ≡ get_or src (p + 1 + k) 0
next_same src ref p k e =
    let er : ref + 1 + k ≡ ref + suc k = omega arith in
    let ep : p + 1 + k ≡ p + suc k = omega arith in rw (er, ep) e

-- A copy inside a prefix of `src` that the bytes of `src` repeat makes the prefix longer.
pub copy_match-take :
    (src : List ℕ) (dst_len n ref p : ℕ)
    → ref < p
    → p + n ≤ length src
    → length src ≤ dst_len
    → ((k : ℕ) → k < n → get_or src (ref + k) 0 ≡ get_or src (p + k) 0)
    → copy_match dst_len n ref (take p src) ≡ done (take (p + n) src)
unfolding copy_match
copy_match-take src dst_len zero ref p hr hp hd same = let e : p + 0 ≡ p = omega arith in rw e
copy_match-take src dst_len (suc n) ref p hr hp hd same =
    let b = get_or src p 0 in
    let e0 : get_or src ref 0 ≡ b =
      let s0 = same 0 (omega arith) in
      let er : ref + 0 ≡ ref = omega arith in
      let ep : p + 0 ≡ p = omega arith in
      ap (λ i. get_or src i 0) (sym er) ∙ s0 ∙ ap (λ i. get_or src i 0) ep in
    let read : get_elem? (take p src) ref ≡ some b =
      get_elem?-take p ref 0 src hr (omega arith) ∙ ap some e0 in
    let grow : take p src ++ (b ∷ []) ≡ take (p + 1) src =
      take_snoc p 0 src (omega arith) ∙ at_index src (suc p) (p + 1) (omega arith) in
    let next : (k : ℕ) → k < n → get_or src (ref + 1 + k) 0 ≡ get_or src (p + 1 + k) 0 =
      λ k h. next_same src ref p k (same (suc k) (omega arith)) in
    copy_match_step dst_len n ref b (take p src) read (omega (arith, length-take p src))
    ∙ rw grow (
        copy_match-take src dst_len n (ref + 1) (p + 1) (omega arith) (omega arith) hd next
        ∙ ap done (at_index src (p + 1 + n) (p + suc n) (omega arith)))
