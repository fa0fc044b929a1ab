-- ===== src/Lz/Safety.antt =====
-- The decompressor on arbitrary input: it returns, and stays inside its buffers.
use zupt_web.Base.{
  ℕ, zero, suc, ◌+◌, ◌-◌, ◌^◌, ◌≤◌, ◌<◌, ◌≡◌, refl, arith, bit_and, bit_or, ltb, ◌==◌, ◌||◌,
  Bool-cases, inl, inr, Option, some, none, List, [], ◌∷◌, ◌++◌, append_assoc, append-nil, length,
  length-append, length-drop, length-take, get_or, get_elem?-eq-get_or, take, drop, u64, ◌<<<◌,
  ◌>>>◌,
}
use zupt_web.Base.Outcome.{Outcome, done, fail, fault, hang, ◌>>=◌}
use zupt_web.Lz.{
  min_match, read_extra, copy_literals, copy_match, literals, match_copy, sequence, decompress_loop,
  decompress, read_length, put_literals, put_match,
}

pub copy_literals-take :
    (dst_len n : ℕ) (s out : List ℕ)
    → n ≤ length s
    → length out + n ≤ dst_len
    → copy_literals dst_len n s out ≡ done (drop n s, out ++ take n s)
unfolding copy_literals
copy_literals-take dst_len zero s out hs ho = rw append-nil
copy_literals-take dst_len (suc n) [] out hs ho = absurd (omega arith)
copy_literals-take dst_len (suc n) (b ∷ s) out hs ho = ground (
  arith,
  copy_literals-take dst_len n s (out ++ (b ∷ [])),
  length-append out (b ∷ []),
  append_assoc out (b ∷ []) (take n s),
)

-- A copy from inside the output is done, and makes it longer by its length.
pub copy_match-done :
    (dst_len n ref : ℕ) (out : List ℕ)
    → ref < length out
    → length out + n ≤ dst_len
    → (r : List ℕ) × (copy_match dst_len n ref out ≡ done r) × (length r ≡ length out + n)
unfolding copy_match
copy_match-done dst_len zero ref out hr ho = (out, refl, omega arith)
copy_match-done dst_len (suc n) ref out hr ho =
    let b = get_or out ref 0 in
    let longer = length-append out (b ∷ []) in
    let (r, e, l) =
      copy_match-done dst_len n (ref + 1) (out ++ (b ∷ [])) (omega arith) (omega arith) in
    (r, ground (arith, get_elem?-eq-get_or out ref 0), omega arith)

pub read_extra-le :
    (s : List ℕ) (t u : ℕ) (s' : List ℕ) → read_extra s t ≡ some (u, s') → length s' ≤ length s
unfolding read_extra
read_extra-le [] t u s' e = ground arith
read_extra-le (b ∷ s) t u s' e = ground (arith, read_extra-le s (t + b) u s')

-- A part of a round ends well: it returns, takes no byte back and stays within `dst`.
abbrev Good : ℕ → ℕ → Outcome (List ℕ × List ℕ) → Type 0
Good dst_len ahead (done p) = (length p.0 ≤ ahead) × (length p.1 ≤ dst_len)
Good dst_len ahead fail = Unit
Good dst_len ahead fault = ⊥
Good dst_len ahead hang = ⊥

put_literals-Good :
    (dst_len n : ℕ) (s out : List ℕ)
    → length out ≤ dst_len
    → Good dst_len (length s) (put_literals dst_len n s out)
unfolding put_literals
put_literals-Good dst_len n s out ho = ground (
  arith,
  copy_literals-take dst_len n s out,
  length-drop n s,
  length-append out (take n s),
  length-take n s,
)

read_length-le :
    (code base : ℕ) (s : List ℕ) (u : ℕ) (s' : List ℕ)
    → read_length code base s ≡ some (u, s')
    → length s' ≤ length s
unfolding read_length
read_length-le code base s u s' e = ground (arith, read_extra-le s (15 + base) u s')

Good-mono :
    (dst_len a b : ℕ) (m : Outcome (List ℕ × List ℕ)) → a ≤ b → Good dst_len a m → Good dst_len b m
Good-mono dst_len a b (done p) h g = (omega arith, g.1)
Good-mono dst_len a b fail h g = tt
Good-mono dst_len a b fault h g = g
Good-mono dst_len a b hang h g = g

literals-Good :
    (dst_len token : ℕ) (s out : List ℕ)
    → length out ≤ dst_len
    → Good dst_len (length s) (literals dst_len token s out)
unfolding literals
literals-Good dst_len token s out ho = go (read_length (bit_and (token >>> 4) 0xf) 0 s) refl
  where
    go :
        (o : Option (ℕ × List ℕ))
        → read_length (bit_and (token >>> 4) 0xf) 0 s ≡ o
        → Good dst_len
            (length s)
            (elim o [ none ↦ fail | some (lit_len, s') ↦ put_literals dst_len lit_len s' out ])
    go none e = tt
    go (some (n, s')) e =
        Good-mono dst_len (length s') (length s) (put_literals dst_len n s' out)
          (read_length-le _ 0 s n s' e) (put_literals-Good dst_len n s' out ho)

put_match-Good :
    (dst_len offset n : ℕ) (s out : List ℕ)
    → 0 < offset
    → offset ≤ length out
    → length out < 2 ^ 64
    → Good dst_len (length s) (put_match dst_len offset n s out)
unfolding put_match
put_match-Good dst_len offset n s out h0 ho hw = elim (Bool-cases (ltb dst_len (length out + n))) [
  | inl big ↦ rw big tt
  | inr fits ↦
      let (r, e, l) =
        copy_match-done dst_len n (u64 (length out + 2 ^ 64 - offset)) out (omega arith)
          (ground arith) in
      rw (fits, e) (omega arith, ground arith)
]

-- What is behind the test of the offset.
matched-Good :
    (dst_len code offset : ℕ) (s out : List ℕ)
    → 0 < offset
    → offset ≤ length out
    → length out < 2 ^ 64
    → (o : Option (ℕ × List ℕ)) → read_length code min_match s ≡ o
    → Good dst_len
        (length s)
        (elim o [ none ↦ fail | some (match_len, s') ↦ put_match dst_len offset match_len s' out ])
matched-Good dst_len code offset s out h0 ho hw none e = tt
matched-Good dst_len code offset s out h0 ho hw (some (n, s')) e =
    Good-mono dst_len (length s') (length s) (put_match dst_len offset n s' out)
      (read_length-le code min_match s n s' e) (put_match-Good dst_len offset n s' out h0 ho hw)

match_copy-Good :
    (dst_len token : ℕ) (s out : List ℕ)
    → length out < 2 ^ 64
    → Good dst_len (length s) (match_copy dst_len token s out)
unfolding match_copy
match_copy-Good dst_len token [] out hw = tt
match_copy-Good dst_len token (lo ∷ []) out hw = tt
match_copy-Good dst_len token (lo ∷ hi ∷ s) out hw =
    let offset = bit_or lo (u64 (hi <<< 8)) in
    elim (Bool-cases ((offset == 0) || ltb (length out) offset)) [
      | inl bad ↦ rw bad tt
      | inr good ↦ rw good (
          Good-mono dst_len (length s) (length (lo ∷ hi ∷ s)) _ (omega arith) (
            matched-Good dst_len (bit_and token 0xf) offset s out (ground arith) (ground arith) hw
              (read_length (bit_and token 0xf) min_match s) refl))
    ]

sequence-Good :
    (dst_len token : ℕ) (s out : List ℕ)
    → dst_len < 2 ^ 64
    → length out ≤ dst_len
    → Good dst_len (length s) (sequence dst_len token s out)
unfolding sequence
sequence-Good dst_len token s out hd ho =
    go (literals dst_len token s out) (literals-Good dst_len token s out ho)
  where
    go :
        (m : Outcome (List ℕ × List ℕ))
        → Good dst_len (length s) m
        → Good dst_len (length s) (
            m >>= λ p. elim p.0 [ [] ↦ done ([], p.1) | b ∷ s' ↦ match_copy dst_len token p.0 p.1 ])
    go (done ([], o)) g = (omega arith, g.1)
    go (done (b ∷ s', o)) g =
        Good-mono dst_len (length (b ∷ s')) (length s) (match_copy dst_len token (b ∷ s') o) g.0
          (match_copy-Good dst_len token (b ∷ s') o (omega arith))
    go fail g = tt
    go fault g = g
    go hang g = g

-- The routine returns, and what it wrote fits `dst`.
abbrev pub Fits : ℕ → Outcome (List ℕ) → Type 0
Fits dst_len (done out) = length out ≤ dst_len
Fits dst_len fail = Unit
Fits dst_len fault = ⊥
Fits dst_len hang = ⊥

decompress_loop-Fits :
    (dst_len fuel : ℕ) (s out : List ℕ)
    → dst_len < 2 ^ 64
    → length s ≤ fuel
    → length out ≤ dst_len
    → Fits dst_len (decompress_loop dst_len fuel s out)
unfolding decompress_loop
decompress_loop-Fits dst_len fuel [] out hd hf ho = ho
decompress_loop-Fits dst_len zero (token ∷ s) out hd hf ho = absurd (omega arith)
decompress_loop-Fits dst_len (suc fuel) (token ∷ s) out hd hf ho =
    go (sequence dst_len token s out) (sequence-Good dst_len token s out hd ho)
      (λ s' o a b. decompress_loop-Fits dst_len fuel s' o hd a b)
  where
    go :
        (m : Outcome (List ℕ × List ℕ))
        → Good dst_len (length s) m
        → ((s' o : List ℕ)
            → length s' ≤ fuel
            → length o ≤ dst_len
            → Fits dst_len (decompress_loop dst_len fuel s' o))
        → Fits dst_len (m >>= λ p. decompress_loop dst_len fuel p.0 p.1)
    go (done (s', o)) g rec = rec s' o (omega arith) g.1
    go fail g rec = tt
    go fault g rec = g
    go hang g rec = g

-- On every input, bytes of an attacker included, zupt_lz_decompress returns: it ends, reads only bytes
-- of `src` and bytes of `dst` that it has written, and never writes behind the `dst_len` bytes of
-- `dst`, which a `size_t` counts.
pub decompress-Fits :
    (src : List ℕ) (dst_len : ℕ) → dst_len < 2 ^ 64 → Fits dst_len (decompress src dst_len)
unfolding decompress
decompress-Fits src dst_len h =
    decompress_loop-Fits dst_len (length src) src [] h (omega arith) (omega arith)
