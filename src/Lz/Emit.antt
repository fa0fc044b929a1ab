-- ===== src/Lz/Emit.antt =====
-- What the compressor writes for a sequence and for the final literals.
use zupt_web.Base.{
  ℕ, zero, suc, ◌+◌, ◌-◌, ◌/◌, ◌≤◌, ◌<◌, ◌≡◌, ◌∙◌, ap, subst, arith, bit_and, some, none, List, [],
  ◌∷◌, ◌++◌, append_assoc, append-nil, length, length-append, length-take, take, drop, u8, ◌>>>◌,
}
use zupt_web.Lz.{
  min_match, write_extra, put_extra, put_sequence, emit_sequence, put_final, emit_final,
}
use zupt_web.Lz.Lengths.{code_of, extra_of, token_of}
use zupt_web.Lz.Decode.{sequence_bytes}

length-write_extra :
    (room len : ℕ) → len / 255 < room → length (write_extra room len) ≡ len / 255 + 1
unfolding write_extra
length-write_extra zero len h = absurd (omega arith)
length-write_extra (suc room) len h = ground (arith, length-write_extra room (len - 255))

length-extra_of :
    (room n : ℕ) → (15 ≤ n → (n - 15) / 255 < room) → length (extra_of room n) ≤ n / 255 + 1
length-extra_of room n h = ground (arith, length-write_extra room (n - 15))

put_extra-append :
    (dst_cap : ℕ) (out : List ℕ) (n : ℕ)
    → put_extra dst_cap out n ≡ out ++ extra_of (dst_cap - length out) n
unfolding put_extra
put_extra-append dst_cap out n = ground (arith, append-nil out)

-- The room for a long length, where the bytes so far leave that many.
room_of :
    (dst_cap used n : ℕ) → used + n / 255 + 1 ≤ dst_cap → (15 ≤ n → (n - 15) / 255 < dst_cap - used)
room_of dst_cap used n h hn = omega arith

-- What was emitted for a sequence: its bytes behind `out`, the rooms of its lengths, and its size.
pub record Emitted (src : List ℕ) (dst_cap : ℕ) (out : List ℕ) (anchor ip len off : ℕ)
    (out' : List ℕ) : Type 0 where
  pub r1 : ℕ
  pub r2 : ℕ
  pub bytes :
      out'
      ≡ out
        ++ (token_of (code_of (ip - anchor)) (code_of (len - min_match))
            ∷ sequence_bytes src anchor ip len off r1 r2)
  pub room1 : 15 ≤ ip - anchor → (ip - anchor - 15) / 255 < r1
  pub room2 : 15 ≤ len - min_match → (len - min_match - 15) / 255 < r2
  pub size :
      length out'
      ≤ length out + 1 + (ip - anchor) / 255 + 1 + (ip - anchor) + 2 + (len - min_match) / 255 + 1

regroup :
    (out : List ℕ) (t : ℕ) (x l : List ℕ) (o1 o2 : ℕ) (y : List ℕ)
    → (((out ++ (t ∷ [])) ++ x) ++ l) ++ (o1 ∷ o2 ∷ []) ++ y
      ≡ out ++ (t ∷ (x ++ (l ++ (o1 ∷ o2 ∷ y))))
regroup out t x l o1 o2 y = simp append_assoc

put_sequence-Emitted :
    (src : List ℕ) (dst_cap : ℕ) (out : List ℕ) (anchor ip len off : ℕ)
    → anchor ≤ ip
    → ip ≤ length src
    → length out + 1 + (ip - anchor) / 255 + 1 + (ip - anchor) + 2 + (len - min_match) / 255 + 1
      ≤ dst_cap
    → Emitted src dst_cap out anchor ip len off (put_sequence src dst_cap out anchor ip len off)
unfolding put_sequence
put_sequence-Emitted src dst_cap out anchor ip len off ha hp fits = record {
  r1 = dst_cap - length out1;
  r2 = dst_cap - length out4;
  bytes = whole;
  room1 = h1;
  room2 = h2;
  size =
      let r1 = dst_cap - length out1 in
      let r2 = dst_cap - length out4 in
      rw whole (
        omega (
          arith,
          length-append out (t ∷ (extra_of r1 n ++ (lits ++ (lo ∷ hi ∷ extra_of r2 m)))),
          length-append (extra_of r1 n) (lits ++ (lo ∷ hi ∷ extra_of r2 m)),
          length-append lits (lo ∷ hi ∷ extra_of r2 m),
          length-extra_of r1 n h1,
          length-extra_of r2 m h2,
          lits_size,
        ));
}
  where
    n : ℕ
    n = ip - anchor

    m : ℕ
    m = len - min_match

    t : ℕ
    t = token_of (code_of n) (code_of m)

    lo : ℕ
    lo = u8 (bit_and off 0xff)

    hi : ℕ
    hi = u8 (bit_and (off >>> 8) 0xff)

    out1 : List ℕ
    out1 = out ++ (t ∷ [])

    lits : List ℕ
    lits = take n (drop anchor src)

    out4 : List ℕ
    out4 = (put_extra dst_cap out1 n ++ lits) ++ (lo ∷ hi ∷ [])

    lits_size : length lits ≤ n
    lits_size = omega (arith, length-take n (drop anchor src))

    size1 : length out1 ≡ length out + 1
    size1 = omega (arith, length-append out (t ∷ []))

    h1 : 15 ≤ n → (n - 15) / 255 < dst_cap - length out1
    h1 = room_of dst_cap (length out1) n (omega (arith, size1))

    long1 : put_extra dst_cap out1 n ≡ out1 ++ extra_of (dst_cap - length out1) n
    long1 = put_extra-append dst_cap out1 n

    size2 : length (put_extra dst_cap out1 n) ≤ length out + 1 + (n / 255 + 1)
    size2 = rw long1 (
        omega (
          arith,
          size1,
          length-append out1 (extra_of (dst_cap - length out1) n),
          length-extra_of (dst_cap - length out1) n h1,
        ))

    size4 : length out4 ≤ length out + 1 + (n / 255 + 1) + n + 2
    size4 = omega (
      arith,
      size2,
      lits_size,
      length-append (put_extra dst_cap out1 n) lits,
      length-append (put_extra dst_cap out1 n ++ lits) (lo ∷ hi ∷ []),
    )

    h2 : 15 ≤ m → (m - 15) / 255 < dst_cap - length out4
    h2 = room_of dst_cap (length out4) m (omega (arith, size4))

    whole :
        put_extra dst_cap out4 m
        ≡ out
          ++ (t
              ∷ (extra_of (dst_cap - length out1) n
                  ++ (lits ++ (lo ∷ hi ∷ extra_of (dst_cap - length out4) m))))
    whole =
        put_extra-append dst_cap out4 m
        ∙ ap (λ l. ((l ++ lits) ++ (lo ∷ hi ∷ [])) ++ extra_of (dst_cap - length out4) m) long1
        ∙ regroup out t (extra_of (dst_cap - length out1) n) lits lo hi
            (extra_of (dst_cap - length out4) m)

pub emit_sequence-Emitted :
    (src : List ℕ) (dst_cap : ℕ) (out : List ℕ) (anchor ip len off : ℕ) (out' : List ℕ)
    → anchor ≤ ip
    → ip ≤ length src
    → emit_sequence src dst_cap out anchor ip len off ≡ some out'
    → Emitted src dst_cap out anchor ip len off out'
unfolding emit_sequence
emit_sequence-Emitted src dst_cap out anchor ip len off out' ha hp e =
    let done' : put_sequence src dst_cap out anchor ip len off ≡ out' = ground (arith, e) in
    let fits : length out
          + 1
          + (ip - anchor) / 255
          + 1
          + (ip - anchor)
          + 2
          + (len - min_match) / 255
          + 1
        ≤ dst_cap =
      ground (arith, e) in
    subst (Emitted src dst_cap out anchor ip len off) done'
      (put_sequence-Emitted src dst_cap out anchor ip len off ha hp fits)

-- What was emitted for the final literals.
pub record EmittedFinal (src : List ℕ) (dst_cap : ℕ) (out : List ℕ) (anchor : ℕ) (out' : List ℕ)
    : Type 0 where
  pub r1 : ℕ
  pub bytes :
      out'
      ≡ out
        ++ (token_of (code_of (length src - anchor)) 0
            ∷ (extra_of r1 (length src - anchor) ++ take (length src - anchor) (drop anchor src)))
  pub room1 : 15 ≤ length src - anchor → (length src - anchor - 15) / 255 < r1
  pub fits : length out' ≤ dst_cap

put_final-EmittedFinal :
    (src : List ℕ) (dst_cap : ℕ) (out : List ℕ) (anchor : ℕ)
    → length out + 1 + (length src - anchor) / 255 + 1 + (length src - anchor) ≤ dst_cap
    → EmittedFinal src dst_cap out anchor (put_final src dst_cap out anchor)
unfolding put_final
put_final-EmittedFinal src dst_cap out anchor fits = record {
  r1 = room;
  bytes = whole;
  room1 = h1;
  fits = rw whole (
      omega (
        arith,
        length-append out (t ∷ (extra_of room n ++ lits)),
        length-append (extra_of room n) lits,
        length-extra_of room n h1,
        length-take n (drop anchor src),
      ));
}
  where
    n : ℕ
    n = length src - anchor

    t : ℕ
    t = token_of (code_of n) 0

    out1 : List ℕ
    out1 = out ++ (t ∷ [])

    lits : List ℕ
    lits = take n (drop anchor src)

    room : ℕ
    room = dst_cap - length out1

    h1 : 15 ≤ n → (n - 15) / 255 < room
    h1 = room_of dst_cap (length out1) n (omega (arith, length-append out (t ∷ [])))

    whole : put_extra dst_cap out1 n ++ lits ≡ out ++ (t ∷ (extra_of room n ++ lits))
    whole =
        ap (λ l. l ++ lits) (put_extra-append dst_cap out1 n)
        ∙ append_assoc out1 (extra_of room n) lits
        ∙ append_assoc out (t ∷ []) (extra_of room n ++ lits)

pub emit_final-EmittedFinal :
    (src : List ℕ) (dst_cap : ℕ) (out : List ℕ) (anchor : ℕ) (out' : List ℕ)
    → emit_final src dst_cap out anchor ≡ some out'
    → EmittedFinal src dst_cap out anchor out'
unfolding emit_final
emit_final-EmittedFinal src dst_cap out anchor out' e =
    let done' : put_final src dst_cap out anchor ≡ out' = ground (arith, e) in
    let fits : length out + 1 + (length src - anchor) / 255 + 1 + (length src - anchor) ≤ dst_cap =
      ground (arith, e) in
    subst (EmittedFinal src dst_cap out anchor) done'
      (put_final-EmittedFinal src dst_cap out anchor fits)

pub emit_sequence-none :
    (src : List ℕ) (dst_cap : ℕ) (out : List ℕ) (anchor ip len off : ℕ)
    → emit_sequence src dst_cap out anchor ip len off ≡ none
    → dst_cap
      < length out + 1 + (ip - anchor) / 255 + 1 + (ip - anchor) + 2 + (len - min_match) / 255 + 1
unfolding emit_sequence
emit_sequence-none src dst_cap out anchor ip len off e = ground (arith, e)

pub emit_final-none :
    (src : List ℕ) (dst_cap : ℕ) (out : List ℕ) (anchor : ℕ)
    → emit_final src dst_cap out anchor ≡ none
    → dst_cap < length out + 1 + (length src - anchor) / 255 + 1 + (length src - anchor)
unfolding emit_final
emit_final-none src dst_cap out anchor e = ground (arith, e)
