-- ===== src/Lz/Step.antt =====
-- One round of zupt_lz_compress (zupt-5.2.10/src/zupt_lz.c): what it emits decodes to the part of the input
-- that it takes.
use zupt_web.Base.{
  ℕ, zero, suc, ◌+◌, ◌-◌, ◌*◌, ◌^◌, ◌≤◌, ◌<◌, ◌≡◌, refl, sym, ◌∙◌, ap, arith, Bool, false, ◌&&◌,
  ltb, leb, ◌==◌, if_rule, ltb→lt, inl, inr, Option, some, none, List, [], ◌∷◌, ◌++◌, append-nil,
  length, length-append, take, drop,
}
use zupt_web.Base.Outcome.{Outcome, done, ◌>>=◌}
use zupt_web.Lz.{
  min_match, Table, Encoder, find_match, insert_hash, emit_sequence, lazy_step, compress_step,
  sequence, decompress_loop,
}
use zupt_web.Lz.Match.{IsMatch, find_match-IsMatch}
use zupt_web.Lz.Lengths.{max_length, code_of, extra_of, token_of}
use zupt_web.Lz.Decode.{sequence_bytes, sequence_of, final_of}
use zupt_web.Lz.Emit.{Emitted, EmittedFinal, emit_sequence-Emitted, emit_sequence-none}

-- `tail` decodes to the input from `anchor` on, behind the part before it.
abbrev pub Decodes : List ℕ → ℕ → List ℕ → Type 0
Decodes src anchor tail =
    (dst_len fuel : ℕ)
    → length src ≤ dst_len
    → dst_len < 2 ^ 64
    → length tail ≤ fuel
    → decompress_loop dst_len fuel tail (take anchor src) ≡ done src

decompress_loop_step :
    (dst_len fuel token : ℕ) (s out s' out' : List ℕ)
    → sequence dst_len token s out ≡ done (s', out')
    → decompress_loop dst_len (suc fuel) (token ∷ s) out ≡ decompress_loop dst_len fuel s' out'
unfolding decompress_loop
decompress_loop_step dst_len fuel token s out s' out' e =
    ap (λ (o : Outcome (List ℕ × List ℕ)). o >>= λ p. decompress_loop dst_len fuel p.0 p.1) e

decompress_loop_end :
    (dst_len fuel : ℕ) (out : List ℕ) → decompress_loop dst_len fuel [] out ≡ done out
unfolding decompress_loop
decompress_loop_end dst_len zero out = refl
decompress_loop_end dst_len (suc fuel) out = refl

-- The chunk of a sequence in front of a tail that decodes from behind its match.
Decodes-sequence :
    (src : List ℕ) (dst_cap : ℕ) (out : List ℕ) (anchor ip len off : ℕ) (out' tail : List ℕ)
    → (m : Emitted src dst_cap out anchor ip len off out') → IsMatch src ip len off
    → anchor ≤ ip
    → length src ≤ max_length
    → Decodes src (ip + len) tail
    → (chunk : List ℕ) × (out' ≡ out ++ chunk) × Decodes src anchor (chunk ++ tail)
Decodes-sequence src dst_cap out anchor ip len off out' tail m match ha hs d =
    let token = token_of (code_of (ip - anchor)) (code_of (len - min_match)) in
    let body = sequence_bytes src anchor ip len off m.r1 m.r2 in
    (token ∷ body, m.bytes, λ dst_len fuel hd hw hf. go token body dst_len fuel hd hw hf refl refl)
  where
    go :
        (token : ℕ) (body : List ℕ) (dst_len fuel : ℕ)
        → length src ≤ dst_len
        → dst_len < 2 ^ 64
        → length (token ∷ body ++ tail) ≤ fuel
        → token ≡ token_of (code_of (ip - anchor)) (code_of (len - min_match))
        → body ≡ sequence_bytes src anchor ip len off m.r1 m.r2
        → decompress_loop dst_len fuel (token ∷ body ++ tail) (take anchor src) ≡ done src
    go token body dst_len zero hd hw hf et eb = absurd (omega arith)
    go token body dst_len (suc fuel) hd hw hf et eb =
        decompress_loop_step dst_len fuel token (body ++ tail) (take anchor src) tail
          (take (ip + len) src)
          (rw (et, eb)
            (sequence_of src dst_len anchor ip len off m.r1 m.r2 tail match ha hs m.room1 m.room2 hd
              hw))
        ∙ d dst_len fuel hd hw (omega (arith, length-append body tail))

pub Decodes-final :
    (src : List ℕ) (dst_cap : ℕ) (out : List ℕ) (anchor : ℕ) (out' : List ℕ)
    → EmittedFinal src dst_cap out anchor out'
    → anchor ≤ length src
    → length src ≤ max_length
    → (chunk : List ℕ) × (out' ≡ out ++ chunk) × Decodes src anchor chunk
Decodes-final src dst_cap out anchor out' m ha hs =
    let n = length src - anchor in
    let token = token_of (code_of n) 0 in
    let body = extra_of m.r1 n ++ take n (drop anchor src) in
    (token ∷ body, m.bytes, λ dst_len fuel hd hw hf. go token body dst_len fuel hd hf refl refl)
  where
    go :
        (token : ℕ) (body : List ℕ) (dst_len fuel : ℕ)
        → length src ≤ dst_len
        → length (token ∷ body) ≤ fuel
        → token ≡ token_of (code_of (length src - anchor)) 0
        → body ≡ extra_of m.r1 (length src - anchor) ++ take (length src - anchor) (drop anchor src)
        → decompress_loop dst_len fuel (token ∷ body) (take anchor src) ≡ done src
    go token body dst_len zero hd hf et eb = absurd (omega arith)
    go token body dst_len (suc fuel) hd hf et eb =
        decompress_loop_step dst_len fuel token body (take anchor src) [] src
          (rw (et, eb) (final_of src dst_len anchor m.r1 ha hs m.room1 hd))
        ∙ decompress_loop_end dst_len fuel src

-- The lazy step keeps a match, at `ip` or behind it.
lazy_step-IsMatch :
    (src : List ℕ) (max_chain : ℕ) (lazy : Bool) (hash_table chain : Table) (ip len1 off1 : ℕ)
    → length src < 2 ^ 31
    → IsMatch src ip len1 off1
    → let (table, chain', ip', len, off) =
        lazy_step src max_chain lazy hash_table chain ip len1 off1 in
      (ip ≤ ip') × IsMatch src ip' len off
unfolding lazy_step
lazy_step-IsMatch src max_chain lazy hash_table chain ip len1 off1 hs m =
    let (table, chain') = insert_hash src ip hash_table chain in
    let (len2, off2) = find_match src (ip + 1) table chain' max_chain in
    let keep : ip ≤ ip = omega arith in
    if_rule Kept (lazy && leb (ip + 1 + min_match) (length src))
      (λ _.
        if_rule Kept (ltb (len1 + 1) len2)
          (λ longer. elim (find_match-IsMatch src (ip + 1) table chain' max_chain hs) [
            | inl e ↦ absurd (omega (arith, ltb→lt (len1 + 1) len2 longer))
            | inr m' ↦ (omega arith, m')
          ])
          (λ _. (keep, m)))
      (λ _. (keep, m))
  where
    Kept : Table × Table × ℕ × ℕ × ℕ → Type 0
    Kept p = (ip ≤ p.2) × IsMatch src p.2 p.3 p.4

abbrev pub Valid : List ℕ → Encoder → Type 0
Valid src s = (s.anchor ≤ s.ip) × (s.ip ≤ length src) × (length s.out ≤ 2 * s.anchor)

-- A round moves `ip` on, and what it emits decodes.
pub record Stepped (src : List ℕ) (s s' : Encoder) : Type 0 where
  pub further : s.ip < s'.ip
  pub inside : s'.ip ≤ length src
  pub behind : s'.anchor ≤ s'.ip
  pub lean : length s'.out ≤ 2 * s'.anchor
  pub emitted :
      (tail : List ℕ)
      → Decodes src s'.anchor tail
      → (chunk : List ℕ) × (s'.out ≡ s.out ++ chunk) × Decodes src s.anchor (chunk ++ tail)

skipped :
    (src : List ℕ) (s : Encoder) (table chain : Table)
    → Valid src s
    → s.ip + min_match ≤ length src
    → Stepped src s (record s { hash_table = table; chain = chain; ip = s.ip + 1 })
skipped src s table chain v h = record {
  further = omega arith;
  inside = omega arith;
  behind = omega arith;
  lean = v.2;
  emitted = λ tail d. ([], sym (append-nil s.out), d);
}

matched :
    (src : List ℕ) (dst_cap : ℕ) (s : Encoder) (table chain : Table) (ip len off : ℕ) (out : List ℕ)
    → Valid src s
    → length src ≤ max_length
    → s.ip ≤ ip
    → IsMatch src ip len off
    → emit_sequence src dst_cap s.out s.anchor ip len off ≡ some out
    → Stepped src s
        (record { hash_table = table; chain = chain; ip = ip + len; anchor = ip + len; out = out })
matched src dst_cap s table chain ip len off out v hs hi m e = record {
  further = omega arith;
  inside = m.inside;
  behind = omega arith;
  lean = omega (arith, w.size, m.long);
  emitted = λ tail d.
      Decodes-sequence src dst_cap s.out s.anchor ip len off out tail w m (omega arith) hs d;
}
  where
    w : Emitted src dst_cap s.out s.anchor ip len off out
    w =
        emit_sequence-Emitted src dst_cap s.out s.anchor ip len off out (omega arith)
          (omega (arith, m.inside)) e

-- A failing round means that the room is short.
abbrev pub StepOk : List ℕ → ℕ → Encoder → Option Encoder → Type 0
StepOk src dst_cap s none = dst_cap < 2 * length src + 2
StepOk src dst_cap s (some s') = Stepped src s s'

emit_StepOk :
    (src : List ℕ) (dst_cap : ℕ) (s : Encoder) (table chain : Table) (ip len off : ℕ)
    → Valid src s
    → length src ≤ max_length
    → s.ip ≤ ip
    → IsMatch src ip len off
    → (o : Option (List ℕ)) → emit_sequence src dst_cap s.out s.anchor ip len off ≡ o
    → StepOk src dst_cap s (elim o [
      | none ↦ none
      | some out ↦ some (record {
        hash_table = table;
        chain = chain;
        ip = ip + len;
        anchor = ip + len;
        out = out;
      })
    ])
emit_StepOk src dst_cap s table chain ip len off v hs hi m none e =
    omega (arith, emit_sequence-none src dst_cap s.out s.anchor ip len off e, m.inside, m.long)
emit_StepOk src dst_cap s table chain ip len off v hs hi m (some out) e =
    matched src dst_cap s table chain ip len off out v hs hi m e

pub compress_step-StepOk :
    (src : List ℕ) (dst_cap max_chain : ℕ) (lazy : Bool) (s : Encoder)
    → length src < 2 ^ 31
    → Valid src s
    → s.ip + min_match ≤ length src
    → StepOk src dst_cap s (compress_step src dst_cap max_chain lazy s)
unfolding compress_step
compress_step-StepOk src dst_cap max_chain lazy s hw v h =
    let (len1, off1) = find_match src s.ip s.hash_table s.chain max_chain in
    if_rule (StepOk src dst_cap s) (len1 == 0) (λ _. skipped src s _ _ v h)
      λ found. elim (find_match-IsMatch src s.ip s.hash_table s.chain max_chain hw) [
        | inl e ↦ absurd (ne_of_test len1 found e)
        | inr m ↦
            let (table, chain, ip, len, off) =
              lazy_step src max_chain lazy s.hash_table s.chain s.ip len1 off1 in
            let kept =
              lazy_step-IsMatch src max_chain lazy s.hash_table s.chain s.ip len1 off1 hw m in
            emit_StepOk src dst_cap s _ _ ip len off v (omega arith) kept.0 kept.1
              (emit_sequence src dst_cap s.out s.anchor ip len off) refl
      ]
  where
    ne_of_test : (n : ℕ) → (n == 0) ≡ false → n ≡ 0 → ⊥
    ne_of_test n t e = ground arith
