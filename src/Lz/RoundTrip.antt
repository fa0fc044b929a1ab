-- ===== src/Lz/RoundTrip.antt =====
-- zupt_lz_decompress gives back what zupt_lz_compress was given (zupt-5.2.10/src/zupt_lz.c).
use zupt_web.Base.{
  ℕ, zero, suc, ◌+◌, ◌*◌, ◌^◌, ◌≤◌, ◌<◌, ◌≡◌, refl, ◌∙◌, ap, arith, Bool, true, false, ltb, ◌==◌,
  if_rule, ◌⊎◌, inl, inr, Option, some, none, List, ◌++◌, append_assoc, length,
}
use zupt_web.Base.Outcome.{Outcome, done, fail, fault, hang}
use zupt_web.Lz.{
  min_match, Encoder, emit_final, compress_step, compress_loop, start, tables, compress, decompress,
}
use zupt_web.Lz.Emit.{emit_final-EmittedFinal, emit_final-none}
use zupt_web.Lz.Step.{Decodes, Decodes-final, Valid, Stepped, StepOk, compress_step-StepOk}

-- The end of the loop: what was written fits `dst`, and decodes behind what stood there.
record Finished (src : List ℕ) (dst_cap : ℕ) (s : Encoder) (res : List ℕ) : Type 0 where
  tail : List ℕ
  written : res ≡ s.out ++ tail
  decodes : Decodes src s.anchor tail
  fits : length res ≤ dst_cap

abbrev LoopOk : List ℕ → ℕ → Encoder → Outcome (List ℕ) → Type 0
LoopOk src dst_cap s (done res) = Finished src dst_cap s res
LoopOk src dst_cap s fail = dst_cap < 2 * length src + 2
LoopOk src dst_cap s fault = ⊥
LoopOk src dst_cap s hang = ⊥

LoopOk-back :
    (src : List ℕ) (dst_cap : ℕ) (s s' : Encoder) (o : Outcome (List ℕ))
    → Stepped src s s'
    → LoopOk src dst_cap s' o
    → LoopOk src dst_cap s o
LoopOk-back src dst_cap s s' (done res) st f =
    let (chunk, e, d) = st.emitted f.tail f.decodes in
    record {
      tail = chunk ++ f.tail;
      written = f.written ∙ ap (λ l. l ++ f.tail) e ∙ append_assoc s.out chunk f.tail;
      decodes = d;
      fits = f.fits;
    }
LoopOk-back src dst_cap s s' fail st f = f
LoopOk-back src dst_cap s s' fault st f = f
LoopOk-back src dst_cap s s' hang st f = f

final-LoopOk :
    (src : List ℕ) (dst_cap : ℕ) (s : Encoder)
    → length src < 2 ^ 31
    → Valid src s
    → (o : Option (List ℕ)) → emit_final src dst_cap s.out s.anchor ≡ o
    → LoopOk src dst_cap s (elim o [ none ↦ fail | some out ↦ done out ])
final-LoopOk src dst_cap s hw v none e = omega (arith, emit_final-none src dst_cap s.out s.anchor e)
final-LoopOk src dst_cap s hw v (some out) e =
    let m = emit_final-EmittedFinal src dst_cap s.out s.anchor out e in
    let (chunk, ec, d) =
      Decodes-final src dst_cap s.out s.anchor out m (omega arith) (omega arith) in
    record { tail = chunk; written = ec; decodes = d; fits = m.fits }

compress_loop-LoopOk :
    (fuel : ℕ) (src : List ℕ) (dst_cap max_chain : ℕ) (lazy : Bool) (s : Encoder)
    → length src < 2 ^ 31
    → Valid src s
    → length src < s.ip + fuel
    → LoopOk src dst_cap s (compress_loop fuel src dst_cap max_chain lazy s)
unfolding compress_loop
compress_loop-LoopOk zero src dst_cap max_chain lazy s hw v hf = absurd (omega arith)
compress_loop-LoopOk (suc fuel) src dst_cap max_chain lazy s hw v hf =
    go (ltb (length src) (s.ip + min_match)) refl
      (λ s' v' hf'. compress_loop-LoopOk fuel src dst_cap max_chain lazy s' hw v' hf')
  where
    further :
        (o : Option Encoder)
        → StepOk src dst_cap s o
        → ((s' : Encoder)
            → Valid src s'
            → length src < s'.ip + fuel
            → LoopOk src dst_cap s' (compress_loop fuel src dst_cap max_chain lazy s'))
        → LoopOk src dst_cap s
            (elim o [ none ↦ fail | some s' ↦ compress_loop fuel src dst_cap max_chain lazy s' ])
    further none st rec = st
    further (some s') st rec =
        LoopOk-back src dst_cap s s' _ st
          (rec s' (st.behind, st.inside, st.lean) (omega (arith, st.further)))

    go :
        (b : Bool)
        → ltb (length src) (s.ip + min_match) ≡ b
        → ((s' : Encoder)
            → Valid src s'
            → length src < s'.ip + fuel
            → LoopOk src dst_cap s' (compress_loop fuel src dst_cap max_chain lazy s'))
        → LoopOk src dst_cap s (elim b [
          | true ↦ elim (emit_final src dst_cap s.out s.anchor) [
            | none ↦ fail
            | some out ↦ done out
          ]
          | false ↦ elim (compress_step src dst_cap max_chain lazy s) [
            | none ↦ fail
            | some s' ↦ compress_loop fuel src dst_cap max_chain lazy s'
          ]
        ])
    go true e rec = final-LoopOk src dst_cap s hw v (emit_final src dst_cap s.out s.anchor) refl
    go false e rec =
        further (compress_step src dst_cap max_chain lazy s)
          (compress_step-StepOk src dst_cap max_chain lazy s hw v (ground (arith, e))) rec

-- What becomes of a block that is compressed and decompressed.
abbrev pub Restores : (ℕ → Bool) → List ℕ → ℕ → ℕ → Outcome (List ℕ) → Type 0
Restores malloc src dst_cap dst_len (done packed) =
    (length packed ≤ dst_cap) × (decompress packed dst_len ≡ done src)
Restores malloc src dst_cap dst_len fail = (dst_cap < 2 * length src + 2) ⊎ (tables malloc ≡ false)
Restores malloc src dst_cap dst_len fault = ⊥
Restores malloc src dst_cap dst_len hang = ⊥

-- From the start of the input the bytes decode as zupt_lz_decompress does.
restored :
    (malloc : ℕ → Bool) (src : List ℕ) (dst_cap dst_len : ℕ) (o : Outcome (List ℕ))
    → length src ≤ dst_len
    → dst_len < 2 ^ 64
    → LoopOk src dst_cap start o
    → Restores malloc src dst_cap dst_len o
unfolding decompress
restored malloc src dst_cap dst_len (done res) hd hl f =
    (f.fits, rw f.written (f.decodes dst_len (length f.tail) hd hl (omega arith)))
restored malloc src dst_cap dst_len fail hd hl f = inl f
restored malloc src dst_cap dst_len fault hd hl f = f
restored malloc src dst_cap dst_len hang hd hl f = f

-- For a block of at least one byte and less than 2^31, at every level, zupt_lz_compress ends and
-- either writes at most `dst_cap` bytes, from which zupt_lz_decompress gives back the block in any
-- buffer that it fits, or returns 0; that happens only where `dst_cap` is below 2 * src_len + 2, or where
-- the allocator does not grant one of the two tables.
pub decompress-compress :
    (malloc : ℕ → Bool) (src : List ℕ) (dst_cap level dst_len : ℕ)
    → 0 < length src
    → length src < 2 ^ 31
    → length src ≤ dst_len
    → dst_len < 2 ^ 64
    → Restores malloc src dst_cap dst_len (compress malloc src dst_cap level)
unfolding compress
decompress-compress malloc src dst_cap level dst_len h0 hw hd hl =
    if_rule (Restores malloc src dst_cap dst_len) (length src == 0)
      (λ e. absurd (ground (arith, e)))
      λ _.
        if_rule (Restores malloc src dst_cap dst_len) (tables malloc)
          (λ _. restored malloc src dst_cap dst_len _ hd hl (
            compress_loop-LoopOk (length src + 1) src dst_cap _ _ start hw (omega arith)
              (omega arith)))
          (λ e. inr e)
