-- ===== src/Dedup/Probe.antt =====
-- A lookup after an insertion.
use zupt_web.Base.{
  ℕ, zero, suc, ◌+◌, ◌*◌, ◌/◌, ◌%◌, ◌<◌, ◌≡◌, ◌≢◌, inl, inr, refl, ap, ◌∙◌, List, Bool, true, false,
  Option, some, none, leb, ◌==◌, if◌then◌else◌, bytes_eq_refl, arith, u32, Bool-cases,
}
use zupt_web.Dedup.{
  Entry, DedupCtx, Hit, lookup_loop, lookup_secure, probe, put, insert_loop, new_entry,
  insert_secure,
}

-- A slot that an insertion takes was free.
pub record Placed (ctx ctx' : DedupCtx) (e : Entry) (slot : ℕ) : Type 0 where
  pub free : (ctx.table slot).occupied ≡ 0
  pub same : ctx' ≡ put ctx slot e

pub insert_loop-Placed :
    (rounds : ℕ) (ctx ctx' : DedupCtx) (e : Entry) (idx i : ℕ)
    → insert_loop rounds ctx e idx i ≡ some ctx'
    → (slot : ℕ) × Placed ctx ctx' e slot
unfolding insert_loop
insert_loop-Placed zero ctx ctx' e idx i h = absurd (cc)
insert_loop-Placed (suc rounds) ctx ctx' e idx i h =
    elim (Bool-cases ((ctx.table (u32 (idx + i) % ctx.capacity)).occupied == 0)) [
      | inl t ↦ (u32 (idx + i) % ctx.capacity, record { free = ground arith; same = cc })
      | inr t ↦ insert_loop-Placed rounds ctx ctx' e idx (i + 1) (cc)
    ]

probe-free :
    (e : Entry) (fingerprint : ℕ) (digest : List ℕ) (rest : Option Hit)
    → e.occupied ≡ 0
    → probe e fingerprint digest rest ≡ none
unfolding probe
probe-free e fingerprint digest rest h = ground arith

choose_rest :
    (a b : Bool) (x hit : Hit) (rest rest' : Option Hit)
    → (rest ≡ some hit → rest' ≡ some hit)
    → (if a then none else if b then some x else rest) ≡ some hit
    → (if a then none else if b then some x else rest') ≡ some hit
choose_rest true b x hit rest rest' f h = absurd (cc)
choose_rest false true x hit rest rest' f h = h
choose_rest false false x hit rest rest' f h = f h

probe-rest :
    (e : Entry) (fingerprint : ℕ) (digest : List ℕ) (rest rest' : Option Hit) (hit : Hit)
    → (rest ≡ some hit → rest' ≡ some hit)
    → probe e fingerprint digest rest ≡ some hit
    → probe e fingerprint digest rest' ≡ some hit
unfolding probe
probe-rest e fingerprint digest rest rest' hit f h =
    choose_rest (e.occupied == 0) _ _ hit rest rest' f h

choose_none :
    (a b : Bool) (x hit : Hit) (rest rest' : Option Hit)
    → a ≡ false
    → (rest ≡ none → rest' ≡ some hit)
    → (if a then none else if b then some x else rest) ≡ none
    → (if a then none else if b then some x else rest') ≡ some hit
choose_none true b x hit rest rest' t f h = absurd (cc)
choose_none false true x hit rest rest' t f h = absurd (cc)
choose_none false false x hit rest rest' t f h = f h

-- A probe that passes an occupied slot finds what is found behind it.
probe-none :
    (e : Entry) (fingerprint : ℕ) (digest : List ℕ) (rest rest' : Option Hit) (hit : Hit)
    → (e.occupied == 0) ≡ false
    → (rest ≡ none → rest' ≡ some hit)
    → probe e fingerprint digest rest ≡ none
    → probe e fingerprint digest rest' ≡ some hit
unfolding probe
probe-none e fingerprint digest rest rest' hit t f h =
    choose_none (e.occupied == 0) _ _ hit rest rest' t f h

pub put-other :
    (ctx : DedupCtx) (slot at : ℕ) (e : Entry)
    → at ≢ slot
    → (put ctx slot e).table at ≡ ctx.table at
unfolding put
put-other ctx slot at e h = ground arith

pub put-capacity :
    (ctx : DedupCtx) (slot : ℕ) (e : Entry) → (put ctx slot e).capacity ≡ ctx.capacity
unfolding put
put-capacity ctx slot e = refl

pub put_self : (ctx : DedupCtx) (slot : ℕ) (e : Entry) → (put ctx slot e).table slot ≡ e
unfolding put
put_self ctx slot e = ground arith

-- A lookup that succeeds passes over occupied slots only, so a write to a free slot leaves it alone.
lookup_loop-put :
    (rounds : ℕ) (ctx : DedupCtx) (e : Entry) (slot fingerprint : ℕ) (digest : List ℕ) (idx i : ℕ)
    (hit : Hit)
    → (ctx.table slot).occupied ≡ 0
    → lookup_loop rounds ctx fingerprint digest idx i ≡ some hit
    → lookup_loop rounds (put ctx slot e) fingerprint digest idx i ≡ some hit
unfolding lookup_loop probe put
lookup_loop-put zero ctx e slot fingerprint digest idx i hit free h = absurd (cc)
lookup_loop-put (suc rounds) ctx e slot fingerprint digest idx i hit free h =
    let at = u32 (idx + i) % ctx.capacity in
    let rest = lookup_loop rounds ctx fingerprint digest idx (i + 1) in
    elim (Bool-cases (at == slot)) [
      | inl t ↦
          let q : at ≡ slot = ground arith in
          let z : (ctx.table at).occupied ≡ 0 = rw q free in
          let n : probe (ctx.table at) fingerprint digest rest ≡ none =
            probe-free (ctx.table at) fingerprint digest rest z in
          absurd (cc)
      | inr t ↦ rw (put-other ctx slot at e (ground arith)) (
          probe-rest (ctx.table at) fingerprint digest rest _ hit
            (lookup_loop-put rounds ctx e slot fingerprint digest idx (i + 1) hit free) h)
    ]

probe-match :
    (e : Entry) (rest : Option Hit)
    → e.occupied ≡ 1
    → probe e e.fingerprint e.digest rest ≡ some (e.block_offset, e.block_size, e.aad_seq)
unfolding probe
probe-match e rest h =
    let m : (e.fingerprint == e.fingerprint) ≡ true = ground arith in
    rw (h, m, bytes_eq_refl e.digest) refl

lookup_loop-insert_loop :
    (rounds : ℕ) (ctx ctx' : DedupCtx) (e : Entry) (idx i : ℕ)
    → e.occupied ≡ 1
    → insert_loop rounds ctx e idx i ≡ some ctx'
    → lookup_loop rounds ctx e.fingerprint e.digest idx i ≡ none
    → lookup_loop rounds ctx' e.fingerprint e.digest idx i
      ≡ some (e.block_offset, e.block_size, e.aad_seq)
unfolding lookup_loop insert_loop
lookup_loop-insert_loop zero ctx ctx' e idx i one h n = absurd (cc)
lookup_loop-insert_loop (suc rounds) ctx ctx' e idx i one h n =
    let at = u32 (idx + i) % ctx.capacity in
    elim (Bool-cases ((ctx.table at).occupied == 0)) [
      | inl t ↦
          let q : ctx' ≡ put ctx at e = cc in
          rw q (rw (put-capacity ctx at e, put_self ctx at e) (probe-match e _ one))
      | inr t ↦
          let h' : insert_loop rounds ctx e idx (i + 1) ≡ some ctx' = cc in
          let (slot, p) = insert_loop-Placed rounds ctx ctx' e idx (i + 1) h' in
          let apart : at ≢ slot = λ q. occupied_apart ctx at slot t p.free q in
          let entry : ctx'.table at ≡ ctx.table at =
            ap (λ (c : DedupCtx). c.table at) p.same ∙ put-other ctx slot at e apart in
          let size : ctx'.capacity ≡ ctx.capacity =
            ap (λ (c : DedupCtx). c.capacity) p.same ∙ unfold put in refl in
          let entry' : ctx'.table (u32 (idx + i) % ctx'.capacity) ≡ ctx.table at =
            ap (λ (k : ℕ). ctx'.table (u32 (idx + i) % k)) size ∙ entry in
          let rest = lookup_loop rounds ctx' e.fingerprint e.digest idx (i + 1) in
          ap (λ (k : Entry). probe k e.fingerprint e.digest rest) entry'
          ∙ probe-none (ctx.table at) e.fingerprint e.digest _ rest _ t
              (lookup_loop-insert_loop rounds ctx ctx' e idx (i + 1) one h') n
    ]
  where
    occupied_apart :
        (c : DedupCtx) (at slot : ℕ)
        → ((c.table at).occupied == 0) ≡ false
        → (c.table slot).occupied ≡ 0
        → at ≢ slot
    occupied_apart c at slot t z q = let w : (c.table at).occupied ≡ 0 = rw q z in ground (arith, w)

-- An insertion that succeeds is one into the probed slots, below the load limit.
pub insert_secure-loop :
    (ctx ctx' : DedupCtx) (fingerprint : ℕ) (digest : List ℕ) (offset size seq : ℕ)
    → insert_secure ctx fingerprint digest offset size seq ≡ some ctx'
    → (insert_loop 64 ctx
          (new_entry fingerprint digest offset size seq)
          (u32 (fingerprint % ctx.capacity))
          0
        ≡ some ctx')
      × (ctx.count < u32 (ctx.capacity * 3) / 4)
unfolding insert_secure
insert_secure-loop ctx ctx' fingerprint digest offset size seq h =
    elim (Bool-cases (leb (u32 (ctx.capacity * 3) / 4) ctx.count)) [
      | inl t ↦ absurd (cc)
      | inr t ↦ (cc, ground arith)
    ]

-- Where zupt_dedup_insert_secure succeeds for a block that zupt_dedup_lookup_secure did not find, a
-- lookup of the same fingerprint and digest then finds its offset, size and position.
pub lookup-insert :
    (ctx ctx' : DedupCtx) (fingerprint : ℕ) (digest : List ℕ) (offset size seq : ℕ)
    → insert_secure ctx fingerprint digest offset size seq ≡ some ctx'
    → lookup_secure ctx fingerprint digest ≡ none
    → lookup_secure ctx' fingerprint digest ≡ some (offset, size, seq)
unfolding lookup_secure new_entry
lookup-insert ctx ctx' fingerprint digest offset size seq h n =
    let (placed, room) = insert_secure-loop ctx ctx' fingerprint digest offset size seq h in
    let e = new_entry fingerprint digest offset size seq in
    let idx = u32 (fingerprint % ctx.capacity) in
    let (slot, p) = insert_loop-Placed 64 ctx ctx' e idx 0 placed in
    let same : u32 (fingerprint % ctx'.capacity) ≡ idx =
      ap (λ (c : DedupCtx). u32 (fingerprint % c.capacity)) p.same
      ∙ ap (λ (k : ℕ). u32 (fingerprint % k)) (put-capacity ctx slot e) in
    ap (λ (k : ℕ). lookup_loop 64 ctx' fingerprint digest k 0) same
    ∙ lookup_loop-insert_loop 64 ctx ctx' e idx 0 refl placed n

-- What zupt_dedup_lookup_secure finds it finds after any insertion that succeeds, too.
pub lookup-insert_other :
    (ctx ctx' : DedupCtx) (fingerprint : ℕ) (digest : List ℕ) (offset size seq : ℕ)
    (fingerprint' : ℕ) (digest' : List ℕ) (hit : Hit)
    → insert_secure ctx fingerprint digest offset size seq ≡ some ctx'
    → lookup_secure ctx fingerprint' digest' ≡ some hit
    → lookup_secure ctx' fingerprint' digest' ≡ some hit
unfolding lookup_secure
lookup-insert_other ctx ctx' fingerprint digest offset size seq fingerprint' digest' hit h found =
    let e = new_entry fingerprint digest offset size seq in
    let (placed, room) = insert_secure-loop ctx ctx' fingerprint digest offset size seq h in
    let (slot, p) = insert_loop-Placed 64 ctx ctx' e _ 0 placed in
    let idx = u32 (fingerprint' % ctx.capacity) in
    let kept = lookup_loop-put 64 ctx e slot fingerprint' digest' idx 0 hit p.free found in
    rw p.same (
      ap
        (λ (k : ℕ). lookup_loop 64 (put ctx slot e) fingerprint' digest' (u32 (fingerprint' % k)) 0)
        (put-capacity ctx slot e)
      ∙ kept)
