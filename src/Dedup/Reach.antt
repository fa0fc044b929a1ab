-- ===== src/Dedup/Reach.antt =====
-- The tables that the operations reach: what they hold, and how full they are.
use zupt_web.Base.{
  ℕ, zero, suc, ◌+◌, ◌*◌, ◌/◌, ◌%◌, ◌≤◌, ◌<◌, ◌≡◌, ◌≢◌, refl, sym, ap, subst, ◌∙◌, List, [], ◌∷◌,
  Bool, true, false, ◌&&◌, Option, some, none, ◌==◌, if◌then◌else◌, bytes_eq, bytes_eq→eq, arith,
  u32, Bool-cases, length, get_elem?, &&-left, &&-right, ◌⊎◌, inl, inr,
}
use zupt_web.Dedup.{
  Entry, DedupCtx, Hit, init, max_entries, empty_entry, lookup_loop, lookup_secure, probe, put,
  new_entry, insert_secure, record_hit, record_block,
}
use zupt_web.Dedup.Probe.{insert_loop-Placed, insert_secure-loop, put-other, put_self}

-- An insertion as the callers made it: the fingerprint, the digest, and what a lookup stores.
abbrev pub Insertion : Type 0
Insertion = ℕ × List ℕ × Hit

-- The states of the module, with the insertions that have succeeded, the last one first.
pub data Reaches : DedupCtx → List Insertion → Type 0 where
  fresh : (ctx : DedupCtx) → init true ≡ some ctx → Reaches ctx []
  inserted :
      (ctx ctx' : DedupCtx) (log : List Insertion) (fingerprint : ℕ) (digest : List ℕ)
      (offset size seq : ℕ)
      → Reaches ctx log
      → insert_secure ctx fingerprint digest offset size seq ≡ some ctx'
      → Reaches ctx' ((fingerprint, digest, (offset, size, seq)) ∷ log)
  hit :
      (ctx : DedupCtx) (log : List Insertion) (saved : ℕ)
      → Reaches ctx log
      → Reaches (record_hit ctx saved) log
  seen : (ctx : DedupCtx) (log : List Insertion) → Reaches ctx log → Reaches (record_block ctx) log

abbrev pub In : Insertion → List Insertion → Type 0
In x log = (i : ℕ) × (get_elem? log i ≡ some x)

abbrev contents : Entry → Insertion
contents e = (e.fingerprint, e.digest, (e.block_offset, e.block_size, e.aad_seq))

record Logged (ctx : DedupCtx) (log : List Insertion) : Type 0 where
  size : ctx.capacity ≡ max_entries
  number : ctx.count ≡ length log
  load : ctx.count ≤ 3 * max_entries / 4
  entries : (slot : ℕ) → (ctx.table slot).occupied ≢ 0 → In (contents (ctx.table slot)) log

limit : {c : ℕ} → c ≡ max_entries → u32 (c * 3) / 4 ≡ 1572864
limit e = rw e refl

put-Logged :
    (ctx : DedupCtx) (log : List Insertion) (slot : ℕ) (e : Entry)
    → Logged ctx log
    → ctx.count < u32 (ctx.capacity * 3) / 4
    → Logged (put ctx slot e) (contents e ∷ log)
put-Logged ctx log slot e g room = record {
  size = unfold put in g.size;
  number = unfold put in omega (arith, g.number, g.load);
  load = unfold put in omega (arith, room, limit g.size, g.load);
  entries = λ at busy. elim (Bool-cases (at == slot)) [
    | inl t ↦
        let q : at ≡ slot = ground arith in
        (
          0,
          ap some (
              sym (ap contents (ap (λ (k : ℕ). (put ctx slot e).table k) q ∙ put_self ctx slot e))),
        )
    | inr t ↦
        let same = put-other ctx slot at e (ground arith) in
        let (i, p) = g.entries at (λ z. busy (ap (λ (k : Entry). k.occupied) same ∙ z)) in
        (suc i, p ∙ ap (λ (k : Entry). some (contents k)) (sym same))
  ];
}

start-Logged : (ctx : DedupCtx) → init true ≡ some ctx → Logged ctx []
unfolding init
start-Logged ctx e =
    let table : ctx.table ≡ (λ i. empty_entry) = cc in
    record {
      size = cc;
      number = cc;
      load = let z : ctx.count ≡ 0 = cc in omega arith;
      entries = λ slot busy. absurd (busy (ap (λ (t : ℕ → Entry). (t slot).occupied) table));
    }

insert-Logged :
    (ctx ctx' : DedupCtx) (log : List Insertion) (fingerprint : ℕ) (digest : List ℕ)
    (offset size seq : ℕ)
    → Logged ctx log
    → insert_secure ctx fingerprint digest offset size seq ≡ some ctx'
    → Logged ctx' ((fingerprint, digest, (offset, size, seq)) ∷ log)
unfolding new_entry
insert-Logged ctx ctx' log fingerprint digest offset size seq g h =
    let (placed, room) = insert_secure-loop ctx ctx' fingerprint digest offset size seq h in
    let e = new_entry fingerprint digest offset size seq in
    let (slot, p) = insert_loop-Placed 64 ctx ctx' e _ 0 placed in
    subst (λ (c : DedupCtx). Logged c ((fingerprint, digest, (offset, size, seq)) ∷ log))
      (sym p.same) (put-Logged ctx log slot e g room)

hit-Logged :
    (ctx : DedupCtx) (log : List Insertion) (saved : ℕ)
    → Logged ctx log
    → Logged (record_hit ctx saved) log
unfolding record_hit
hit-Logged ctx log saved g = record {
  size = g.size;
  number = g.number;
  load = g.load;
  entries = g.entries;
}

seen-Logged :
    (ctx : DedupCtx) (log : List Insertion) → Logged ctx log → Logged (record_block ctx) log
unfolding record_block
seen-Logged ctx log g = record {
  size = g.size;
  number = g.number;
  load = g.load;
  entries = g.entries;
}

reaches-Logged : (ctx : DedupCtx) (log : List Insertion) → Reaches ctx log → Logged ctx log
reaches-Logged _ _ (fresh ctx e) = start-Logged ctx e
reaches-Logged _ _ (inserted ctx ctx' log fingerprint digest offset size seq r h) =
    insert-Logged ctx ctx' log fingerprint digest offset size seq (reaches-Logged ctx log r) h
reaches-Logged _ _ (hit ctx log saved r) = hit-Logged ctx log saved (reaches-Logged ctx log r)
reaches-Logged _ _ (seen ctx log r) = seen-Logged ctx log (reaches-Logged ctx log r)

-- What a probe returns it has read from an occupied entry with the fingerprint and the digest.
choose_some :
    (a b : Bool) (x y : Hit) (rest : Option Hit)
    → (if a then none else if b then some x else rest) ≡ some y
    → ((a ≡ false) × (b ≡ true) × (x ≡ y)) ⊎ (rest ≡ some y)
choose_some true b x y rest h = absurd (cc)
choose_some false true x y rest h = inl (refl, refl, cc)
choose_some false false x y rest h = inr h

abbrev Held : DedupCtx → ℕ → List ℕ → Hit → Type 0
Held ctx fingerprint digest found =
    (slot : ℕ) × ((ctx.table slot).occupied ≢ 0)
    × (contents (ctx.table slot) ≡ (fingerprint, digest, found))

lookup_loop-Held :
    (rounds : ℕ) (ctx : DedupCtx) (fingerprint : ℕ) (digest : List ℕ) (idx i : ℕ) (found : Hit)
    → lookup_loop rounds ctx fingerprint digest idx i ≡ some found
    → Held ctx fingerprint digest found
unfolding lookup_loop probe
lookup_loop-Held zero ctx fingerprint digest idx i found h = absurd (cc)
lookup_loop-Held (suc rounds) ctx fingerprint digest idx i found h =
    let at = u32 (idx + i) % ctx.capacity in
    let e = ctx.table at in
    let x : Hit = (e.block_offset, e.block_size, e.aad_seq) in
    let rest = lookup_loop rounds ctx fingerprint digest idx (i + 1) in
    elim (choose_some (e.occupied == 0) ((e.fingerprint == fingerprint) && bytes_eq e.digest digest)
      x found rest h) [
        | inl (busy, same, got) ↦
            (at, (λ z. zero_test e.occupied busy z), key e fingerprint digest found same got)
        | inr later ↦ lookup_loop-Held rounds ctx fingerprint digest idx (i + 1) found later
      ]
  where
    zero_test : (n : ℕ) → (n == 0) ≡ false → n ≢ 0
    zero_test n f z = ground arith

    key :
        (e : Entry) (fingerprint : ℕ) (digest : List ℕ) (found : Hit)
        → ((e.fingerprint == fingerprint) && bytes_eq e.digest digest) ≡ true
        → (e.block_offset, e.block_size, e.aad_seq) ≡ found
        → contents e ≡ (fingerprint, digest, found)
    key e fingerprint digest found t got =
        let tf = &&-left (e.fingerprint == fingerprint) (bytes_eq e.digest digest) t in
        let td = &&-right (e.fingerprint == fingerprint) (bytes_eq e.digest digest) t in
        let ef : e.fingerprint ≡ fingerprint = ground arith in
        let ed : e.digest ≡ digest = bytes_eq→eq e.digest digest td in cc

-- In every state that the operations reach, a lookup returns only what an insertion of the same
-- fingerprint and digest has stored, and the table holds as many entries as insertions have succeeded,
-- at most three quarters of its slots.
pub lookup-Reaches :
    (ctx : DedupCtx) (log : List Insertion) (fingerprint : ℕ) (digest : List ℕ) (found : Hit)
    → Reaches ctx log
    → lookup_secure ctx fingerprint digest ≡ some found
    → In (fingerprint, digest, found) log
      × (ctx.count ≡ length log)
      × (ctx.count ≤ 3 * max_entries / 4)
unfolding lookup_secure
lookup-Reaches ctx log fingerprint digest found r h =
    let g = reaches-Logged ctx log r in
    let (slot, busy, e) = lookup_loop-Held 64 ctx fingerprint digest _ 0 found h in
    let (i, p) = g.entries slot busy in ((i, p ∙ ap some e), g.number, g.load)
