-- ===== src/AadMap/Lookup.antt =====
-- The binary search of the map against a search from the front (zupt-5.2.10/src/zupt_format.c).
use zupt_web.Base.{
  ℕ, zero, suc, ◌+◌, ◌-◌, ◌/◌, ◌^◌, ◌≤◌, ◌<◌, ltb, ◌==◌, if◌then◌else◌, if_rule, Bool-cases, inl,
  inr, ◌⊎◌, subst, Bool, true, false, ◌≡◌, refl, sym, ap, List, [], ◌∷◌, Option, some, none, length,
  get_or, drop, length-append, length-drop, All, All-drop, IsByte, arith,
}
use zupt_web.Failure.{Result, ok, err, corrupt, ◌>>=◌}
use zupt_web.Block.{Block, frame, read_block}
use zupt_web.Block.Canonical.{read_block_canonical}
use zupt_web.AadMap.{
  AadEntry, add_entry, grow, build_loop, map_build, no_entry, search_loop, map_lookup, block_data,
  block_dedup_ref,
}

-- The number that stands first with this offset.
abbrev pub assoc : List AadEntry → ℕ → Option ℕ
assoc [] offset = none
assoc (e ∷ entries) offset = if e.offset == offset then some e.aad_seq else assoc entries offset

-- Strictly ascending offsets, none below `low`.
abbrev pub Ascending : ℕ → List AadEntry → Type 0
Ascending low [] = Unit
Ascending low (e ∷ entries) = (low ≤ e.offset) × Ascending (suc e.offset) entries

abbrev at : List AadEntry → ℕ → ℕ
at entries i = (get_or entries i no_entry).offset

Ascending-lower :
    (low : ℕ) (entries : List AadEntry) (i : ℕ)
    → Ascending low entries
    → i < length entries
    → low ≤ at entries i
Ascending-lower low [] i h l = absurd (omega arith)
Ascending-lower low (e ∷ entries) zero h l = h.0
Ascending-lower low (e ∷ entries) (suc i) h l =
    omega (arith, h.0, Ascending-lower (suc e.offset) entries i h.1 (omega arith))

Ascending-lt :
    (low : ℕ) (entries : List AadEntry) (i j : ℕ)
    → Ascending low entries
    → i < j
    → j < length entries
    → at entries i < at entries j
Ascending-lt low [] i j h p q = absurd (omega arith)
Ascending-lt low (e ∷ entries) i zero h p q = absurd (omega arith)
Ascending-lt low (e ∷ entries) zero (suc j) h p q =
    Ascending-lower (suc e.offset) entries j h.1 (omega arith)
Ascending-lt low (e ∷ entries) (suc i) (suc j) h p q =
    Ascending-lt (suc e.offset) entries i j h.1 (omega arith) (omega arith)

Ascending-le :
    (low : ℕ) (entries : List AadEntry) (i j : ℕ)
    → Ascending low entries
    → i ≤ j
    → j < length entries
    → at entries i ≤ at entries j
Ascending-le low entries i j h p q = elim (Bool-cases (i == j)) [
  | inl t ↦ let e : i ≡ j = ground arith in rw e (omega arith)
  | inr f ↦ omega (arith, Ascending-lt low entries i j h (ground arith) q)
]

ltb_none : (r : ℕ) → ltb r 0 ≡ false
ltb_none r = ground arith

-- `r` parts the offsets below the one asked for from the others.
record Splits (entries : List AadEntry) (offset r : ℕ) : Type 0 where
  pub inside : r ≤ length entries
  pub below : (i : ℕ) → i < r → at entries i < offset
  pub above : (i : ℕ) → r ≤ i → i < length entries → offset ≤ at entries i

search_loop-Splits :
    (fuel low left right offset : ℕ) (entries : List AadEntry)
    → Ascending low entries
    → right - left ≤ fuel
    → left ≤ right
    → right ≤ length entries
    → ((i : ℕ) → i < left → at entries i < offset)
    → ((i : ℕ) → right ≤ i → i < length entries → offset ≤ at entries i)
    → Splits entries offset (search_loop fuel entries offset left right)
unfolding search_loop
search_loop-Splits zero low left right offset entries h f o n b a = record {
  inside = omega arith;
  below = b;
  above = λ i p q. a i (omega arith) q;
}
search_loop-Splits (suc fuel) low left right offset entries h f o n b a =
    let middle = left + (right - left) / 2 in
    if_rule (Splits entries offset) (ltb left right)
      (λ t.
        if_rule (Splits entries offset) (ltb (at entries middle) offset)
          (λ u.
            search_loop-Splits fuel low (middle + 1) right offset entries h (ground arith)
              (ground arith) n (λ i p. before i middle (ground arith) (ground arith) (ground arith))
              a)
          (λ u.
            search_loop-Splits fuel low left middle offset entries h (ground arith) (ground arith)
              (ground arith) b (λ i p q. behind i middle p q (ground arith))))
      (λ t. record { inside = omega arith; below = b; above = λ i p q. a i (ground arith) q })
  where
    before :
        (i middle : ℕ)
        → i ≤ middle
        → middle < length entries
        → at entries middle < offset
        → at entries i < offset
    before i middle p q u = omega (arith, Ascending-le low entries i middle h p q)

    behind :
        (i middle : ℕ)
        → middle ≤ i
        → i < length entries
        → offset ≤ at entries middle
        → offset ≤ at entries i
    behind i middle p q u = omega (arith, Ascending-le low entries middle i h p q)

-- What the entry at the split says.
unfoldable found : (entries : List AadEntry) (offset r : ℕ) → Option ℕ
found entries offset r =
    if ltb r (length entries)
    then if at entries r == offset then some (get_or entries r no_entry).aad_seq else none
    else none

assoc-above :
    (entries : List AadEntry) (offset low : ℕ)
    → Ascending low entries
    → offset < low
    → assoc entries offset ≡ none
assoc-above [] offset low h l = refl
assoc-above (e ∷ entries) offset low h l =
    let other : (e.offset == offset) ≡ false = ground (arith, h.0) in
    rw other (assoc-above entries offset (suc e.offset) h.1 (omega (arith, h.0)))

assoc-Splits :
    (entries : List AadEntry) (offset low r : ℕ)
    → Ascending low entries
    → Splits entries offset r
    → found entries offset r ≡ assoc entries offset
unfolding found
assoc-Splits [] offset low r h s = rw (ltb_none r) refl
assoc-Splits (e ∷ entries) offset low zero h s =
    let first : ltb 0 (length (e ∷ entries)) ≡ true = ground arith in
    let least : offset ≤ e.offset = s.above 0 (omega arith) (omega arith) in
    rw first (
      if_rule
        (λ (o : Option ℕ).
          o ≡ (if e.offset == offset then some e.aad_seq else assoc entries offset))
        (e.offset == offset) (λ t. rw t refl)
        (λ f. rw f (sym (assoc-above entries offset (suc e.offset) h.1 (ground arith)))))
assoc-Splits (e ∷ entries) offset low (suc r) h s =
    let small : e.offset < offset = s.below 0 (omega arith) in
    let other : (e.offset == offset) ≡ false = ground arith in
    let same : ltb (suc r) (length (e ∷ entries)) ≡ ltb r (length entries) = ground arith in
    rw (other, same)
      (assoc-Splits entries offset (suc e.offset) r h.1 (record {
        inside = omega (arith, s.inside);
        below = λ i p. s.below (suc i) (omega arith);
        above = λ i p q. s.above (suc i) (omega arith) (omega arith);
      }))

-- On ascending offsets the binary search finds what a search from the front finds.
map_lookup-assoc :
    (entries : List AadEntry) (low offset : ℕ)
    → Ascending low entries
    → map_lookup entries offset ≡ assoc entries offset
unfolding map_lookup found
map_lookup-assoc entries low offset h =
    assoc-Splits entries offset low (search_loop (length entries) entries offset 0 (length entries))
      h
      (search_loop-Splits (length entries) low 0 (length entries) offset entries h (omega arith)
        (omega arith) (omega arith) (λ i p. absurd (omega arith)) (λ i p q. absurd (omega arith)))

Ascending-weaken :
    (low low' : ℕ) (entries : List AadEntry)
    → Ascending low entries
    → low' ≤ low
    → Ascending low' entries
Ascending-weaken low low' [] h l = tt
Ascending-weaken low low' (e ∷ entries) h l = (omega (arith, h.0), h.1)

abbrev Built : ℕ → Result (List AadEntry) → Type 0
Built low (ok entries) = Ascending low entries
Built low (err x) = Unit

Built-weaken : (low low' : ℕ) (r : Result (List AadEntry)) → Built low r → low' ≤ low → Built low' r
Built-weaken low low' (ok entries) h l = Ascending-weaken low low' entries h l
Built-weaken low low' (err x) h l = tt

one_more :
    (position sequence low : ℕ) (r : Result (List AadEntry))
    → Built low r
    → position < low
    → Built position (add_entry (record { offset = position; aad_seq = sequence }) r)
unfolding add_entry
one_more position sequence low (ok entries) h l =
    (omega arith, Ascending-weaken low (suc position) entries h l)
one_more position sequence low (err x) h l = tt

-- A frame is not empty.
frame-length : (b : Block) → 0 < length (frame b)
unfolding frame
frame-length b = omega arith

module _ (malloc : ℕ → Bool) (block_count : ℕ) (file : List ℕ) where
  -- A block that is read moves the position on.
  moves :
      (position : ℕ) (b : Block) (rest : List ℕ)
      → All IsByte file
      → read_block malloc (drop position file) ≡ ok (b, rest)
      → position < length file - length rest
  moves position b rest h e =
      let took =
        (read_block_canonical malloc (drop position file) b rest (All-drop IsByte position file h)
          e).0 in
      omega (
        arith,
        ap length took,
        length-append (frame b) rest,
        frame-length b,
        length-drop position file,
      )

  build_loop-Built :
      (left sequence position count capacity : ℕ)
      → All IsByte file
      → Built position (build_loop malloc block_count file left sequence position count capacity)
  unfolding build_loop
  build_loop-Built zero sequence position count capacity h = tt
  build_loop-Built (suc left) sequence position count capacity h =
      block (read_block malloc (drop position file)) refl
        (λ s p n c. build_loop-Built left s p n c h)
    where
      grown :
          (g : Result ℕ) (next : ℕ)
          → position < next
          → ((s p n c : ℕ) → Built p (build_loop malloc block_count file left s p n c))
          → Built position (
              g >>= λ c.
              add_entry
                (record { offset = position; aad_seq = sequence })
                (build_loop malloc block_count file left (sequence + 1) next (count + 1) c))
      grown (ok c) next l more =
          one_more position sequence next _ (more (sequence + 1) next (count + 1) c) l
      grown (err x) next l more = tt

      block :
          (m : Result (Block × List ℕ))
          → read_block malloc (drop position file) ≡ m
          → ((s p n c : ℕ) → Built p (build_loop malloc block_count file left s p n c))
          → Built position (
              m >>= λ b.
              let next = length file - length b.1 in
              if b.0.block_type == block_data
              then (grow malloc block_count count capacity >>= λ c.
                  add_entry
                    (record { offset = position; aad_seq = sequence })
                    (build_loop malloc block_count file left (sequence + 1) next (count + 1) c))
              else if b.0.block_type == block_dedup_ref
              then build_loop malloc block_count file left (sequence + 1) next count capacity
              else err corrupt)
      block (err x) e more = tt
      block (ok (b, rest)) e more =
          let next = length file - length rest in
          let l = moves position b rest h e in
          if_rule (Built position) (b.block_type == block_data)
            (λ _. grown (grow malloc block_count count capacity) next l more)
            λ _.
              if_rule (Built position) (b.block_type == block_dedup_ref)
                (λ _.
                  Built-weaken next position _ (more (sequence + 1) next count capacity)
                    (omega arith))
                (λ _. tt)

-- In a map that zupt_legacy_disk_aad_map_build returns, zupt_legacy_disk_aad_map_lookup finds for every
-- offset what a search from the front finds.
pub map_lookup-map_build :
    (malloc : ℕ → Bool) (block_count : ℕ) (file : List ℕ) (first : ℕ) (entries : List AadEntry)
    (offset : ℕ)
    → All IsByte file
    → map_build malloc block_count file first ≡ ok entries
    → map_lookup entries offset ≡ assoc entries offset
unfolding map_build
map_lookup-map_build malloc block_count file first entries offset h e =
    map_lookup-assoc entries first offset (ascending (Bool-cases (ltb (2 ^ 63 - 1) first)))
  where
    built : (r : Result (List AadEntry)) → Built first r → r ≡ ok entries → Ascending first entries
    built r b p = subst (Built first) p b

    ascending :
        (ltb (2 ^ 63 - 1) first ≡ true) ⊎ (ltb (2 ^ 63 - 1) first ≡ false) → Ascending first entries
    ascending (inl t) = absurd (ground (arith, e))
    ascending (inr f) =
        built (build_loop malloc block_count file block_count 0 first 0 0)
          (build_loop-Built malloc block_count file block_count 0 first 0 0 h) (ground (arith, e))
