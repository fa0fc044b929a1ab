-- ===== src/Dedup/Tests.antt =====
-- A table with one block, and the theorems at it.
use zupt_web.Base.{◌≡◌, ◌≤◌, refl, [], ◌∷◌, ◌++◌, some, none, false, true, arith, ◌*◌, ◌/◌}
use zupt_web.Dedup.{
  DedupCtx, init, empty_entry, max_entries, put, new_entry, lookup_loop, lookup_secure, probe,
  insert_loop, insert_secure,
}
use zupt_web.Dedup.Probe.{lookup-insert, lookup-insert_other}
use zupt_web.Dedup.Reference.{read_ref-write_ref}
use zupt_web.Dedup.{write_ref, read_ref}
use zupt_web.Block.{read_block}
use zupt_web.Failure.{ok, ◌>>=◌}
use zupt_web.Dedup.Reach.{Reaches, fresh, inserted, In, lookup-Reaches}

abbrev table0 : DedupCtx
table0 = record {
  table = λ i. empty_entry;
  capacity = max_entries;
  count = 0;
  blocks_seen = 0;
  blocks_deduped = 0;
  bytes_saved = 0;
}

abbrev table1 : DedupCtx
table1 = put table0 5 (new_entry 5 (7 ∷ []) 64 300 2)

abbrev table2 : DedupCtx
table2 = put table1 6 (new_entry 5 (8 ∷ []) 90 300 3)

first : insert_secure table0 5 (7 ∷ []) 64 300 2 ≡ some table1
unfolding insert_secure insert_loop new_entry put
first = refl

-- The same fingerprint with another digest goes to the next slot.
second : insert_secure table1 5 (8 ∷ []) 90 300 3 ≡ some table2
unfolding insert_secure insert_loop new_entry put
second = refl

empty : lookup_secure table0 5 (7 ∷ []) ≡ none
unfolding lookup_secure lookup_loop probe
empty = refl

held : lookup_secure table1 5 (7 ∷ []) ≡ some (64, 300, 2)
unfolding lookup_secure lookup_loop probe new_entry put
held = refl

lookup-insert_example : lookup_secure table1 5 (7 ∷ []) ≡ some (64, 300, 2)
lookup-insert_example = lookup-insert table0 table1 5 (7 ∷ []) 64 300 2 first empty

lookup-insert_other_example : lookup_secure table2 5 (7 ∷ []) ≡ some (64, 300, 2)
lookup-insert_other_example =
    lookup-insert_other table1 table2 5 (8 ∷ []) 90 300 3 5 (7 ∷ []) (64, 300, 2) second held

start : Reaches table0 []
start = fresh table0 (unfold init in refl)

lookup-Reaches_example :
    In (5, 7 ∷ [], (64, 300, 2)) ((5, 7 ∷ [], (64, 300, 2)) ∷ [])
    × (table1.count ≡ 1)
    × (table1.count ≤ 3 * max_entries / 4)
lookup-Reaches_example =
    lookup-Reaches table1 ((5, 7 ∷ [], (64, 300, 2)) ∷ []) 5 (7 ∷ []) (64, 300, 2)
      (inserted table0 table1 [] 5 (7 ∷ []) 64 300 2 start first) held

read_ref-write_ref_example :
    (read_block (λ n. true) (write_ref 64 300 77 ++ (9 ∷ [])) >>= λ p.
    read_ref (λ b n. none) false true 3 p.0)
    ≡ ok (64, 0)
read_ref-write_ref_example =
    read_ref-write_ref (λ n. true) (λ b n. none) true 3 64 300 77 (9 ∷ []) (omega arith)
      (omega arith) (omega arith) refl
