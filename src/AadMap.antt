-- ===== src/AadMap.antt =====
-- The map from the offsets of data blocks to their numbers in old disk images:
-- zupt_legacy_disk_aad_map_build and zupt_legacy_disk_aad_map_lookup of
-- zupt-5.2.10/src/zupt_format.c. The stream is the list of the bytes of the file, and a position in it
-- is one that `ftello` returns. `malloc` says which requests the allocator grants; `realloc` asks it.
pub mod Lookup
mod Tests
use zupt_web.Base.{
  ℕ, zero, suc, ◌+◌, ◌-◌, ◌*◌, ◌/◌, ◌^◌, min, ltb, ◌==◌, if◌then◌else◌, Bool, List, [], ◌∷◌, Option,
  some, none, length, get_or, drop,
}
use zupt_web.Failure.{corrupt, nomem, overflow, invalid, Result, ok, err, ◌>>=◌}
use zupt_web.Block.{Block, read_block}

pub record AadEntry : Type 0 where
  pub offset : ℕ
  pub aad_seq : ℕ

abbrev pub block_data : ℕ
block_data = 0x00

abbrev pub block_dedup_ref : ℕ
block_dedup_ref = 0x04

unfoldable pub add_entry : AadEntry → Result (List AadEntry) → Result (List AadEntry)
add_entry e (ok entries) = ok (e ∷ entries)
add_entry e (err x) = err x

-- The capacity for one entry more, of 16 bytes each, in an array of `count` entries.
unfoldable pub grow : (ℕ → Bool) → ℕ → ℕ → ℕ → Result ℕ
grow malloc block_count count capacity =
    let doubled = if capacity == 0 then 64 else capacity * 2 in
    let capped = min doubled block_count in
    if count == capacity
    then if ltb ((2 ^ 64 - 1) / 16) doubled
      then err overflow
      else if malloc (capped * 16)
      then ok capped
      else err nomem
    else ok capacity

module _ (malloc : ℕ → Bool) (block_count : ℕ) (file : List ℕ) where
  -- The passes left, `sequence`, the position, and the count and the capacity of the array; the result
  -- is what the passes append to it.
  unfoldable pub build_loop : ℕ → ℕ → ℕ → ℕ → ℕ → Result (List AadEntry)
  unfolding grow add_entry
  build_loop zero sequence position count capacity = ok []
  build_loop (suc left) sequence position count capacity =
      read_block malloc (drop position file) >>= λ b.
      let next = length file - length b.1 in
      if b.0.block_type == block_data
      then (grow malloc block_count count capacity >>= λ c.
          add_entry (record { offset = position; aad_seq = sequence })
            (build_loop left (sequence + 1) next (count + 1) c))
      else if b.0.block_type == block_dedup_ref
      then build_loop left (sequence + 1) next count capacity
      else err corrupt

  unfoldable pub map_build : ℕ → Result (List AadEntry)
  unfolding build_loop
  map_build first_block_offset =
      if ltb (2 ^ 63 - 1) first_block_offset
      then err invalid
      else build_loop block_count 0 first_block_offset 0 0

abbrev pub no_entry : AadEntry
no_entry = record { offset = 0; aad_seq = 0 }

-- `while (left < right)`: the passes left, of which each makes the range shorter.
unfoldable pub search_loop : ℕ → List AadEntry → ℕ → ℕ → ℕ → ℕ
search_loop zero entries offset left right = left
search_loop (suc fuel) entries offset left right =
    let middle = left + (right - left) / 2 in
    let above = search_loop fuel entries offset (middle + 1) right in
    let below = search_loop fuel entries offset left middle in
    if ltb left right
    then if ltb (get_or entries middle no_entry).offset offset then above else below
    else left

unfoldable pub map_lookup : List AadEntry → ℕ → Option ℕ
unfolding search_loop
map_lookup entries offset =
    let left = search_loop (length entries) entries offset 0 (length entries) in
    let e = get_or entries left no_entry in
    if ltb left (length entries) then if e.offset == offset then some e.aad_seq else none else none
