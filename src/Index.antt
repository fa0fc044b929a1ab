-- ===== src/Index.antt =====
-- The index of an archive: the bytes that the writers of zupt-5.2.10/src/zupt_format.c put into the
-- index block, and parse_index, which reads them; Index.Legacy has parse_legacy_disk_index. A path is the list of its
-- bytes in front of the zero at its end. `malloc` says which requests the allocator grants; `calloc`
-- asks it too. `qsort` is the sort of the C library under zupt_compare_path_keys.
pub mod RoundTrip
pub mod Accepted
pub mod Legacy
mod Tests
use zupt_web.Base.{
  ℕ, zero, suc, ◌+◌, ◌-◌, ◌*◌, ◌/◌, ◌^◌, ltb, leb, ◌==◌, if◌then◌else◌, Bool, true, false, not,
  ◌||◌, List, [], ◌∷◌, ◌++◌, Option, some, none, map, length, take, drop,
}
use zupt_web.Base.Outcome.{Outcome, done, ◌>>=◌}
use zupt_web.Failure.{corrupt, nomem, overflow, Result, ok, err}
use zupt_web.Wire.{le32_put, le64_put, le32_get, le64_get, encode_varint, decode_varint}
use zupt_web.PathSafety.{path_has_unsafe_text, memchr}
use zupt_web.Destinations.{validate_archive_destinations}

pub record IndexEntry : Type 0 where
  pub path : List ℕ
  pub uncompressed_size : ℕ
  pub compressed_size : ℕ
  pub modification_time : ℕ
  pub content_hash : ℕ
  pub first_block_offset : ℕ
  pub block_count : ℕ
  pub attributes : ℕ

abbrev pub max_path : ℕ
max_path = 4096

abbrev pub max_files : ℕ
max_files = 2000000

abbrev pub max_index_alloc_bytes : ℕ
max_index_alloc_bytes = 256 * 1024 * 1024

abbrev pub min_index_entry_bytes : ℕ
min_index_entry_bytes = 47

-- `sizeof(zupt_index_entry_t)`: the path, five words of 64 bits and two of 32.
abbrev pub sizeof_entry : ℕ
sizeof_entry = 4096 + 5 * 8 + 2 * 4

-- One pass of the writer, for a path that is not empty.
unfoldable pub put_entry : IndexEntry → List ℕ
put_entry e =
    encode_varint (length e.path)
    ++ (e.path
        ++ (le64_put e.uncompressed_size
            ++ (le64_put e.compressed_size
                ++ (le64_put e.modification_time
                    ++ (le64_put e.content_hash
                        ++ (le64_put e.first_block_offset
                            ++ (encode_varint e.block_count ++ le32_put e.attributes)))))))

-- `for (fi = 0; fi < num_files; fi++)`; an entry without a path is passed over.
unfoldable pub put_entries : List IndexEntry → List ℕ
unfolding put_entry
put_entries [] = []
put_entries (e ∷ index) =
    if length e.path == 0 then put_entries index else put_entry e ++ put_entries index

unfoldable pub put_index : List IndexEntry → List ℕ
unfolding put_entries
put_index index = encode_varint (length index) ++ put_entries index

-- The read position moves on by the count that zupt_decode_varint returns.
unfoldable pub move_on : List ℕ → Option (ℕ × ℕ) → Option (ℕ × List ℕ)
move_on buf none = none
move_on buf (some (v, n)) = some (v, drop n buf)

unfoldable pub next_varint : List ℕ → Option (ℕ × List ℕ)
unfolding move_on
next_varint buf = move_on buf (decode_varint buf)

-- The fields behind the path.
unfoldable pub parse_fields : List ℕ → List ℕ → Result (IndexEntry × List ℕ)
unfolding next_varint
parse_fields path p =
    let words = drop 40 p in
    let found : Result (IndexEntry × List ℕ) = elim (next_varint words) [
      | none ↦ err corrupt
      | some (bc, rest) ↦
          if ltb (2 ^ 32 - 1) bc
          then err corrupt
          else if ltb (length rest) 4
          then err corrupt
          else ok (
            record {
              path = path;
              uncompressed_size = le64_get p;
              compressed_size = le64_get (drop 8 p);
              modification_time = le64_get (drop 16 p);
              content_hash = le64_get (drop 24 p);
              first_block_offset = le64_get (drop 32 p);
              block_count = bc;
              attributes = le32_get rest;
            },
            drop 4 rest,
          )
    ] in
    if ltb (length p) 44 then err corrupt else found

-- The path of `plen` bytes and what follows it.
unfoldable pub parse_path : ℕ → List ℕ → Outcome (Result (IndexEntry × List ℕ))
unfolding parse_fields
parse_path plen p =
    let path = take plen p in
    let named = path_has_unsafe_text path >>= λ bad.
    if bad then done (err corrupt) else done (parse_fields path (drop plen p)) in
    if ltb (length p) plen
    then done (err corrupt)
    else if (plen == 0) || leb max_path plen || memchr path 0
    then done (err corrupt)
    else named

unfoldable pub parse_sized : Option (ℕ × List ℕ) → Outcome (Result (IndexEntry × List ℕ))
unfolding parse_path
parse_sized none = done (err corrupt)
parse_sized (some (plen, rest)) = parse_path plen rest

unfoldable pub parse_entry : List ℕ → Outcome (Result (IndexEntry × List ℕ))
unfolding next_varint parse_sized
parse_entry p = parse_sized (next_varint p)

unfoldable pub add_entry :
    IndexEntry → Result (List IndexEntry × List ℕ) → Result (List IndexEntry × List ℕ)
add_entry e (ok (entries, rest)) = ok (e ∷ entries, rest)
add_entry e (err x) = err x

-- `for (i = 0; i < count; i++)`: the entries left.
unfoldable pub parse_entries : ℕ → List ℕ → Outcome (Result (List IndexEntry × List ℕ))
unfolding parse_entry add_entry
parse_entries zero p = done (ok ([], p))
parse_entries (suc left) p = parse_entry p >>= λ r. elim r [
  | err x ↦ done (err x)
  | ok (e, rest) ↦ parse_entries left rest >>= λ more. done (add_entry e more)
]

module _ (qsort : List (List ℕ) → List (List ℕ)) (malloc : ℕ → Bool) where
  -- Behind the entries: all bytes are read, and the paths do not collide.
  unfoldable pub accept_entries :
      Result (List IndexEntry × List ℕ) → Outcome (Result (List IndexEntry))
  accept_entries (err x) = done (err x)
  accept_entries (ok (entries, rest)) =
      let paths = map (λ (e : IndexEntry). e.path) entries in
      let checked = validate_archive_destinations qsort malloc paths false >>= λ r. elim r [
        | err x ↦ done (err x)
        | ok u ↦ done (ok entries)
      ] in
      if length rest == 0
      then if malloc (length entries * 8) then checked else done (err nomem)
      else done (err corrupt)

  -- The limits of the count. The test against SIZE_MAX holds wherever a `size_t` has 64 bits.
  unfoldable pub parse_counted : ℕ → List ℕ → Outcome (Result (List IndexEntry))
  unfolding parse_entries accept_entries
  parse_counted count p =
      let parsed = parse_entries count p >>= λ r. accept_entries r in
      if ltb max_files count
      then done (err overflow)
      else if ltb (length p / min_index_entry_bytes) count
      then done (err corrupt)
      else if ltb (max_index_alloc_bytes / sizeof_entry) count
      then done (err overflow)
      else if count == 0
      then if length p == 0 then done (ok []) else done (err corrupt)
      else if malloc (count * sizeof_entry)
      then parsed
      else done (err nomem)

  unfoldable pub parse_found : Option (ℕ × List ℕ) → Outcome (Result (List IndexEntry))
  unfolding parse_counted
  parse_found none = done (err corrupt)
  parse_found (some (count, p)) = parse_counted count p

  unfoldable pub parse_index : List ℕ → Outcome (Result (List IndexEntry))
  unfolding next_varint parse_found
  parse_index buf = parse_found (next_varint buf)
