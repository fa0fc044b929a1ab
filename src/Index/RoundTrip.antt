-- ===== src/Index/RoundTrip.antt =====
-- An index read back from the bytes written (zupt-5.2.10/src/zupt_format.c).
use zupt_web.Base.{
  ℕ, ◌+◌, ◌-◌, ◌*◌, ◌/◌, ◌^◌, ◌≤◌, ◌<◌, ltb, leb, ◌==◌, Bool, true, false, ◌≡◌, refl, ap, ap₂, ◌∙◌,
  List, [], ◌∷◌, ◌++◌, append_assoc, append-nil, some, map, length, take, drop, length-append,
  take-append, drop-append, All, IsU32, IsU64, arith,
}
use zupt_web.Base.Outcome.{done}
use zupt_web.Failure.{ok}
use zupt_web.Wire.{le32_put, le64_put, le32_get, le64_get, encode_varint}
use zupt_web.Wire.Little.{length-le64_put}
use zupt_web.Wire.Varint.{decode_varint-encode_varint, encode_varint_size}
use zupt_web.Header.Layout.{drop_next, length-le32_put, read32, read64}
use zupt_web.PathSafety.{path_has_unsafe_text, memchr}
use zupt_web.Destinations.{validate_archive_destinations}
use zupt_web.Index.{
  IndexEntry, max_path, max_files, max_index_alloc_bytes, min_index_entry_bytes, sizeof_entry,
  put_entry, put_entries, put_index, move_on, next_varint, parse_fields, parse_path, parse_sized,
  parse_entry, add_entry, parse_entries, accept_entries, parse_counted, parse_found, parse_index,
}

-- The fields fit their types, and the path is one that parse_index takes.
pub record IsEntry (e : IndexEntry) : Type 0 where
  pub named : 0 < length e.path
  pub short : length e.path < max_path
  pub no_zero : memchr e.path 0 ≡ false
  pub safe : path_has_unsafe_text e.path ≡ done false
  pub size : IsU64 e.uncompressed_size
  pub packed : IsU64 e.compressed_size
  pub time : IsU64 e.modification_time
  pub hash : IsU64 e.content_hash
  pub offset : IsU64 e.first_block_offset
  pub blocks : IsU32 e.block_count
  pub attrs : IsU32 e.attributes

pub next_varint-encode_varint :
    (v : ℕ) (rest : List ℕ) → IsU64 v → next_varint (encode_varint v ++ rest) ≡ some (v, rest)
unfolding next_varint
next_varint-encode_varint v rest h =
    ap (move_on (encode_varint v ++ rest)) (decode_varint-encode_varint v rest h)
    ∙ (ap (λ l. some (v, l)) (drop-append (length (encode_varint v)) (encode_varint v) rest refl))

-- The fields behind the path, in front of what follows the entry.
abbrev fields : IndexEntry → List ℕ → List ℕ
fields e rest =
    le64_put e.uncompressed_size
    ++ (le64_put e.compressed_size
        ++ (le64_put e.modification_time
            ++ (le64_put e.content_hash
                ++ (le64_put e.first_block_offset
                    ++ (encode_varint e.block_count ++ (le32_put e.attributes ++ rest))))))

put_entry-fields :
    (e : IndexEntry) (rest : List ℕ)
    → put_entry e ++ rest ≡ encode_varint (length e.path) ++ (e.path ++ fields e rest)
unfolding put_entry
put_entry-fields e rest = simp append_assoc refl

length-fields :
    (e : IndexEntry) (rest : List ℕ)
    → length (fields e rest) ≡ 44 + length (encode_varint e.block_count) + length rest
length-fields e rest =
    let r6 = le32_put e.attributes ++ rest in
    let r5 = encode_varint e.block_count ++ r6 in
    let r4 = le64_put e.first_block_offset ++ r5 in
    let r3 = le64_put e.content_hash ++ r4 in
    let r2 = le64_put e.modification_time ++ r3 in
    let r1 = le64_put e.compressed_size ++ r2 in
    omega (
      arith,
      length-append (le64_put e.uncompressed_size) r1,
      length-append (le64_put e.compressed_size) r2,
      length-append (le64_put e.modification_time) r3,
      length-append (le64_put e.content_hash) r4,
      length-append (le64_put e.first_block_offset) r5,
      length-append (encode_varint e.block_count) r6,
      length-append (le32_put e.attributes) rest,
      length-le64_put e.uncompressed_size,
      length-le64_put e.compressed_size,
      length-le64_put e.modification_time,
      length-le64_put e.content_hash,
      length-le64_put e.first_block_offset,
      length-le32_put e.attributes,
    )

parse_fields-fields :
    (e : IndexEntry) (rest : List ℕ)
    → IsEntry e
    → parse_fields e.path (fields e rest) ≡ ok (e, rest)
unfolding parse_fields
parse_fields-fields e rest h =
    let bs = fields e rest in
    let r6 = le32_put e.attributes ++ rest in
    let r5 = encode_varint e.block_count ++ r6 in
    let r4 = le64_put e.first_block_offset ++ r5 in
    let r3 = le64_put e.content_hash ++ r4 in
    let r2 = le64_put e.modification_time ++ r3 in
    let r1 = le64_put e.compressed_size ++ r2 in
    let s1 : drop 8 bs ≡ r1 =
      drop_next 0 8 8 bs _ r1 refl (length-le64_put e.uncompressed_size) refl in
    let s2 : drop 16 bs ≡ r2 =
      drop_next 8 8 16 bs _ r2 s1 (length-le64_put e.compressed_size) refl in
    let s3 : drop 24 bs ≡ r3 =
      drop_next 16 8 24 bs _ r3 s2 (length-le64_put e.modification_time) refl in
    let s4 : drop 32 bs ≡ r4 = drop_next 24 8 32 bs _ r4 s3 (length-le64_put e.content_hash) refl in
    let s5 : drop 40 bs ≡ r5 =
      drop_next 32 8 40 bs _ r5 s4 (length-le64_put e.first_block_offset) refl in
    let f1 : le64_get bs ≡ e.uncompressed_size = read64 e.uncompressed_size bs r1 h.size refl in
    let f2 : le64_get (drop 8 bs) ≡ e.compressed_size = read64 e.compressed_size _ r2 h.packed s1 in
    let f3 : le64_get (drop 16 bs) ≡ e.modification_time =
      read64 e.modification_time _ r3 h.time s2 in
    let f4 : le64_get (drop 24 bs) ≡ e.content_hash = read64 e.content_hash _ r4 h.hash s3 in
    let f5 : le64_get (drop 32 bs) ≡ e.first_block_offset =
      read64 e.first_block_offset _ r5 h.offset s4 in
    let n : next_varint (drop 40 bs) ≡ some (e.block_count, r6) =
      ap next_varint s5 ∙ next_varint-encode_varint e.block_count r6 (omega (arith, h.blocks)) in
    let f6 : le32_get r6 ≡ e.attributes = read32 e.attributes r6 rest h.attrs refl in
    let l32 = length-le32_put e.attributes in
    let lr6 = length-append (le32_put e.attributes) rest in
    let enough : ltb (length bs) 44 ≡ false = ground (arith, length-fields e rest) in
    let few : ltb (2 ^ 32 - 1) e.block_count ≡ false = ground (arith, h.blocks) in
    let four : ltb (length r6) 4 ≡ false = ground arith in
    rw (enough, n, few, four, f1, f2, f3, f4, f5, f6)
      (ap (λ l. ok (e, l)) (drop-append 4 (le32_put e.attributes) rest l32))

parse_entry-put_entry :
    (e : IndexEntry) (rest : List ℕ)
    → IsEntry e
    → parse_entry (put_entry e ++ rest) ≡ done (ok (e, rest))
unfolding parse_entry parse_sized parse_path
parse_entry-put_entry e rest h =
    let p = e.path ++ fields e rest in
    let n = length e.path in
    let front : take n p ≡ e.path = take-append n e.path (fields e rest) refl in
    let back : drop n p ≡ fields e rest = drop-append n e.path (fields e rest) refl in
    let within : ltb (length p) n ≡ false = ground (arith, length-append e.path (fields e rest)) in
    let named : (n == 0) ≡ false = ground (arith, h.named) in
    let short : leb max_path n ≡ false = ground (arith, h.short) in
    let no_zero : memchr (take n p) 0 ≡ false = ap (λ l. memchr l 0) front ∙ h.no_zero in
    let safe : path_has_unsafe_text (take n p) ≡ done false =
      ap path_has_unsafe_text front ∙ h.safe in
    let found =
      ap next_varint (put_entry-fields e rest)
      ∙ next_varint-encode_varint n p (omega (arith, h.short)) in
    ap parse_sized found
    ∙ rw (within, named, short, no_zero, safe)
        (ap done (ap₂ parse_fields front back ∙ parse_fields-fields e rest h))

-- Every entry is written, and takes 47 bytes or more.
length-put_entry : (e : IndexEntry) → IsEntry e → 47 ≤ length (put_entry e)
length-put_entry e h = omega (
  arith,
  ap length (put_entry-fields e []),
  ap length (append-nil (put_entry e)),
  length-append (encode_varint (length e.path)) (e.path ++ fields e []),
  length-append e.path (fields e []),
  length-fields e [],
  h.named,
  (encode_varint_size (length e.path) (omega (arith, h.short))).0,
  (encode_varint_size e.block_count (omega (arith, h.blocks))).0,
)

written :
    (e : IndexEntry) (index : List IndexEntry)
    → IsEntry e
    → put_entries (e ∷ index) ≡ put_entry e ++ put_entries index
unfolding put_entries
written e index h =
    let named : (length e.path == 0) ≡ false = ground (arith, h.named) in rw named refl

length-put_entries :
    (index : List IndexEntry) → All IsEntry index → 47 * length index ≤ length (put_entries index)
length-put_entries [] h = omega arith
length-put_entries (e ∷ index) h = omega (
  arith,
  ap length (written e index h.0),
  length-append (put_entry e) (put_entries index),
  length-put_entry e h.0,
  length-put_entries index h.1,
)

parse_entries-put_entries :
    (index : List IndexEntry)
    → All IsEntry index
    → parse_entries (length index) (put_entries index) ≡ done (ok (index, []))
unfolding parse_entries
parse_entries-put_entries [] h = unfold put_entries in refl
parse_entries-put_entries (e ∷ index) h =
    rw
      (
        written e index h.0,
        parse_entry-put_entry e (put_entries index) h.0,
        parse_entries-put_entries index h.1,
      )
      (unfold add_entry in refl)

counted :
    (qsort : List (List ℕ) → List (List ℕ)) (malloc : ℕ → Bool) (index : List IndexEntry)
    → ((size : ℕ) → malloc size ≡ true)
    → All IsEntry index
    → length index ≤ max_index_alloc_bytes / sizeof_entry
    → validate_archive_destinations qsort malloc (map (λ (e : IndexEntry). e.path) index) false
      ≡ done (ok tt)
    → parse_counted qsort malloc (length index) (put_entries index) ≡ done (ok index)
unfolding parse_counted accept_entries
counted qsort malloc [] m h hl hv = unfold put_entries in refl
counted qsort malloc (e ∷ index) m h hl hv =
    let n = length (e ∷ index) in
    let p = put_entries (e ∷ index) in
    let files : ltb max_files n ≡ false = ground arith in
    let bytes : ltb (length p / min_index_entry_bytes) n ≡ false =
      ground (arith, length-put_entries (e ∷ index) h) in
    let fits : ltb (max_index_alloc_bytes / sizeof_entry) n ≡ false = ground arith in
    let some_entries : (n == 0) ≡ false = ground arith in
    rw
      (
        files,
        bytes,
        fits,
        some_entries,
        m (n * sizeof_entry),
        parse_entries-put_entries (e ∷ index) h,
        m (n * 8),
        hv,
      )
      refl

-- parse_index gives back the entries that the writer put into an index, for at most as many entries as
-- 256 MiB hold, where the fields fit their types, each path has 1 to 4095 bytes, no zero byte and no text
-- that zupt_path_has_unsafe_text rejects, the paths pass the test of their destinations, and the allocator
-- grants every request.
pub parse_index-put_index :
    (qsort : List (List ℕ) → List (List ℕ)) (malloc : ℕ → Bool) (index : List IndexEntry)
    → ((size : ℕ) → malloc size ≡ true)
    → All IsEntry index
    → length index ≤ max_index_alloc_bytes / sizeof_entry
    → validate_archive_destinations qsort malloc (map (λ (e : IndexEntry). e.path) index) false
      ≡ done (ok tt)
    → parse_index qsort malloc (put_index index) ≡ done (ok index)
unfolding parse_index parse_found put_index
parse_index-put_index qsort malloc index m h hl hv =
    ap (parse_found qsort malloc)
      (next_varint-encode_varint (length index) (put_entries index) (omega arith))
    ∙ counted qsort malloc index m h hl hv
