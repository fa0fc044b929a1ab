-- ===== src/Index/Legacy.antt =====
-- The index of the disk backups of old versions: parse_legacy_disk_index of
-- zupt-5.2.10/src/zupt_format.c. `legacy_bytes` is the layout that the fields of one entry have there.
use zupt_web.Base.{
  ℕ, ◌-◌, ltb, leb, ◌==◌, if◌then◌else◌, Bool, true, false, not, ◌||◌, ◌≡◌, refl, ap, ap₂, ◌∙◌,
  List, [], ◌++◌, Option, some, none, length, take, drop, length-append, take-append, drop-append,
  arith,
}
use zupt_web.Base.Outcome.{Outcome, done, ◌>>=◌}
use zupt_web.Failure.{corrupt, nomem, Result, ok, err}
use zupt_web.Wire.{le32_put, le64_put, le32_get, le64_get, encode_varint}
use zupt_web.Wire.Little.{length-le64_put}
use zupt_web.Header.Layout.{drop_next, length-le32_put, read32, read64}
use zupt_web.PathSafety.{path_has_unsafe_text, memchr}
use zupt_web.Index.{IndexEntry, max_path, sizeof_entry, next_varint}
use zupt_web.Index.RoundTrip.{IsEntry, next_varint-encode_varint}

-- The 48 bytes behind the path.
unfoldable pub legacy_fields : List ℕ → List ℕ → IndexEntry
legacy_fields path p = record {
  path = path;
  uncompressed_size = le64_get p;
  compressed_size = le64_get (drop 8 p);
  modification_time = le64_get (drop 16 p);
  content_hash = le64_get (drop 24 p);
  first_block_offset = le64_get (drop 32 p);
  block_count = le32_get (drop 40 p);
  attributes = le32_get (drop 44 p);
}

module _ (malloc : ℕ → Bool) where
  unfoldable pub legacy_path : ℕ → List ℕ → Outcome (Result IndexEntry)
  unfolding legacy_fields
  legacy_path path_length p =
      let path = take path_length p in
      let entry = path_has_unsafe_text path >>= λ bad.
      if bad then done (err corrupt) else done (ok (legacy_fields path (drop path_length p))) in
      if (path_length == 0) || leb max_path path_length || ltb (length p) path_length
      then done (err corrupt)
      else if memchr path 0 || not (length p - path_length == 48)
      then done (err corrupt)
      else if malloc sizeof_entry
      then entry
      else done (err nomem)

  unfoldable pub legacy_sized : Option (ℕ × List ℕ) → Outcome (Result IndexEntry)
  unfolding legacy_path
  legacy_sized none = done (err corrupt)
  legacy_sized (some (path_length, p)) = legacy_path path_length p

  unfoldable pub parse_legacy_disk_index : List ℕ → Outcome (Result IndexEntry)
  unfolding next_varint legacy_sized
  parse_legacy_disk_index buf =
      let found = legacy_sized (next_varint (drop 4 buf)) in
      if ltb (length buf) 4 || not (le32_get buf == 1) then done (err corrupt) else found

abbrev fields : IndexEntry → List ℕ
fields e =
    le64_put e.uncompressed_size
    ++ (le64_put e.compressed_size
        ++ (le64_put e.modification_time
            ++ (le64_put e.content_hash
                ++ (le64_put e.first_block_offset
                    ++ (le32_put e.block_count ++ (le32_put e.attributes ++ []))))))

abbrev pub legacy_bytes : IndexEntry → List ℕ
legacy_bytes e = le32_put 1 ++ (encode_varint (length e.path) ++ (e.path ++ fields e))

length-fields : (e : IndexEntry) → length (fields e) ≡ 48
length-fields e =
    let r7 : List ℕ = [] in
    let r6 = le32_put e.attributes ++ r7 in
    let r5 = le32_put e.block_count ++ r6 in
    let r4 = le64_put e.first_block_offset ++ r5 in
    let r3 = le64_put e.content_hash ++ r4 in
    let r2 = le64_put e.modification_time ++ r3 in
    let r1 = le64_put e.compressed_size ++ r2 in
    omega (
      arith,
      length-append (le64_put e.uncompressed_size) r1,
      length-append (le64_put e.compressed_size) r2,
      length-append (le64_put e.modification_time) r3,
      length-append (le64_put e.content_hash) r4,
      length-append (le64_put e.first_block_offset) r5,
      length-append (le32_put e.block_count) r6,
      length-append (le32_put e.attributes) r7,
      length-le64_put e.uncompressed_size,
      length-le64_put e.compressed_size,
      length-le64_put e.modification_time,
      length-le64_put e.content_hash,
      length-le64_put e.first_block_offset,
      length-le32_put e.block_count,
      length-le32_put e.attributes,
    )

legacy_fields-fields : (e : IndexEntry) → IsEntry e → legacy_fields e.path (fields e) ≡ e
unfolding legacy_fields
legacy_fields-fields e h =
    let bs = fields e in
    let r7 : List ℕ = [] in
    let r6 = le32_put e.attributes ++ r7 in
    let r5 = le32_put e.block_count ++ r6 in
    let r4 = le64_put e.first_block_offset ++ r5 in
    let r3 = le64_put e.content_hash ++ r4 in
    let r2 = le64_put e.modification_time ++ r3 in
    let r1 = le64_put e.compressed_size ++ r2 in
    let s1 : drop 8 bs ≡ r1 =
      drop_next 0 8 8 bs _ r1 refl (length-le64_put e.uncompressed_size) refl in
    let s2 : drop 16 bs ≡ r2 =
      drop_next 8 8 16 bs _ r2 s1 (length-le64_put e.compressed_size) refl in
    let s3 : drop 24 bs ≡ r3 =
      drop_next 16 8 24 bs _ r3 s2 (length-le64_put e.modification_time) refl in
    let s4 : drop 32 bs ≡ r4 = drop_next 24 8 32 bs _ r4 s3 (length-le64_put e.content_hash) refl in
    let s5 : drop 40 bs ≡ r5 =
      drop_next 32 8 40 bs _ r5 s4 (length-le64_put e.first_block_offset) refl in
    let s6 : drop 44 bs ≡ r6 = drop_next 40 4 44 bs _ r6 s5 (length-le32_put e.block_count) refl in
    let f1 : le64_get bs ≡ e.uncompressed_size = read64 e.uncompressed_size bs r1 h.size refl in
    let f2 : le64_get (drop 8 bs) ≡ e.compressed_size = read64 e.compressed_size _ r2 h.packed s1 in
    let f3 : le64_get (drop 16 bs) ≡ e.modification_time =
      read64 e.modification_time _ r3 h.time s2 in
    let f4 : le64_get (drop 24 bs) ≡ e.content_hash = read64 e.content_hash _ r4 h.hash s3 in
    let f5 : le64_get (drop 32 bs) ≡ e.first_block_offset =
      read64 e.first_block_offset _ r5 h.offset s4 in
    let f6 : le32_get (drop 40 bs) ≡ e.block_count = read32 e.block_count _ r6 h.blocks s5 in
    let f7 : le32_get (drop 44 bs) ≡ e.attributes = read32 e.attributes _ r7 h.attrs s6 in
    rw (f1, f2, f3, f4, f5, f6, f7) refl

legacy_path-fields :
    (malloc : ℕ → Bool) (e : IndexEntry)
    → malloc sizeof_entry ≡ true
    → IsEntry e
    → legacy_path malloc (length e.path) (e.path ++ fields e) ≡ done (ok e)
unfolding legacy_path
legacy_path-fields malloc e m h =
    let p = e.path ++ fields e in
    let n = length e.path in
    let front : take n p ≡ e.path = take-append n e.path (fields e) refl in
    let back : drop n p ≡ fields e = drop-append n e.path (fields e) refl in
    let both = length-append e.path (fields e) in
    let within : ltb (length p) n ≡ false = ground (arith, both) in
    let behind : (length p - n == 48) ≡ true = ground (arith, both, length-fields e) in
    let named : (n == 0) ≡ false = ground (arith, h.named) in
    let short : leb max_path n ≡ false = ground (arith, h.short) in
    let no_zero : memchr (take n p) 0 ≡ false = ap (λ l. memchr l 0) front ∙ h.no_zero in
    let safe : path_has_unsafe_text (take n p) ≡ done false =
      ap path_has_unsafe_text front ∙ h.safe in
    rw (within, behind, named, short, no_zero, safe, m)
      (ap (λ x. done (ok x)) (ap₂ legacy_fields front back ∙ legacy_fields-fields e h))

-- parse_legacy_disk_index gives back the entry whose fields stand in the layout of `legacy_bytes`, where
-- the fields fit their types, the path has 1 to 4095 bytes, no zero byte and no text that
-- zupt_path_has_unsafe_text rejects, and the allocator grants the entry.
pub parse_legacy_disk_index-legacy_bytes :
    (malloc : ℕ → Bool) (e : IndexEntry)
    → malloc sizeof_entry ≡ true
    → IsEntry e
    → parse_legacy_disk_index malloc (legacy_bytes e) ≡ done (ok e)
unfolding parse_legacy_disk_index legacy_sized
parse_legacy_disk_index-legacy_bytes malloc e m h =
    let n = length e.path in
    let p = e.path ++ fields e in
    let rest = encode_varint n ++ p in
    let buf = le32_put 1 ++ rest in
    let four : ltb (length buf) 4 ≡ false =
      ground (arith, length-append (le32_put 1) rest, length-le32_put 1) in
    let one : le32_get buf ≡ 1 = read32 1 buf rest (omega arith) refl in
    let behind : drop 4 buf ≡ rest = drop-append 4 (le32_put 1) rest (length-le32_put 1) in
    let found : next_varint (drop 4 buf) ≡ some (n, p) =
      ap next_varint behind ∙ next_varint-encode_varint n p (omega (arith, h.short)) in
    let read : legacy_sized malloc (next_varint (drop 4 buf)) ≡ done (ok e) =
      ap (legacy_sized malloc) found ∙ legacy_path-fields malloc e m h in
    rw (four, one) read
