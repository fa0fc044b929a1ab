-- ===== src/Dedup.antt =====
-- Block-level deduplication, zupt-5.2.10/src/zupt_dedup.c: the table of blocks seen, its lookup and its
-- insertion, the statistics, the reference blocks of archives without encryption, and their reader. The table is a
-- function of the slot. `allocated` says whether `calloc` grants the table.
pub mod Probe
pub mod Reach
pub mod Reference
mod Tests
use zupt_web.Base.{
  ℕ, zero, suc, ◌+◌, ◌*◌, ◌/◌, ◌%◌, leb, ◌==◌, ◌&&◌, ◌||◌, not, Bool, if◌then◌else◌, List, [], ◌∷◌,
  ◌++◌, Option, none, some, length, replicate, bytes_eq, length, drop, bit_and, u32, u64,
}
use zupt_web.Wire.{le64_put, le64_get}
use zupt_web.Failure.{corrupt, auth_fail, Result, ok, err}
use zupt_web.Block.{Block, frame}

pub record Entry : Type 0 where
  pub fingerprint : ℕ
  pub block_offset : ℕ
  pub digest : List ℕ
  pub block_size : ℕ
  pub occupied : ℕ
  pub aad_seq : ℕ

pub record DedupCtx : Type 0 where
  pub table : ℕ → Entry
  pub capacity : ℕ
  pub count : ℕ
  pub blocks_seen : ℕ
  pub blocks_deduped : ℕ
  pub bytes_saved : ℕ

-- ZUPT_DEDUP_MAX_ENTRIES
abbrev pub max_entries : ℕ
max_entries = 2 * 1024 * 1024

abbrev pub empty_entry : Entry
empty_entry = record {
  fingerprint = 0;
  block_offset = 0;
  digest = replicate 16 0;
  block_size = 0;
  occupied = 0;
  aad_seq = 0;
}

unfoldable pub init : Bool → Option DedupCtx
init allocated =
    if allocated
    then some (record {
      table = λ i. empty_entry;
      capacity = max_entries;
      count = 0;
      blocks_seen = 0;
      blocks_deduped = 0;
      bytes_saved = 0;
    })
    else none

-- What a lookup stores: the offset, the size and the position of the block.
abbrev pub Hit : Type 0
Hit = ℕ × ℕ × ℕ

-- One round of the probe; `rest` is the outcome of the rounds behind it.
unfoldable pub probe : Entry → ℕ → List ℕ → Option Hit → Option Hit
probe e fingerprint digest rest =
    if e.occupied == 0
    then none
    else if (e.fingerprint == fingerprint) && bytes_eq e.digest digest
    then some (e.block_offset, e.block_size, e.aad_seq)
    else rest

-- `for (i = 0; i < 64; i++)`: the rounds left, and `i`.
unfoldable pub lookup_loop : ℕ → DedupCtx → ℕ → List ℕ → ℕ → ℕ → Option Hit
lookup_loop zero ctx fingerprint digest idx i = none
lookup_loop (suc rounds) ctx fingerprint digest idx i =
    probe (ctx.table (u32 (idx + i) % ctx.capacity)) fingerprint digest
      (lookup_loop rounds ctx fingerprint digest idx (i + 1))

-- zupt_dedup_lookup_secure; `none` is the return of 0.
unfoldable pub lookup_secure : DedupCtx → ℕ → List ℕ → Option Hit
lookup_secure ctx fingerprint digest =
    lookup_loop 64 ctx fingerprint digest (u32 (fingerprint % ctx.capacity)) 0

unfoldable pub put : DedupCtx → ℕ → Entry → DedupCtx
put ctx slot e = record ctx {
  table = λ i. if i == slot then e else ctx.table i;
  count = u32 (ctx.count + 1);
}

unfoldable pub insert_loop : ℕ → DedupCtx → Entry → ℕ → ℕ → Option DedupCtx
insert_loop zero ctx e idx i = none
insert_loop (suc rounds) ctx e idx i =
    let slot = u32 (idx + i) % ctx.capacity in
    let rest = insert_loop rounds ctx e idx (i + 1) in
    if (ctx.table slot).occupied == 0 then some (put ctx slot e) else rest

unfoldable pub new_entry : ℕ → List ℕ → ℕ → ℕ → ℕ → Entry
new_entry fingerprint digest block_offset block_size block_aad_seq = record {
  fingerprint = fingerprint;
  block_offset = block_offset;
  digest = digest;
  block_size = block_size;
  occupied = 1;
  aad_seq = block_aad_seq;
}

-- zupt_dedup_insert_secure; `none` is the return of 0, which leaves the table as it is.
unfoldable pub insert_secure : DedupCtx → ℕ → List ℕ → ℕ → ℕ → ℕ → Option DedupCtx
insert_secure ctx fingerprint digest block_offset block_size block_aad_seq =
    let e = new_entry fingerprint digest block_offset block_size block_aad_seq in
    let placed = insert_loop 64 ctx e (u32 (fingerprint % ctx.capacity)) 0 in
    if leb (u32 (ctx.capacity * 3) / 4) ctx.count then none else placed

abbrev pub legacy_digest : List ℕ
legacy_digest = replicate 16 0

unfoldable pub lookup : DedupCtx → ℕ → Option (ℕ × ℕ)
lookup ctx fingerprint = elim (lookup_secure ctx fingerprint legacy_digest) [
  | none ↦ none
  | some (offset, size, seq) ↦ some (offset, size)
]

unfoldable pub insert : DedupCtx → ℕ → ℕ → ℕ → Option DedupCtx
insert ctx fingerprint block_offset block_size =
    insert_secure ctx fingerprint legacy_digest block_offset block_size 0

unfoldable pub record_hit : DedupCtx → ℕ → DedupCtx
record_hit ctx saved_bytes = record ctx {
  blocks_deduped = u64 (ctx.blocks_deduped + 1);
  bytes_saved = u64 (ctx.bytes_saved + saved_bytes);
}

unfoldable pub record_block : DedupCtx → DedupCtx
record_block ctx = record ctx { blocks_seen = u64 (ctx.blocks_seen + 1) }

-- The reference block of zupt_dedup_write_ref.
unfoldable pub ref_block : ℕ → ℕ → ℕ → Block
ref_block ref_offset orig_size orig_checksum = record {
  block_type = 0x04;
  codec_id = 0;
  block_flags = 0;
  uncompressed_size = orig_size;
  compressed_size = 8;
  checksum = orig_checksum;
  payload = le64_put ref_offset;
}

unfoldable pub write_ref : ℕ → ℕ → ℕ → List ℕ
unfolding ref_block
write_ref ref_offset orig_size orig_checksum = frame (ref_block ref_offset orig_size orig_checksum)

-- zupt_dedup_read_ref: the offset, and the position that authenticates the block referred to. `decrypt`
-- is the decryption of the payload of a block under its position and the keyring, with or without its
-- preface; `active` says that there is an active keyring.
unfoldable pub read_ref : (Block → ℕ → Option (List ℕ)) → Bool → Bool → ℕ → Block → Result (ℕ × ℕ)
read_ref decrypt require_authentication active current_aad_seq block =
    if not (block.block_type == 0x04) || not (block.codec_id == 0)
    then err corrupt
    else if require_authentication
    then if (bit_and block.block_flags 1 == 0) || not active
      then err auth_fail
      else elim (decrypt block current_aad_seq) [
        | none ↦ err auth_fail
        | some plain ↦
            if length plain == 16 then ok (le64_get plain, le64_get (drop 8 plain)) else err corrupt
      ]
    else if not (block.block_flags == 0) || not (block.compressed_size == 8)
    then err corrupt
    else ok (le64_get block.payload, 0)
