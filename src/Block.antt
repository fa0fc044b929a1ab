-- ===== src/Block.antt =====
-- Block frames: the preface fields that every writer emits, read_block, and the fixed-width form of
-- the preface that the codes of blocks cover (zupt-5.2.10/src/zupt_format.c). A stream is the list of
-- the bytes ahead. `malloc` says which requests the allocator grants.
pub mod Frame
pub mod Canonical
mod Tests
use zupt_web.Base.{
  ℕ, ◌+◌, ◌*◌, ltb, if◌then◌else◌, Bool, List, [], ◌∷◌, ◌++◌, none, some, length, get_or, take,
  drop, bytes_eq,
}
use zupt_web.Wire.{le16_put, le16_get, le64_put, le64_get, encode_varint, read_varint}
use zupt_web.Header.{checksum_bytes}
use zupt_web.Failure.{io, corrupt, nomem, overflow, Result, ok, err, ◌>>=◌}

pub record Block : Type 0 where
  pub block_type : ℕ
  pub codec_id : ℕ
  pub block_flags : ℕ
  pub uncompressed_size : ℕ
  pub compressed_size : ℕ
  pub checksum : ℕ
  pub payload : List ℕ

abbrev pub block_magic : List ℕ
block_magic = 0xbb ∷ 0x01 ∷ []

abbrev pub max_block_sz : ℕ
max_block_sz = 256 * 1024 * 1024

-- The writes of a frame in their order.
unfoldable pub frame : Block → List ℕ
frame b =
    block_magic
    ++ ((b.block_type ∷ [])
        ++ (le16_put b.codec_id
            ++ (le16_put b.block_flags
                ++ (encode_varint b.uncompressed_size
                    ++ (encode_varint b.compressed_size ++ (le64_put b.checksum ++ b.payload))))))

-- `fread(_, 1, n, f) != n` is an error of the stream.
unfoldable pub fread : ℕ → List ℕ → Result (List ℕ × List ℕ)
fread n f = if ltb (length f) n then err io else ok (take n f, drop n f)

unfoldable pub r16le : List ℕ → Result (ℕ × List ℕ)
r16le f = fread 2 f >>= λ p. ok (le16_get p.0, p.1)

unfoldable pub r64le : List ℕ → Result (ℕ × List ℕ)
r64le f = fread 8 f >>= λ p. ok (le64_get p.0, p.1)

-- `zupt_read_varint(f, &v) < 0` is an error of the stream.
unfoldable pub varint_field : List ℕ → Result (ℕ × List ℕ)
varint_field f = elim (read_varint f) [ none ↦ err io | some (v, n, rest) ↦ ok (v, rest) ]

-- The limits of the sizes, the allocation and the payload.
unfoldable pub read_payload : (ℕ → Bool) → Block → List ℕ → Result (Block × List ℕ)
read_payload malloc b f =
    let filled = fread b.compressed_size f >>= λ p. ok (record b { payload = p.0 }, p.1) in
    if ltb (max_block_sz + 4096) b.compressed_size
    then err overflow
    else if ltb max_block_sz b.uncompressed_size
    then err overflow
    else if malloc b.compressed_size
    then filled
    else err nomem

unfoldable pub read_fields : (ℕ → Bool) → List ℕ → Result (Block × List ℕ)
read_fields malloc f = fread 1 f >>= λ t. r16le t.1 >>= λ c. r16le c.1 >>= λ g.
    varint_field g.1 >>= λ u. varint_field u.1 >>= λ z. r64le z.1 >>= λ k.
    read_payload malloc
      (record {
        block_type = get_or t.0 0 0;
        codec_id = c.0;
        block_flags = g.0;
        uncompressed_size = u.0;
        compressed_size = z.0;
        checksum = k.0;
        payload = [];
      })
      k.1

unfoldable pub read_block : (ℕ → Bool) → List ℕ → Result (Block × List ℕ)
read_block malloc f =
    fread 2 f >>= λ m. if bytes_eq m.0 block_magic then read_fields malloc m.1 else err corrupt

-- zupt_serialize_preface_aad, and the same bytes from scalars in zupt_serialize_preface_aad_scalars.
unfoldable pub serialize_preface_aad : Block → List ℕ
serialize_preface_aad b =
    (b.block_type ∷ [])
    ++ (le16_put b.codec_id
        ++ (le16_put b.block_flags
            ++ (checksum_bytes 8 0 b.uncompressed_size
                ++ (checksum_bytes 8 0 b.compressed_size ++ checksum_bytes 8 0 b.checksum))))
