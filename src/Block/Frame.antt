-- ===== src/Block/Frame.antt =====
-- read_block against the frame that the writers emit.
use zupt_web.Base.{
  ℕ, ◌+◌, ◌≤◌, ◌≡◌, refl, sym, ap, ◌∙◌, List, [], ◌∷◌, ◌++◌, append_assoc, append-nil, Bool, true,
  false, length, length-append, IsByte, IsU16, IsU64, arith, take-append, drop-append, ltb,
}
use zupt_web.Wire.{le16_put, le16_get, le64_put, le64_get, encode_varint}
use zupt_web.Wire.Little.{length-le64_put, le64_get-le64_put, le16_get-le16_put}
use zupt_web.Wire.Varint.{decode_varint-encode_varint}
use zupt_web.Wire.Canonical.{read_varint-eq-decode_varint}
use zupt_web.Failure.{ok}
use zupt_web.Block.{
  Block, block_magic, max_block_sz, frame, fread, r16le, r64le, varint_field, read_payload,
  read_fields, read_block,
}

-- The fields fit their types, and the sizes the limits of the reader.
pub record IsBlock (b : Block) : Type 0 where
  pub type_byte : IsByte b.block_type
  pub codec : IsU16 b.codec_id
  pub flags : IsU16 b.block_flags
  pub size : b.uncompressed_size ≤ max_block_sz
  pub packed_size : b.compressed_size ≤ max_block_sz + 4096
  pub sum : IsU64 b.checksum
  pub payload_len : length b.payload ≡ b.compressed_size

fread-append : (n : ℕ) (xs rest : List ℕ) → length xs ≡ n → fread n (xs ++ rest) ≡ ok (xs, rest)
unfolding fread
fread-append n xs rest e =
    let long : ltb (length (xs ++ rest)) n ≡ false = ground (arith, length-append xs rest) in
    rw (long, take-append n xs rest e, drop-append n xs rest e) refl

r16le-le16_put : (v : ℕ) (rest : List ℕ) → IsU16 v → r16le (le16_put v ++ rest) ≡ ok (v, rest)
unfolding r16le
r16le-le16_put v rest h =
    let got : le16_get (le16_put v) ≡ v =
      ap le16_get (sym (append-nil (le16_put v))) ∙ le16_get-le16_put v [] h in
    rw (fread-append 2 (le16_put v) rest (unfold le16_put in refl), got) refl

r64le-le64_put : (v : ℕ) (rest : List ℕ) → IsU64 v → r64le (le64_put v ++ rest) ≡ ok (v, rest)
unfolding r64le
r64le-le64_put v rest h =
    let got : le64_get (le64_put v) ≡ v =
      ap le64_get (sym (append-nil (le64_put v))) ∙ le64_get-le64_put v [] h in
    rw (fread-append 8 (le64_put v) rest (length-le64_put v), got) refl

varint_field-encode_varint :
    (v : ℕ) (rest : List ℕ) → IsU64 v → varint_field (encode_varint v ++ rest) ≡ ok (v, rest)
unfolding varint_field
varint_field-encode_varint v rest h =
    rw
      (
        varint_field,
        read_varint-eq-decode_varint (encode_varint v ++ rest),
        decode_varint-encode_varint v rest h,
        drop-append (length (encode_varint v)) (encode_varint v) rest refl,
      )
      refl

read_payload-append :
    (malloc : ℕ → Bool) (b : Block) (bytes rest : List ℕ)
    → b.uncompressed_size ≤ max_block_sz
    → b.compressed_size ≤ max_block_sz + 4096
    → length bytes ≡ b.compressed_size
    → malloc b.compressed_size ≡ true
    → read_payload malloc b (bytes ++ rest) ≡ ok (record b { payload = bytes }, rest)
unfolding read_payload
read_payload-append malloc b bytes rest hu hc l m =
    let fits : ltb (max_block_sz + 4096) b.compressed_size ≡ false = ground arith in
    let fits' : ltb max_block_sz b.uncompressed_size ≡ false = ground arith in
    rw (fits, fits', m, fread-append b.compressed_size bytes rest l) refl

-- The frame in front of what follows it.
pub frame_onto :
    (b : Block) (rest : List ℕ)
    → frame b ++ rest
      ≡ block_magic
        ++ ((b.block_type ∷ [])
            ++ (le16_put b.codec_id
                ++ (le16_put b.block_flags
                    ++ (encode_varint b.uncompressed_size
                        ++ (encode_varint b.compressed_size
                            ++ (le64_put b.checksum ++ (b.payload ++ rest)))))))
unfolding frame
frame_onto b rest = simp append_assoc

-- read_block returns the block whose frame was written and leaves the stream behind it, where the
-- block's fields fit their types and limits, its payload has the size that it states, and memory for
-- the payload is given.
pub read_block-frame :
    (malloc : ℕ → Bool) (b : Block) (rest : List ℕ)
    → IsBlock b
    → malloc b.compressed_size ≡ true
    → read_block malloc (frame b ++ rest) ≡ ok (b, rest)
unfolding read_block read_fields
read_block-frame malloc b rest h m =
    rw
      (
        frame_onto b rest,
        fread-append 2 block_magic _ refl,
        fread-append 1 (b.block_type ∷ []) _ refl,
        r16le-le16_put b.codec_id _ h.codec,
        r16le-le16_put b.block_flags _ h.flags,
        varint_field-encode_varint b.uncompressed_size _ (omega (arith, h.size)),
        varint_field-encode_varint b.compressed_size _ (omega (arith, h.packed_size)),
        r64le-le64_put b.checksum _ h.sum,
        read_payload-append malloc (record b { payload = [] }) b.payload rest h.size h.packed_size
            h.payload_len m,
      )
      refl
