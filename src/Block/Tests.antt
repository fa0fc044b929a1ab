-- ===== src/Block/Tests.antt =====
-- A frame on the wire, and the theorems at it.
use zupt_web.Base.{ℕ, ◌≡◌, refl, [], ◌∷◌, ◌++◌, Bool, true, arith}
use zupt_web.Failure.{ok}
use zupt_web.Block.{Block, frame, read_block}
use zupt_web.Block.Frame.{IsBlock, read_block-frame}
use zupt_web.Block.Canonical.{read_block_canonical}
use zupt_web.Wire.{encode_varint, le16_put, le64_put}

abbrev data_block : Block
data_block = record {
  block_type = 0;
  codec_id = 8;
  block_flags = 0;
  uncompressed_size = 300;
  compressed_size = 3;
  checksum = 77;
  payload = 1 ∷ 2 ∷ 3 ∷ [];
}

data_block-IsBlock : IsBlock data_block
data_block-IsBlock = record {
  type_byte = omega arith;
  codec = omega arith;
  flags = omega arith;
  size = omega arith;
  packed_size = omega arith;
  sum = omega arith;
  payload_len = refl;
}

abbrev granted : ℕ → Bool
granted n = true

on_the_wire :
    frame data_block
    ≡ 0xbb ∷ 0x01 ∷ 0 ∷ 8 ∷ 0 ∷ 0 ∷ 0 ∷ 0xac ∷ 2 ∷ 3 ∷ 77 ∷ 0 ∷ 0 ∷ 0 ∷ 0 ∷ 0 ∷ 0 ∷ 0 ∷ 1 ∷ 2 ∷ 3
      ∷ []
unfolding frame encode_varint le16_put le64_put
on_the_wire = refl

read_block-frame_example :
    read_block granted (frame data_block ++ (9 ∷ [])) ≡ ok (data_block, 9 ∷ [])
read_block-frame_example = read_block-frame granted data_block (9 ∷ []) data_block-IsBlock refl

read_block_canonical_example :
    (frame data_block ++ (9 ∷ []) ≡ frame data_block ++ (9 ∷ [])) × IsBlock data_block
read_block_canonical_example =
    read_block_canonical granted (frame data_block ++ (9 ∷ [])) data_block (9 ∷ [])
      (rw on_the_wire (omega arith)) read_block-frame_example
