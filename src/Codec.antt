-- ===== src/Codec.antt =====
-- From the payload of a block to its bytes: decompress_block of zupt-5.2.10/src/zupt_format.c. The
-- decoders of two codecs are parameters: zupt_lzh_decompress, which returns the count of bytes that it
-- wrote, and vvz_decompress of the bundled VaptVupt codec, which returns a negative number where it
-- fails. A keyring is an active one, with its `use_preface_aad`; `none` is null or inactive. `malloc`
-- says which requests the allocator grants. The buffer of a block is the list of the bytes written.
pub mod Checked
pub mod Restored
mod Tests
use zupt_web.Base.{
  ℕ, ◌+◌, ◌-◌, ltb, leb, ◌==◌, if◌then◌else◌, Bool, true, false, List, [], ◌∷◌, Option, some, none,
  length, get_or, take, drop, bit_and,
}
use zupt_web.Base.Outcome.{Outcome, done, fail, fault, hang, ◌>>=◌}
use zupt_web.Failure.{
  corrupt, nomem, overflow, bad_checksum, unsupported, auth_fail, Result, ok, err,
}
use zupt_web.Xxh.{xxh64}
use zupt_web.Lz.{decompress}
use zupt_web.Predict.{predict_decode}
use zupt_web.Block.{Block, max_block_sz, serialize_preface_aad}
use zupt_web.Pbkdf2.{Keyring}
use zupt_web.Sealing.{decrypt_buffer_aad, decrypt_buffer}

abbrev pub bflag_encrypted : ℕ
bflag_encrypted = 1

abbrev pub codec_store : ℕ
codec_store = 0x0000

abbrev pub codec_zupt_lz : ℕ
codec_zupt_lz = 0x0008

abbrev pub codec_zupt_lzh : ℕ
codec_zupt_lzh = 0x0009

abbrev pub codec_zupt_lzhp : ℕ
codec_zupt_lzhp = 0x000a

abbrev pub codec_vaptvupt : ℕ
codec_vaptvupt = 0x0010

abbrev pub vv_decode_slack : ℕ
vv_decode_slack = 64

-- `b->block_flags & ZUPT_BFLAG_ENCRYPTED` is not 0.
unfoldable pub is_encrypted : Block → Bool
is_encrypted b = if bit_and b.block_flags bflag_encrypted == 0 then false else true

-- The payload in clear, or the error of its authentication.
unfoldable pub clear_payload : (ℕ → Bool) → Option (Keyring × Bool) → Block → ℕ → Result (List ℕ)
unfolding is_encrypted
clear_payload malloc none b block_seq = if is_encrypted b then err auth_fail else ok b.payload
clear_payload malloc (some (kr, use_preface_aad)) b block_seq =
    let plain =
      if use_preface_aad
      then decrypt_buffer_aad malloc kr b.payload block_seq (serialize_preface_aad b)
      else decrypt_buffer malloc kr b.payload block_seq in
    if is_encrypted b then elim plain [ none ↦ err auth_fail | some p ↦ ok p ] else err auth_fail

-- `if (r != *olen) result = ZUPT_ERR_CORRUPT`; a decoder that fails returns 0, and `*olen` is not 0.
unfoldable pub whole : ℕ → Outcome (List ℕ) → Outcome (Result (List ℕ))
whole olen (done written) = done (if length written == olen then ok written else err corrupt)
whole olen fail = done (err corrupt)
whole olen fault = fault
whole olen hang = hang

-- The transform back, where the decoder gave the whole block.
unfoldable pub undo_prediction : List ℕ → Result (List ℕ) → Result (List ℕ)
undo_prediction pred (ok temp) = ok (predict_decode temp pred)
undo_prediction pred (err e) = err e

-- What follows the label `done`.
unfoldable pub verify : ℕ → Result (List ℕ) → Result (List ℕ)
verify checksum (ok out) = if xxh64 out 0 == checksum then ok out else err bad_checksum
verify checksum (err e) = err e

module _ (lzh_decompress : List ℕ → ℕ → Outcome (List ℕ)) where
  -- ZUPT_CODEC_ZUPT_LZHP: a flag, a table of 256 bytes where its lowest bit is set, and LZH.
  unfoldable pub lzhp : (ℕ → Bool) → List ℕ → ℕ → Outcome (Result (List ℕ))
  unfolding whole undo_prediction
  lzhp malloc comp olen =
      let pred = take 256 (drop 1 comp) in
      let predicted =
        whole olen (lzh_decompress (drop 257 comp) olen) >>= λ r. done (undo_prediction pred r) in
      let active = if bit_and (get_or comp 0 0) 0x01 == 0 then false else true in
      let hdr_size = if active then 257 else 1 in
      if ltb (length comp) 1
      then done (err corrupt)
      else if leb (length comp) hdr_size
      then done (err corrupt)
      else if active
      then if malloc olen then predicted else done (err nomem)
      else whole olen (lzh_decompress (drop 1 comp) olen)

  module _ (vvz_decompress : List ℕ → ℕ → Option (List ℕ)) where
    -- The codecs. `*olen` is not 0.
    unfoldable pub decode : (ℕ → Bool) → ℕ → List ℕ → ℕ → Outcome (Result (List ℕ))
    unfolding whole lzhp
    decode malloc codec_id comp olen =
        let vaptvupt : Outcome (Result (List ℕ)) =
          elim (vvz_decompress comp (olen + vv_decode_slack)) [
            | none ↦ done (err corrupt)
            | some written ↦ whole olen (done written)
          ] in
        if codec_id == codec_store
        then if ltb (length comp) olen then done (err corrupt) else done (ok (take olen comp))
        else if codec_id == codec_zupt_lz
        then whole olen (decompress comp olen)
        else if codec_id == codec_zupt_lzh
        then whole olen (lzh_decompress comp olen)
        else if codec_id == codec_zupt_lzhp
        then lzhp malloc comp olen
        else if codec_id == codec_vaptvupt
        then vaptvupt
        else done (err unsupported)

    -- The buffer, the codec and the checksum.
    unfoldable pub restore : (ℕ → Bool) → Block → List ℕ → Outcome (Result (List ℕ))
    unfolding decode verify
    restore malloc b comp =
        let out =
          decode malloc b.codec_id comp b.uncompressed_size >>= λ r. done (verify b.checksum r) in
        if b.uncompressed_size == 0
        then done (ok [])
        else if malloc (b.uncompressed_size + vv_decode_slack)
        then out
        else done (err nomem)

    unfoldable pub decompress_block :
        (ℕ → Bool) → Option (Keyring × Bool) → Block → ℕ → Outcome (Result (List ℕ))
    unfolding clear_payload restore
    decompress_block malloc kr b block_seq =
        let decoded : Outcome (Result (List ℕ)) = elim (clear_payload malloc kr b block_seq) [
          | ok comp ↦ restore malloc b comp
          | err e ↦ done (err e)
        ] in
        if ltb max_block_sz b.uncompressed_size
        then done (err overflow)
        else if ltb (max_block_sz + 1024) b.compressed_size
        then done (err overflow)
        else decoded
