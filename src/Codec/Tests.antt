-- ===== src/Codec/Tests.antt =====
-- Blocks at concrete inputs.
use zupt_web.Base.{
  ℕ, Bool, true, ◌≡◌, refl, inl, List, [], ◌∷◌, Option, some, none, replicate, arith,
}
use zupt_web.Base.Outcome.{Outcome, done, fail}
use zupt_web.Failure.{ok, err, auth_fail}
use zupt_web.Xxh.{xxh64}
use zupt_web.Block.{Block, serialize_preface_aad}
use zupt_web.Pbkdf2.{Keyring}
use zupt_web.Sealing.{seal}
use zupt_web.Codec.{is_encrypted, codec_store, decompress_block}
use zupt_web.Codec.Checked.{Checked, decompress_block-Checked}
use zupt_web.Codec.Restored.{Describes, decompress_block-Carries}

abbrev keys : Keyring
keys = record {
  enc_key = replicate 32 1;
  mac_key = replicate 32 2;
  salt = replicate 32 3;
  base_nonce = replicate 16 4;
  iterations = 5;
}

abbrev grants : ℕ → Bool
grants n = true

-- Decoders that fail on every input.
abbrev no_lzh : List ℕ → ℕ → Outcome (List ℕ)
no_lzh comp olen = fail

abbrev no_vvz : List ℕ → ℕ → Option (List ℕ)
no_vvz comp olen = none

abbrev text : List ℕ
text = 0x7a ∷ 0x75 ∷ 0x70 ∷ 0x74 ∷ []

abbrev preface : Block
preface = record {
  block_type = 0;
  codec_id = codec_store;
  block_flags = 1;
  uncompressed_size = 4;
  compressed_size = 52;
  checksum = xxh64 text 0;
  payload = [];
}

abbrev stored : Block
stored = record preface {
  payload = seal keys (replicate 16 6) text 7 (serialize_preface_aad preface);
}

decompress_block-Checked_example :
    Checked
      (some (keys, true))
      stored
      (decompress_block no_lzh no_vvz grants (some (keys, true)) stored 7)
decompress_block-Checked_example =
    decompress_block-Checked no_lzh no_vvz (λ comp olen. tt) grants (some (keys, true)) stored 7

stored-Describes : Describes stored text
stored-Describes = record {
  size = refl;
  sum = refl;
  some_bytes = omega arith;
  limit = omega arith;
  packed_limit = omega arith;
}

decompress_block-Carries_example :
    decompress_block no_lzh no_vvz grants (some (keys, true)) stored 7 ≡ done (ok text)
decompress_block-Carries_example =
    decompress_block-Carries no_lzh no_vvz grants (some (keys, true)) stored text text
      (replicate 16 6) 7 0 0 (λ size. refl) stored-Describes (inl (refl, refl)) refl (omega arith)
      (omega arith) (unfold is_encrypted serialize_preface_aad in (refl, refl))

-- A block in clear is refused under an active keyring.
clear-refused :
    decompress_block no_lzh no_vvz grants (some (keys, true)) (record stored { block_flags = 0 }) 7
    ≡ done (err auth_fail)
unfolding decompress_block
clear-refused = refl
