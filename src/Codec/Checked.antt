-- ===== src/Codec/Checked.antt =====
-- What decompress_block of zupt-5.2.10/src/zupt_format.c comes to on any block.
use zupt_web.Base.{
  ℕ, suc, ◌+◌, ◌≤◌, ◌<◌, ◌^◌, ltb, leb, ◌==◌, if◌then◌else◌, if_rule, Bool, true, false, ◌≡◌, ◌⊎◌,
  inl, inr, refl, sym, ap, ◌∙◌, List, [], ◌∷◌, Option, some, none, length, get_or, take, drop,
  length-take, arith, bit_and, bit_xor,
}
use zupt_web.Base.Outcome.{Outcome, done, fail, fault, hang, Returns, ◌>>=◌}
use zupt_web.Failure.{corrupt, Result, ok, err}
use zupt_web.Xxh.{xxh64}
use zupt_web.Lz.{decompress}
use zupt_web.Lz.Safety.{Fits, decompress-Fits}
use zupt_web.Predict.{decode_loop, predict_decode}
use zupt_web.Block.{Block, max_block_sz}
use zupt_web.Pbkdf2.{Keyring}
use zupt_web.Codec.{
  is_encrypted, clear_payload, whole, undo_prediction, lzhp, decode, verify, restore,
  decompress_block, vv_decode_slack, codec_store, codec_zupt_lz, codec_zupt_lzh, codec_zupt_lzhp,
  codec_vaptvupt,
}

-- A decoder that returns, with exactly the bytes asked for where it succeeds.
abbrev Whole : ℕ → Outcome (Result (List ℕ)) → Type 0
Whole olen (done (ok out)) = length out ≡ olen
Whole olen (done (err e)) = Unit
Whole olen fail = ⊥
Whole olen fault = ⊥
Whole olen hang = ⊥

whole-Whole : (olen : ℕ) (m : Outcome (List ℕ)) → Returns m → Whole olen (whole olen m)
unfolding whole
whole-Whole olen (done written) r =
    if_rule (λ (x : Result (List ℕ)). Whole olen (done x)) (length written == olen)
      (λ t. ground arith) (λ f. tt)
whole-Whole olen fail r = tt
whole-Whole olen fault r = r
whole-Whole olen hang r = r

length-decode_loop :
    (pred : List ℕ) (prev : ℕ) (xs : List ℕ) → length (decode_loop pred prev xs) ≡ length xs
unfolding decode_loop
length-decode_loop pred prev [] = refl
length-decode_loop pred prev (x ∷ xs) =
    ap suc (length-decode_loop pred (bit_xor x (get_or pred prev 0)) xs)

undo_prediction-Whole :
    (olen : ℕ) (pred : List ℕ) (m : Outcome (Result (List ℕ)))
    → Whole olen m
    → Whole olen (m >>= λ r. done (undo_prediction pred r))
unfolding undo_prediction predict_decode
undo_prediction-Whole olen pred (done (ok temp)) h = length-decode_loop pred 0 temp ∙ h
undo_prediction-Whole olen pred (done (err e)) h = tt
undo_prediction-Whole olen pred fail h = h
undo_prediction-Whole olen pred fault h = h
undo_prediction-Whole olen pred hang h = h

Fits-Returns : (n : ℕ) (m : Outcome (List ℕ)) → Fits n m → Returns m
Fits-Returns n (done out) h = tt
Fits-Returns n fail h = tt
Fits-Returns n fault h = h
Fits-Returns n hang h = h

-- The payload was encrypted if a keyring is active, and in clear if none is.
abbrev pub Gated : Option (Keyring × Bool) → Block → Type 0
Gated none b = is_encrypted b ≡ false
Gated (some kr) b = is_encrypted b ≡ true

-- It returns; bytes that it gives out have the size and the checksum of the block.
abbrev pub Checked : Option (Keyring × Bool) → Block → Outcome (Result (List ℕ)) → Type 0
Checked kr b (done (ok out)) =
    (length out ≡ b.uncompressed_size)
    × ((b.uncompressed_size ≡ 0) ⊎ (xxh64 out 0 ≡ b.checksum))
    × (b.uncompressed_size ≤ max_block_sz)
    × (b.compressed_size ≤ max_block_sz + 1024)
    × Gated kr b
Checked kr b (done (err e)) = Unit
Checked kr b fail = ⊥
Checked kr b fault = ⊥
Checked kr b hang = ⊥

clear_payload-Gated :
    (malloc : ℕ → Bool) (kr : Option (Keyring × Bool)) (b : Block) (n : ℕ) (comp : List ℕ)
    → clear_payload malloc kr b n ≡ ok comp
    → Gated kr b
unfolding clear_payload
clear_payload-Gated malloc none b n comp e = ground arith
clear_payload-Gated malloc (some (kr, bound)) b n comp e = ground arith

module _ (lzh_decompress : List ℕ → ℕ → Outcome (List ℕ))
    (vvz_decompress : List ℕ → ℕ → Option (List ℕ))
    (lzh_returns : (comp : List ℕ) (olen : ℕ) → Returns (lzh_decompress comp olen)) where
  lzhp-Whole :
      (malloc : ℕ → Bool) (comp : List ℕ) (olen : ℕ)
      → Whole olen (lzhp lzh_decompress malloc comp olen)
  unfolding lzhp
  lzhp-Whole malloc comp olen =
      let lzh = λ (c : List ℕ). whole-Whole olen (lzh_decompress c olen) (lzh_returns c olen) in
      let active = if bit_and (get_or comp 0 0) 0x01 == 0 then false else true in
      if_rule (Whole olen) (ltb (length comp) 1) (λ _. tt)
        λ _.
          if_rule (Whole olen) (leb (length comp) (if active then 257 else 1)) (λ _. tt)
            λ _.
              if_rule (Whole olen) active
                (λ _.
                  if_rule (Whole olen) (malloc olen)
                    (λ _.
                      undo_prediction-Whole olen (take 256 (drop 1 comp)) _ (lzh (drop 257 comp)))
                    (λ _. tt))
                λ _. lzh (drop 1 comp)

  decode-Whole :
      (malloc : ℕ → Bool) (codec_id : ℕ) (comp : List ℕ) (olen : ℕ)
      → olen < 2 ^ 64
      → Whole olen (decode lzh_decompress vvz_decompress malloc codec_id comp olen)
  unfolding decode
  decode-Whole malloc codec_id comp olen h =
      if_rule (Whole olen) (codec_id == codec_store)
        (λ _.
          if_rule (Whole olen) (ltb (length comp) olen) (λ _. tt)
            (λ f. ground (arith, length-take olen comp)))
        λ _.
          if_rule (Whole olen) (codec_id == codec_zupt_lz)
            (λ _.
              whole-Whole olen (decompress comp olen)
                (Fits-Returns olen (decompress comp olen) (decompress-Fits comp olen h)))
            λ _.
              if_rule (Whole olen) (codec_id == codec_zupt_lzh)
                (λ _. whole-Whole olen (lzh_decompress comp olen) (lzh_returns comp olen))
                λ _.
                  if_rule (Whole olen) (codec_id == codec_zupt_lzhp)
                    (λ _. lzhp-Whole malloc comp olen)
                    λ _.
                      if_rule (Whole olen) (codec_id == codec_vaptvupt)
                        (λ _. vaptvupt (vvz_decompress comp (olen + vv_decode_slack))) (λ _. tt)
    where
      vaptvupt :
          (w : Option (List ℕ))
          → Whole olen
              (elim w [ none ↦ done (err corrupt) | some written ↦ whole olen (done written) ])
      vaptvupt none = tt
      vaptvupt (some written) = whole-Whole olen (done written) tt

  restore-Checked :
      (malloc : ℕ → Bool) (kr : Option (Keyring × Bool)) (b : Block) (comp : List ℕ)
      → b.uncompressed_size ≤ max_block_sz
      → b.compressed_size ≤ max_block_sz + 1024
      → Gated kr b
      → Checked kr b (restore lzh_decompress vvz_decompress malloc b comp)
  unfolding restore verify
  restore-Checked malloc kr b comp hu hc g =
      let olen = b.uncompressed_size in
      if_rule (Checked kr b) (olen == 0)
        (λ e. let z : olen ≡ 0 = ground arith in (sym z, inl z, hu, hc, g))
        λ _.
          if_rule (Checked kr b) (malloc (olen + vv_decode_slack))
            (λ _.
              decoded (decode lzh_decompress vvz_decompress malloc b.codec_id comp olen)
                (decode-Whole malloc b.codec_id comp olen (omega arith)))
            (λ _. tt)
    where
      decoded :
          (m : Outcome (Result (List ℕ)))
          → Whole b.uncompressed_size m
          → Checked kr b (m >>= λ r. done (verify b.checksum r))
      decoded (done (ok out)) w =
          if_rule (λ (x : Result (List ℕ)). Checked kr b (done x)) (xxh64 out 0 == b.checksum)
            (λ e. (w, inr (ground arith), hu, hc, g)) (λ _. tt)
      decoded (done (err e)) w = tt
      decoded fail w = w
      decoded fault w = w
      decoded hang w = w

  -- decompress_block returns on any block, with any payload, with or without a keyring. Where it gives
  -- out bytes, they are as many as `uncompressed_size` says, their XXH64 is the checksum of the block
  -- unless there are none, both sizes are within their limits, and the block is marked as encrypted
  -- exactly if a keyring is active. The decoder of LZH is taken to return.
  pub decompress_block-Checked :
      (malloc : ℕ → Bool) (kr : Option (Keyring × Bool)) (b : Block) (block_seq : ℕ)
      → Checked kr b (decompress_block lzh_decompress vvz_decompress malloc kr b block_seq)
  unfolding decompress_block
  decompress_block-Checked malloc kr b block_seq =
      if_rule (Checked kr b) (ltb max_block_sz b.uncompressed_size) (λ _. tt)
        λ hu.
          if_rule (Checked kr b) (ltb (max_block_sz + 1024) b.compressed_size) (λ _. tt)
            λ hc.
              opened (clear_payload malloc kr b block_seq)
                (λ comp e. clear_payload-Gated malloc kr b block_seq comp e) (ground arith)
                (ground arith)
    where
      opened :
          (m : Result (List ℕ))
          → ((comp : List ℕ) → m ≡ ok comp → Gated kr b)
          → b.uncompressed_size ≤ max_block_sz
          → b.compressed_size ≤ max_block_sz + 1024
          → Checked kr b (elim m [
            | ok comp ↦ restore lzh_decompress vvz_decompress malloc b comp
            | err e ↦ done (err e)
          ])
      opened (ok comp) g hu hc = restore-Checked malloc kr b comp hu hc (g comp refl)
      opened (err e) g hu hc = tt
