-- ===== src/Codec/Restored.antt =====
-- Blocks that the writer makes, given back by decompress_block (zupt-5.2.10/src/zupt_format.c).
use zupt_web.Base.{
  ℕ, ◌+◌, ◌≤◌, ◌<◌, ltb, ◌==◌, if◌then◌else◌, Bool, true, false, ◌⊎◌, inl, inr, ◌≡◌, refl, ap, ◌∙◌,
  subst, List, [], Option, some, none, length, take_all, All, IsByte, arith,
}
use zupt_web.Base.Outcome.{Outcome, done}
use zupt_web.Failure.{Result, ok, err, auth_fail}
use zupt_web.Xxh.{xxh64}
use zupt_web.Lz.{compress, decompress}
use zupt_web.Lz.RoundTrip.{Restores, decompress-compress}
use zupt_web.Block.{Block, max_block_sz, serialize_preface_aad}
use zupt_web.Pbkdf2.{Keyring}
use zupt_web.Sealing.{seal, decrypt_buffer_aad, decrypt_buffer}
use zupt_web.Sealing.RoundTrip.{opened}
use zupt_web.Codec.{
  is_encrypted, clear_payload, whole, decode, verify, restore, decompress_block, codec_store,
  codec_zupt_lz, vv_decode_slack,
}

-- What stands in a frame for the block `src`.
pub record Describes (b : Block) (src : List ℕ) : Type 0 where
  pub size : b.uncompressed_size ≡ length src
  pub sum : b.checksum ≡ xxh64 src 0
  pub some_bytes : 0 < length src
  pub limit : length src ≤ max_block_sz
  pub packed_limit : b.compressed_size ≤ max_block_sz + 1024

-- `packed` is `src` in the codec of the block.
abbrev pub Packs : (ℕ → Bool) → Block → List ℕ → List ℕ → ℕ → ℕ → Type 0
Packs malloc b src packed dst_cap level =
    ((b.codec_id ≡ codec_store) × (packed ≡ src))
    ⊎ ((b.codec_id ≡ codec_zupt_lz) × (compress malloc src dst_cap level ≡ done packed))

-- The payload: `packed` itself, or under an active keyring its package, whose code covers the preface
-- where the archive asks for it.
abbrev pub Carries : Option (Keyring × Bool) → Block → List ℕ → ℕ → List ℕ → Type 0
Carries none b nonce n packed = (is_encrypted b ≡ false) × (b.payload ≡ packed)
Carries (some (k, true)) b nonce n packed =
    (is_encrypted b ≡ true) × (b.payload ≡ seal k nonce packed n (serialize_preface_aad b))
Carries (some (k, false)) b nonce n packed =
    (is_encrypted b ≡ true) × (b.payload ≡ seal k nonce packed n [])

given :
    (malloc : ℕ → Bool) (k : Keyring) (preface : Bool) (b : Block) (n : ℕ) (packed : List ℕ)
    → is_encrypted b ≡ true
    → (if preface
        then decrypt_buffer_aad malloc k b.payload n (serialize_preface_aad b)
        else decrypt_buffer malloc k b.payload n)
      ≡ some packed
    → clear_payload malloc (some (k, preface)) b n ≡ ok packed
unfolding clear_payload
given malloc k preface b n packed g e =
    ap
      (λ t.
        if t
        then elim (if preface
            then decrypt_buffer_aad malloc k b.payload n (serialize_preface_aad b)
            else decrypt_buffer malloc k b.payload n) [ none ↦ err auth_fail | some p ↦ ok p ]
        else err auth_fail)
      g
    ∙ ap (λ (o : Option (List ℕ)). found o) e
  where
    found : Option (List ℕ) → Result (List ℕ)
    found none = err auth_fail
    found (some p) = ok p

clear_payload-Carries :
    (malloc : ℕ → Bool) (kr : Option (Keyring × Bool)) (b : Block) (nonce packed : List ℕ) (n : ℕ)
    → ((size : ℕ) → malloc size ≡ true)
    → length nonce ≡ 16
    → All IsByte nonce
    → All IsByte packed
    → Carries kr b nonce n packed
    → clear_payload malloc kr b n ≡ ok packed
unfolding clear_payload decrypt_buffer
clear_payload-Carries malloc none b nonce packed n m l hn hp (g, e) = rw g (ap ok e)
clear_payload-Carries malloc (some (k, true)) b nonce packed n m l hn hp (g, e) =
    let aad = serialize_preface_aad b in
    let plain : decrypt_buffer_aad malloc k b.payload n aad ≡ some packed =
      ap (λ p. decrypt_buffer_aad malloc k p n aad) e
      ∙ opened malloc k nonce packed n aad l hn hp (m (length packed)) in
    given malloc k true b n packed g plain
clear_payload-Carries malloc (some (k, false)) b nonce packed n m l hn hp (g, e) =
    let plain : decrypt_buffer malloc k b.payload n ≡ some packed =
      ap (λ p. decrypt_buffer malloc k p n) e
      ∙ opened malloc k nonce packed n [] l hn hp (m (length packed)) in
    given malloc k false b n packed g plain

module _ (lzh_decompress : List ℕ → ℕ → Outcome (List ℕ))
    (vvz_decompress : List ℕ → ℕ → Option (List ℕ)) where
  decode-Packs :
      (malloc : ℕ → Bool) (b : Block) (src packed : List ℕ) (dst_cap level : ℕ)
      → Describes b src
      → Packs malloc b src packed dst_cap level
      → decode lzh_decompress vvz_decompress malloc b.codec_id packed b.uncompressed_size
        ≡ done (ok src)
  unfolding decode whole
  decode-Packs malloc b src packed dst_cap level h (inl (c, e)) =
      let enough : ltb (length src) (length src) ≡ false = ground arith in
      rw (c, h.size, e, enough) (ap (λ l. done (ok l)) (take_all (length src) src (omega arith)))
  decode-Packs malloc b src packed dst_cap level h (inr (c, e)) =
      let back =
        decompress-compress malloc src dst_cap level (length src) h.some_bytes
          (omega (arith, h.limit)) (omega arith) (omega (arith, h.limit)) in
      let unpacked : decompress packed (length src) ≡ done src =
        (subst (Restores malloc src dst_cap (length src)) e back).1 in
      let all : (length src == length src) ≡ true = ground arith in
      rw (c, h.size, unpacked, all) refl

  -- decompress_block gives back a block of at least one byte and at most 256 MiB that was stored or
  -- compressed with ZUPT-LZ at any level, then left in clear without a keyring or encrypted under an
  -- active one with a nonce of 16 bytes, its preface covered by the code or not, with its size and XXH64
  -- in the frame. The allocator is taken to grant every request.
  pub decompress_block-Carries :
      (malloc : ℕ → Bool) (kr : Option (Keyring × Bool)) (b : Block) (src packed nonce : List ℕ)
      (block_seq dst_cap level : ℕ)
      → ((size : ℕ) → malloc size ≡ true)
      → Describes b src
      → Packs malloc b src packed dst_cap level
      → length nonce ≡ 16
      → All IsByte nonce
      → All IsByte packed
      → Carries kr b nonce block_seq packed
      → decompress_block lzh_decompress vvz_decompress malloc kr b block_seq ≡ done (ok src)
  unfolding decompress_block restore verify
  decompress_block-Carries malloc kr b src packed nonce n dst_cap level m h hp hl hn hb hc =
      let small : ltb max_block_sz b.uncompressed_size ≡ false = ground (arith, h.size, h.limit) in
      let packed_small : ltb (max_block_sz + 1024) b.compressed_size ≡ false =
        ground (arith, h.packed_limit) in
      let some_bytes : (b.uncompressed_size == 0) ≡ false = ground (arith, h.size, h.some_bytes) in
      let sum : (xxh64 src 0 == b.checksum) ≡ true = ground (arith, h.sum) in
      rw
        (
          small,
          packed_small,
          clear_payload-Carries malloc kr b nonce packed n m hl hn hb hc,
          some_bytes,
          m (b.uncompressed_size + vv_decode_slack),
          decode-Packs malloc b src packed dst_cap level h hp,
          sum,
        )
        refl
