-- ===== src/Hmac.antt =====
-- HMAC-SHA256 of zupt-5.2.10/src/zupt_crypto.c, in one call and incremental. The wipes of buffers
-- behind their last use are left out.
pub mod Reference
mod Tests
use zupt_web.Base.{ℕ, ltb, if◌then◌else◌, List, [], ◌∷◌, length, replicate, bit_xor, u8}
use zupt_web.Sha256.{Sha256Ctx, sha256_init, sha256_update, sha256_final, sha256}

pub record HmacCtx : Type 0 where
  pub inner : Sha256Ctx
  pub outer : Sha256Ctx

-- `for (i = 0; i < klen; i++) k_pad[i] ^= key[i]`
unfoldable pub xor_key : List ℕ → List ℕ → List ℕ
xor_key k_pad [] = k_pad
xor_key [] (k ∷ key) = []
xor_key (b ∷ k_pad) (k ∷ key) = bit_xor b k ∷ xor_key k_pad key

-- `key` and `klen` behind the first test.
unfoldable pub short_key : List ℕ → List ℕ
short_key key = if ltb 64 (length key) then sha256 key else key

-- The buffers of the two contexts keep what they held.
unfoldable pub hmac_sha256_init : HmacCtx → List ℕ → HmacCtx
unfolding xor_key short_key
hmac_sha256_init c key =
    let ipad = xor_key (replicate 64 0x36) (short_key key) in
    let opad = xor_key (replicate 64 0x5c) (short_key key) in
    record {
      inner = sha256_update (sha256_init c.inner.buf) ipad;
      outer = sha256_update (sha256_init c.outer.buf) opad;
    }

unfoldable pub hmac_sha256_update : HmacCtx → List ℕ → HmacCtx
hmac_sha256_update c p = record c { inner = sha256_update c.inner p }

unfoldable pub hmac_sha256_final : HmacCtx → List ℕ
hmac_sha256_final c = let inner = sha256_final c.inner in sha256_final (sha256_update c.outer inner)

-- A context on the stack; its bytes have no meaning, and are zeros here.
abbrev pub stack_ctx : HmacCtx
stack_ctx = record {
  inner = record { state = replicate 8 0; count = 0; buf = replicate 64 0 };
  outer = record { state = replicate 8 0; count = 0; buf = replicate 64 0 };
}

unfoldable pub hmac_sha256 : List ℕ → List ℕ → List ℕ
unfolding hmac_sha256_init hmac_sha256_update hmac_sha256_final
hmac_sha256 key p = hmac_sha256_final (hmac_sha256_update (hmac_sha256_init stack_ctx key) p)
