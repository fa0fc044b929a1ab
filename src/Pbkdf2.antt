-- ===== src/Pbkdf2.antt =====
-- PBKDF2 with HMAC-SHA256 and the derivation of the keys, zupt-5.2.10/src/zupt_crypto.c. The wipes of
-- buffers and the locking of pages in memory are left out.
pub mod Blocks
mod Tests
use zupt_web.Base.{
  ℕ, zero, suc, ◌+◌, ◌-◌, min, List, [], ◌∷◌, ◌++◌, length, take, drop, u8, u32, ◌>>>◌,
}
use zupt_web.Hmac.{hmac_sha256, xor_key}

-- `for (i = 1; i < iterations; i++)`: the rounds left, `u` and `t`.
unfoldable pub xor_chain : ℕ → List ℕ → List ℕ → List ℕ → List ℕ
xor_chain zero pw u t = t
xor_chain (suc rounds) pw u t =
    let next = hmac_sha256 pw u in xor_chain rounds pw next (xor_key t next)

-- `t` of one block; without an iteration it is U_1 all the same.
unfoldable pub block_bytes : List ℕ → List ℕ → ℕ → ℕ → List ℕ
unfolding xor_chain
block_bytes pw salt iterations block_num =
    let number =
      u8 (block_num >>> 24) ∷ u8 (block_num >>> 16) ∷ u8 (block_num >>> 8) ∷ u8 block_num ∷ [] in
    let u = hmac_sha256 pw (take (min (length salt) 252) salt ++ number) in
    xor_chain (iterations - 1) pw u u

-- `while (pos < olen)`: the passes left, of which each writes a byte or more, and `olen - pos`.
unfoldable pub pbkdf2_loop : ℕ → List ℕ → List ℕ → ℕ → ℕ → ℕ → List ℕ
unfolding block_bytes
pbkdf2_loop zero pw salt iterations block_num left = []
pbkdf2_loop (suc fuel) pw salt iterations block_num zero = []
pbkdf2_loop (suc fuel) pw salt iterations block_num (suc left) =
    let chunk = min (suc left) 32 in
    take chunk (block_bytes pw salt iterations block_num)
    ++ pbkdf2_loop fuel pw salt iterations (u32 (block_num + 1)) (suc left - chunk)

unfoldable pub pbkdf2_sha256 : List ℕ → List ℕ → ℕ → ℕ → List ℕ
unfolding pbkdf2_loop
pbkdf2_sha256 pw salt iterations olen = pbkdf2_loop olen pw salt iterations 1 olen

-- The keyring: the fields that the derivation writes, less the canaries.
pub record Keyring : Type 0 where
  pub enc_key : List ℕ
  pub mac_key : List ℕ
  pub salt : List ℕ
  pub base_nonce : List ℕ
  pub iterations : ℕ

-- An active keyring.
unfoldable pub derive_keys : List ℕ → List ℕ → List ℕ → ℕ → Keyring
unfolding pbkdf2_sha256
derive_keys pw salt nonce iterations =
    let material = pbkdf2_sha256 pw salt iterations 64 in
    record {
      enc_key = take 32 material;
      mac_key = drop 32 material;
      salt = salt;
      base_nonce = nonce;
      iterations = iterations;
    }
