-- ===== src/Sealing.antt =====
-- Encryption of buffers, zupt_encrypt_buffer_aad and zupt_decrypt_buffer_aad of
-- zupt-5.2.10/src/zupt_crypto.c, with the comparison of codes in C. A package is the nonce of 16 bytes,
-- the ciphertext and the code of 32 bytes; `*olen` is the length of the result. `nonce` is what
-- zupt_random_bytes returns. `malloc` says which requests the allocator grants.
pub mod Authentic
pub mod Legacy
pub mod RoundTrip
mod Tests
use zupt_web.Base.{
  ℕ, zero, suc, ◌+◌, ◌-◌, ◌*◌, ◌^◌, ltb, ◌==◌, if◌then◌else◌, Bool, true, false, List, [], ◌∷◌,
  ◌++◌, Option, some, none, length, take, drop, bit_and, bit_or, bit_xor, u8, u64, ◌>>>◌,
}
use zupt_web.Compare.{ct_memeq}
use zupt_web.Hmac.{stack_ctx, hmac_sha256_init, hmac_sha256_update, hmac_sha256_final, hmac_sha256}
use zupt_web.Aes.{aes256_ctr}
use zupt_web.Pbkdf2.{Keyring}

-- `for (i = 0; i < 8; i++) aad_seq[i] = (uint8_t)(block_seq >> (i * 8))`: the rounds left, and `i`.
unfoldable pub seq_bytes : ℕ → ℕ → ℕ → List ℕ
seq_bytes zero i block_seq = []
seq_bytes (suc rounds) i block_seq = u8 (block_seq >>> (i * 8)) ∷ seq_bytes rounds (i + 1) block_seq

-- The code over extra data, nonce with ciphertext, and number of the block, of which the encryption
-- leaves out extra data of no bytes.
unfoldable pub package_mac : List ℕ → List ℕ → List ℕ → ℕ → List ℕ
unfolding seq_bytes
package_mac mac_key aad_extra body block_seq =
    let start = hmac_sha256_init stack_ctx mac_key in
    let extra = if length aad_extra == 0 then start else hmac_sha256_update start aad_extra in
    hmac_sha256_final (hmac_sha256_update (hmac_sha256_update extra body) (seq_bytes 8 0 block_seq))

-- The package, for a buffer that the allocator grants.
unfoldable pub seal : Keyring → List ℕ → List ℕ → ℕ → List ℕ → List ℕ
unfolding package_mac
seal kr nonce plain block_seq aad_extra =
    let body = nonce ++ aes256_ctr kr.enc_key nonce plain in
    body ++ package_mac kr.mac_key aad_extra body block_seq

unfoldable pub encrypt_buffer_aad :
    (ℕ → Bool) → Keyring → List ℕ → List ℕ → ℕ → List ℕ → Option (List ℕ)
unfolding seal
encrypt_buffer_aad malloc kr nonce plain block_seq aad_extra =
    if malloc (16 + length plain + 32) then some (seal kr nonce plain block_seq aad_extra) else none

unfoldable pub encrypt_buffer : (ℕ → Bool) → Keyring → List ℕ → List ℕ → ℕ → Option (List ℕ)
unfolding encrypt_buffer_aad
encrypt_buffer malloc kr nonce plain block_seq =
    encrypt_buffer_aad malloc kr nonce plain block_seq []

-- `diff |= (uint64_t)(expected[i] ^ stored_mac[i])`
unfoldable pub mac_diff : List ℕ → List ℕ → ℕ → ℕ
mac_diff [] stored diff = diff
mac_diff (e ∷ expected) [] diff = diff
mac_diff (e ∷ expected) (s ∷ stored) diff = mac_diff expected stored (bit_or diff (bit_xor e s))

-- `(diff | (uint64_t)(-(int64_t)diff)) >> 63`
unfoldable pub nonzero : ℕ → ℕ
nonzero diff = bit_or diff (u64 (2 ^ 64 - diff)) >>> 63

-- The allocation and the decryption, which precede the test of the code.
unfoldable pub open_package : (ℕ → Bool) → Keyring → List ℕ → Bool → Option (List ℕ)
open_package malloc kr body accepted =
    let plain = aes256_ctr kr.enc_key (take 16 body) (drop 16 body) in
    if malloc (length body - 16) then if accepted then some plain else none else none

-- Extra data: one candidate.
unfoldable pub decrypt_strict :
    (ℕ → Bool) → Keyring → List ℕ → List ℕ → ℕ → List ℕ → Option (List ℕ)
unfolding open_package package_mac
decrypt_strict malloc kr body stored_mac block_seq aad_extra =
    let expected = package_mac kr.mac_key aad_extra body block_seq in
    open_package malloc kr body (if ct_memeq expected stored_mac == 0 then false else true)

-- No extra data: a code with or without the number of the block.
unfoldable pub decrypt_legacy : (ℕ → Bool) → Keyring → List ℕ → List ℕ → ℕ → Option (List ℕ)
unfolding open_package package_mac mac_diff nonzero
decrypt_legacy malloc kr body stored_mac block_seq =
    let expected_v2 = package_mac kr.mac_key [] body block_seq in
    let expected_v1 = hmac_sha256 kr.mac_key body in
    let nz_v2 = nonzero (mac_diff expected_v2 stored_mac 0) in
    let nz_v1 = nonzero (mac_diff expected_v1 stored_mac 0) in
    open_package malloc kr body (bit_and nz_v2 nz_v1 == 0)

unfoldable pub decrypt_buffer_aad : (ℕ → Bool) → Keyring → List ℕ → ℕ → List ℕ → Option (List ℕ)
unfolding decrypt_strict decrypt_legacy
decrypt_buffer_aad malloc kr pkg block_seq aad_extra =
    let body = take (length pkg - 32) pkg in
    let stored_mac = drop (length pkg - 32) pkg in
    if ltb (length pkg) (16 + 32)
    then none
    else if ltb 0 (length aad_extra)
    then decrypt_strict malloc kr body stored_mac block_seq aad_extra
    else decrypt_legacy malloc kr body stored_mac block_seq

unfoldable pub decrypt_buffer : (ℕ → Bool) → Keyring → List ℕ → ℕ → Option (List ℕ)
unfolding decrypt_buffer_aad
decrypt_buffer malloc kr pkg block_seq = decrypt_buffer_aad malloc kr pkg block_seq []
