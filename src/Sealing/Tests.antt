-- ===== src/Sealing/Tests.antt =====
-- Encrypted buffers at concrete inputs.
use zupt_web.Base.{
  ℕ, Bool, true, ◌||◌, ◌≡◌, ◌⊎◌, refl, List, [], ◌∷◌, ◌++◌, some, none, replicate, bytes_eq,
  if◌then◌else◌, arith,
}
use zupt_web.Wire.{le64_put}
use zupt_web.Compare.{ct_memeq}
use zupt_web.Sha256.{sha256_init, sha256_final}
use zupt_web.Hmac.{hmac_sha256, hmac_sha256_init, hmac_sha256_update, hmac_sha256_final}
use zupt_web.Hmac.Reference.{Collide}
use zupt_web.Pbkdf2.{Keyring}
use zupt_web.Sealing.{seal, encrypt_buffer_aad, decrypt_buffer_aad}
use zupt_web.Sealing.Authentic.{transcript, body_of, code_of, plain_of, decrypt_buffer_aad-strict}
use zupt_web.Sealing.Legacy.{decrypt_buffer_aad-legacy}
use zupt_web.Sealing.RoundTrip.{
  length-seal, seal-IsByte, decrypt_buffer_aad-encrypt_buffer_aad, decrypt_buffer_aad-Collide,
  opened,
}

abbrev keys : Keyring
keys = record {
  enc_key = replicate 32 1;
  mac_key = replicate 32 2;
  salt = replicate 32 3;
  base_nonce = replicate 16 4;
  iterations = 5;
}

abbrev grants : ℕ → Bool
grants n = true

abbrev nonce : List ℕ
nonce = replicate 16 6

abbrev text : List ℕ
text = 0x7a ∷ 0x75 ∷ 0x70 ∷ 0x74 ∷ []

abbrev preface : List ℕ
preface = 0xbb ∷ 0x01 ∷ []

decrypt_buffer_aad-encrypt_buffer_aad_example :
    (pkg : List ℕ) × (encrypt_buffer_aad grants keys nonce text 7 preface ≡ some pkg)
    × (decrypt_buffer_aad grants keys pkg 7 preface ≡ some text)
decrypt_buffer_aad-encrypt_buffer_aad_example =
    decrypt_buffer_aad-encrypt_buffer_aad grants keys nonce text 7 preface refl (omega arith)
      (omega arith) refl refl

abbrev seven : ℕ
seven = 7

-- A package whose code is 32 zeros.
abbrev forged : List ℕ
forged = replicate 52 0

decrypt_buffer_aad-strict_example : decrypt_buffer_aad grants keys forged 7 preface ≡ (
    if bytes_eq
      (hmac_sha256 (replicate 32 2) (transcript preface (body_of forged) 7))
      (code_of forged)
    then some (plain_of keys forged)
    else none)
decrypt_buffer_aad-strict_example =
    decrypt_buffer_aad-strict grants keys forged 7 preface (omega arith) (omega arith) (omega arith)
      refl

decrypt_buffer_aad-legacy_example : decrypt_buffer_aad grants keys forged 7 [] ≡ (
    if bytes_eq (hmac_sha256 (replicate 32 2) (body_of forged ++ le64_put 7)) (code_of forged)
      || bytes_eq (hmac_sha256 (replicate 32 2) (body_of forged)) (code_of forged)
    then some (plain_of keys forged)
    else none)
decrypt_buffer_aad-legacy_example =
    decrypt_buffer_aad-legacy grants keys forged 7 (omega arith) (omega arith) refl

-- The forged package is refused.
forged-refused : decrypt_buffer_aad grants keys forged 7 preface ≡ none
unfolding decrypt_buffer_aad ct_memeq hmac_sha256_init hmac_sha256_update hmac_sha256_final
    sha256_init sha256_final
forged-refused = refl

decrypt_buffer_aad-Collide_example :
    ((preface ≡ preface) × (seven ≡ seven) × (text ≡ text))
    ⊎ (let pkg = seal keys nonce text 7 preface in
        Collide
          (replicate 32 2)
          (transcript preface (body_of pkg) seven)
          (transcript preface (body_of pkg) seven))
decrypt_buffer_aad-Collide_example =
    decrypt_buffer_aad-Collide grants keys (seal keys nonce text 7 preface)
      (seal keys nonce text 7 preface) text text seven seven preface preface (omega arith) refl
      (omega (arith, length-seal keys nonce text 7 preface refl))
      (omega (arith, length-seal keys nonce text 7 preface refl))
      (seal-IsByte keys nonce text 7 preface (omega arith) (omega arith))
      (seal-IsByte keys nonce text 7 preface (omega arith) (omega arith)) (omega arith)
      (omega arith) refl refl
      (opened grants keys nonce text 7 preface refl (omega arith) (omega arith) refl)
      (opened grants keys nonce text 7 preface refl (omega arith) (omega arith) refl) refl
