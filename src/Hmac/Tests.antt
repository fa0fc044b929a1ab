-- ===== src/Hmac/Tests.antt =====
-- HMAC-SHA256 at concrete inputs: the second vector of RFC 4231, and pieces of a message.
use zupt_web.Base.{ℕ, ◌≡◌, refl, List, [], ◌∷◌, replicate}
use zupt_web.Sha256.{sha256_init, sha256_final}
use zupt_web.Sha256.Digest.{concat}
use zupt_web.Hmac.{hmac_sha256, hmac_sha256_init, hmac_sha256_final, stack_ctx}
use zupt_web.Hmac.Reference.{rfc2104, hmac_updates, hmac_sha256_final-hmac_updates}

-- "Jefe" and "what do ya want for nothing?"
rfc4231 :
    hmac_sha256 (0x4a ∷ 0x65 ∷ 0x66 ∷ 0x65 ∷ []) (
      0x77 ∷ 0x68 ∷ 0x61 ∷ 0x74 ∷ 0x20 ∷ 0x64 ∷ 0x6f ∷ 0x20 ∷ 0x79 ∷ 0x61 ∷ 0x20 ∷ 0x77 ∷ 0x61
      ∷ 0x6e ∷ 0x74 ∷ 0x20 ∷ 0x66 ∷ 0x6f ∷ 0x72 ∷ 0x20 ∷ 0x6e ∷ 0x6f ∷ 0x74 ∷ 0x68 ∷ 0x69 ∷ 0x6e
      ∷ 0x67 ∷ 0x3f ∷ [])
    ≡ 0x5b ∷ 0xdc ∷ 0xc1 ∷ 0x46 ∷ 0xbf ∷ 0x60 ∷ 0x75 ∷ 0x4e ∷ 0x6a ∷ 0x04 ∷ 0x24 ∷ 0x26 ∷ 0x08
      ∷ 0x95 ∷ 0x75 ∷ 0xc7 ∷ 0x5a ∷ 0x00 ∷ 0x3f ∷ 0x08 ∷ 0x9d ∷ 0x27 ∷ 0x39 ∷ 0x83 ∷ 0x9d ∷ 0xec
      ∷ 0x58 ∷ 0xb9 ∷ 0x64 ∷ 0xec ∷ 0x38 ∷ 0x43 ∷ []
unfolding hmac_sha256 sha256_final sha256_init
rfc4231 = refl

abbrev pieces : List (List ℕ)
pieces = (1 ∷ 2 ∷ []) ∷ replicate 70 3 ∷ []

hmac_sha256_final-hmac_updates_example :
    hmac_sha256_final (hmac_updates (hmac_sha256_init stack_ctx (replicate 80 7)) pieces)
    ≡ rfc2104 (replicate 80 7) (concat pieces)
hmac_sha256_final-hmac_updates_example =
    hmac_sha256_final-hmac_updates stack_ctx (replicate 80 7) pieces refl refl
