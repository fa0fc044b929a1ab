-- ===== src/Pbkdf2/Tests.antt =====
-- PBKDF2 at concrete inputs: a known vector, and the theorem.
use zupt_web.Base.{ℕ, ◌+◌, ◌/◌, ◌≡◌, refl, List, [], ◌∷◌, take, arith}
use zupt_web.Sha256.{sha256_init, sha256_final}
use zupt_web.Hmac.{hmac_sha256, xor_key}
use zupt_web.Pbkdf2.{pbkdf2_sha256}
use zupt_web.Pbkdf2.Blocks.{t_blocks, pbkdf2_sha256-t_blocks}

abbrev password : List ℕ
password = 0x70 ∷ 0x61 ∷ 0x73 ∷ 0x73 ∷ 0x77 ∷ 0x6f ∷ 0x72 ∷ 0x64 ∷ []

abbrev salt : List ℕ
salt = 0x73 ∷ 0x61 ∷ 0x6c ∷ 0x74 ∷ []

-- "password" and "salt", with two iterations.
two_iterations :
    pbkdf2_sha256 password salt 2 32
    ≡ 0xae ∷ 0x4d ∷ 0x0c ∷ 0x95 ∷ 0xaf ∷ 0x6b ∷ 0x46 ∷ 0xd3 ∷ 0x2d ∷ 0x0a ∷ 0xdf ∷ 0xf9 ∷ 0x28
      ∷ 0xf0 ∷ 0x6d ∷ 0xd0 ∷ 0x2a ∷ 0x30 ∷ 0x3f ∷ 0x8e ∷ 0xf3 ∷ 0xc2 ∷ 0x51 ∷ 0xdf ∷ 0xd6 ∷ 0xe2
      ∷ 0xd8 ∷ 0x5a ∷ 0x95 ∷ 0x47 ∷ 0x4c ∷ 0x43 ∷ []
unfolding pbkdf2_sha256 xor_key hmac_sha256 sha256_final sha256_init
two_iterations = refl

pbkdf2_sha256-t_blocks_example :
    pbkdf2_sha256 password salt 2 40 ≡ take 40 (t_blocks password salt 2 1 ((40 + 31) / 32))
pbkdf2_sha256-t_blocks_example =
    pbkdf2_sha256-t_blocks password salt 2 40 (omega arith) (omega arith)
