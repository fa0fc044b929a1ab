-- ===== src/Sha256/Tests.antt =====
-- SHA-256 at concrete inputs: the vectors of FIPS 180-4, and pieces of a message.
use zupt_web.Base.{ℕ, ◌≡◌, refl, List, [], ◌∷◌, replicate, arith}
use zupt_web.Sha256.{sha256_init, sha256_final, sha256}
use zupt_web.Sha256.Digest.{updates, concat, sha256_final-updates}
use zupt_web.Sha256.Standard.{fips_digest}
use zupt_web.Sha256.Conforms.{sha256-fips_digest}

abbrev abc : List ℕ
abc = 0x61 ∷ 0x62 ∷ 0x63 ∷ []

abc-digest :
    sha256 abc
    ≡ 0xba ∷ 0x78 ∷ 0x16 ∷ 0xbf ∷ 0x8f ∷ 0x01 ∷ 0xcf ∷ 0xea ∷ 0x41 ∷ 0x41 ∷ 0x40 ∷ 0xde ∷ 0x5d
      ∷ 0xae ∷ 0x22 ∷ 0x23 ∷ 0xb0 ∷ 0x03 ∷ 0x61 ∷ 0xa3 ∷ 0x96 ∷ 0x17 ∷ 0x7a ∷ 0x9c ∷ 0xb4 ∷ 0x10
      ∷ 0xff ∷ 0x61 ∷ 0xf2 ∷ 0x00 ∷ 0x15 ∷ 0xad ∷ []
unfolding sha256
abc-digest = refl

empty-digest :
    sha256 []
    ≡ 0xe3 ∷ 0xb0 ∷ 0xc4 ∷ 0x42 ∷ 0x98 ∷ 0xfc ∷ 0x1c ∷ 0x14 ∷ 0x9a ∷ 0xfb ∷ 0xf4 ∷ 0xc8 ∷ 0x99
      ∷ 0x6f ∷ 0xb9 ∷ 0x24 ∷ 0x27 ∷ 0xae ∷ 0x41 ∷ 0xe4 ∷ 0x64 ∷ 0x9b ∷ 0x93 ∷ 0x4c ∷ 0xa4 ∷ 0x95
      ∷ 0x99 ∷ 0x1b ∷ 0x78 ∷ 0x52 ∷ 0xb8 ∷ 0x55 ∷ []
unfolding sha256
empty-digest = refl

abc-fips_digest :
    fips_digest abc
    ≡ 0xba ∷ 0x78 ∷ 0x16 ∷ 0xbf ∷ 0x8f ∷ 0x01 ∷ 0xcf ∷ 0xea ∷ 0x41 ∷ 0x41 ∷ 0x40 ∷ 0xde ∷ 0x5d
      ∷ 0xae ∷ 0x22 ∷ 0x23 ∷ 0xb0 ∷ 0x03 ∷ 0x61 ∷ 0xa3 ∷ 0x96 ∷ 0x17 ∷ 0x7a ∷ 0x9c ∷ 0xb4 ∷ 0x10
      ∷ 0xff ∷ 0x61 ∷ 0xf2 ∷ 0x00 ∷ 0x15 ∷ 0xad ∷ []
unfolding fips_digest
abc-fips_digest = refl

sha256-fips_digest_example : sha256 abc ≡ fips_digest abc
sha256-fips_digest_example = sha256-fips_digest abc (omega arith)

-- Pieces that fill a block up, run over it, and stop at its end.
abbrev pieces : List (List ℕ)
pieces = replicate 40 1 ∷ [] ∷ replicate 100 2 ∷ replicate 52 3 ∷ []

sha256_final-updates_example :
    sha256_final (updates (sha256_init (replicate 64 9)) pieces) ≡ sha256 (concat pieces)
sha256_final-updates_example = sha256_final-updates (replicate 64 9) pieces refl
