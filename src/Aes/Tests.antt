-- ===== src/Aes/Tests.antt =====
-- AES-256 at concrete inputs: the vector of FIPS 197, appendix C.3.
use zupt_web.Base.{ℕ, zero, suc, ◌+◌, ◌*◌, ◌≡◌, ◌≢◌, refl, List, [], ◌∷◌, take, drop, arith}
use zupt_web.Aes.{aes256_init, aes256_encrypt_block, aes256_ctr, xor_bytes}
use zupt_web.Aes.Stream.{counters, aes256_ctr-aes256_ctr, aes256_ctr-block}
use zupt_web.Aes.Counter.{counters_distinct}

abbrev from : ℕ → ℕ → List ℕ
from zero b = []
from (suc n) b = b ∷ from n (b + 1)

abbrev plaintext : List ℕ
plaintext =
    0x00 ∷ 0x11 ∷ 0x22 ∷ 0x33 ∷ 0x44 ∷ 0x55 ∷ 0x66 ∷ 0x77 ∷ 0x88 ∷ 0x99 ∷ 0xaa ∷ 0xbb ∷ 0xcc ∷ 0xdd
    ∷ 0xee ∷ 0xff ∷ []

fips197 :
    aes256_encrypt_block (aes256_init (from 32 0)) plaintext
    ≡ 0x8e ∷ 0xa2 ∷ 0xb7 ∷ 0xca ∷ 0x51 ∷ 0x67 ∷ 0x45 ∷ 0xbf ∷ 0xea ∷ 0xfc ∷ 0x49 ∷ 0x90 ∷ 0x4b
      ∷ 0x49 ∷ 0x60 ∷ 0x89 ∷ []
unfolding aes256_init aes256_encrypt_block
fips197 = refl

abbrev nonce : List ℕ
nonce = from 16 0xf0

aes256_ctr-aes256_ctr_example :
    aes256_ctr (from 32 0) nonce (aes256_ctr (from 32 0) nonce (from 40 3)) ≡ from 40 3
aes256_ctr-aes256_ctr_example = aes256_ctr-aes256_ctr (from 32 0) nonce (from 40 3)

aes256_ctr-block_example :
    take 16 (drop (16 * 1) (aes256_ctr (from 32 0) nonce (from 40 3)))
    ≡ xor_bytes
        (take 16 (drop (16 * 1) (from 40 3)))
        (aes256_encrypt_block (aes256_init (from 32 0)) (counters 1 nonce))
aes256_ctr-block_example = aes256_ctr-block (from 32 0) nonce (from 40 3) 1

counters_distinct_example : counters 3 nonce ≢ counters 300 nonce
counters_distinct_example =
    counters_distinct nonce 3 300 refl (omega arith) (omega arith) (omega arith)
