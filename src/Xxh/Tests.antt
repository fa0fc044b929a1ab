-- ===== src/Xxh/Tests.antt =====
-- Runs of XXH64 against the published digests of the empty string and of "abc".
use zupt_web.Base.{◌≡◌, refl, [], ◌∷◌}
use zupt_web.Xxh.{xxh64}

xxh64_empty : xxh64 [] 0 ≡ 0xef46db3751d8e999
unfolding xxh64
xxh64_empty = refl

xxh64_abc : xxh64 (0x61 ∷ 0x62 ∷ 0x63 ∷ []) 0 ≡ 0x44bc2cf5ad770999
unfolding xxh64
xxh64_abc = refl
