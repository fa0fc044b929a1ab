-- ===== src/Lz/Tests.antt =====
-- Runs of the codec.
use zupt_web.Base.{ℕ, Bool, true, false, ◌≡◌, ◌⊎◌, refl, arith, List, [], ◌∷◌}
use zupt_web.Base.Outcome.{done, fail}
use zupt_web.Lz.{
  compress, compress_loop, compress_step, find_match, insert_hash, lazy_step, index_match,
  insert_range, emit_sequence, emit_final, decompress,
}
use zupt_web.Lz.Safety.{Fits, decompress-Fits}
use zupt_web.Lz.Match.{IsMatch, find_match-IsMatch}
use zupt_web.Lz.RoundTrip.{Restores, decompress-compress}

abbrev grants : ℕ → Bool
grants n = true

abbrev phrase : List ℕ
phrase = 1 ∷ 2 ∷ 3 ∷ 4 ∷ 1 ∷ 2 ∷ 3 ∷ 4 ∷ 1 ∷ 2 ∷ 3 ∷ 4 ∷ 9 ∷ []

packed : compress grants phrase 100 1 ≡ done (0x45 ∷ 1 ∷ 2 ∷ 3 ∷ 4 ∷ 4 ∷ 0 ∷ 0x10 ∷ 9 ∷ [])
unfolding compress compress_loop compress_step find_match insert_hash lazy_step index_match
    insert_range emit_sequence emit_final
packed = refl

-- No table is granted.
refused : compress (λ n. false) phrase 100 1 ≡ fail
unfolding compress
refused = refl

unpacked : decompress (0x45 ∷ 1 ∷ 2 ∷ 3 ∷ 4 ∷ 4 ∷ 0 ∷ 0x10 ∷ 9 ∷ []) 13 ≡ done phrase
unfolding decompress
unpacked = refl

decompress-Fits_example : Fits 4 (decompress (0x45 ∷ 1 ∷ 2 ∷ []) 4)
decompress-Fits_example = decompress-Fits (0x45 ∷ 1 ∷ 2 ∷ []) 4 (omega arith)

find_match-IsMatch_example :
    let (len, off) = find_match phrase 4 (λ i. 0) (λ i. 0) 8 in (len ≡ 0) ⊎ IsMatch phrase 4 len off
find_match-IsMatch_example = find_match-IsMatch phrase 4 (λ i. 0) (λ i. 0) 8 (omega arith)

decompress-compress_example : Restores grants phrase 100 13 (compress grants phrase 100 1)
decompress-compress_example =
    decompress-compress grants phrase 100 1 13 (omega arith) (omega arith) (omega arith)
      (omega arith)
