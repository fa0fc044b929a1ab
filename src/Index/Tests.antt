-- ===== src/Index/Tests.antt =====
-- An index at concrete inputs.
use zupt_web.Base.{ℕ, ◌^◌, Bool, true, ◌≡◌, refl, List, [], ◌∷◌, replicate, arith}
use zupt_web.Base.Outcome.{done}
use zupt_web.Failure.{ok}
use zupt_web.Text.{decode_utf8_scalar, is_display_control}
use zupt_web.PathSafety.{unsafe_loop, path_has_unsafe_text, memchr}
use zupt_web.Destinations.{validate_archive_destinations}
use zupt_web.Index.{IndexEntry, put_index, parse_index}
use zupt_web.Index.RoundTrip.{IsEntry, parse_index-put_index}
use zupt_web.Index.Legacy.{
  legacy_bytes, parse_legacy_disk_index, parse_legacy_disk_index-legacy_bytes,
}
use zupt_web.Index.Accepted.{Accepted, parse_index-Accepted}

abbrev grants : ℕ → Bool
grants n = true

-- Lists that are sorted already.
abbrev as_given : List (List ℕ) → List (List ℕ)
as_given keys = keys

abbrev entry : ℕ → IndexEntry
entry name = record {
  path = name ∷ [];
  uncompressed_size = 300;
  compressed_size = 200;
  modification_time = 5;
  content_hash = 2 ^ 63;
  first_block_offset = 64;
  block_count = 1;
  attributes = 420;
}

abbrev index : List IndexEntry
index = entry 0x61 ∷ entry 0x62 ∷ []

entry_a-IsEntry : IsEntry (entry 0x61)
unfolding path_has_unsafe_text unsafe_loop decode_utf8_scalar is_display_control memchr
entry_a-IsEntry = record {
  named = omega arith;
  short = omega arith;
  no_zero = refl;
  safe = refl;
  size = omega arith;
  packed = omega arith;
  time = omega arith;
  hash = omega arith;
  offset = omega arith;
  blocks = omega arith;
  attrs = omega arith;
}

entry_b-IsEntry : IsEntry (entry 0x62)
unfolding path_has_unsafe_text unsafe_loop decode_utf8_scalar is_display_control memchr
entry_b-IsEntry = record {
  named = omega arith;
  short = omega arith;
  no_zero = refl;
  safe = refl;
  size = omega arith;
  packed = omega arith;
  time = omega arith;
  hash = omega arith;
  offset = omega arith;
  blocks = omega arith;
  attrs = omega arith;
}

parse_index-put_index_example : parse_index as_given grants (put_index index) ≡ done (ok index)
parse_index-put_index_example =
    parse_index-put_index as_given grants index (λ size. refl)
      (entry_a-IsEntry, (entry_b-IsEntry, tt)) (omega arith)
      (unfold validate_archive_destinations in refl)

parse_index-Accepted_example : Accepted (parse_index as_given grants (2 ∷ replicate 94 1))
parse_index-Accepted_example = parse_index-Accepted as_given grants (2 ∷ replicate 94 1)

parse_legacy_disk_index-legacy_bytes_example :
    parse_legacy_disk_index grants (legacy_bytes (entry 0x61)) ≡ done (ok (entry 0x61))
parse_legacy_disk_index-legacy_bytes_example =
    parse_legacy_disk_index-legacy_bytes grants (entry 0x61) refl entry_a-IsEntry
