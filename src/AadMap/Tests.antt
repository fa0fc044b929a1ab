-- ===== src/AadMap/Tests.antt =====
-- The map of two data blocks with a reference between them.
use zupt_web.Base.{ℕ, Bool, true, ◌≡◌, refl, some, none, List, [], ◌∷◌, ◌++◌, arith}
use zupt_web.Failure.{ok}
use zupt_web.Wire.{read_varint}
use zupt_web.Block.{read_block, fread, read_fields, r16le, r64le, varint_field, read_payload}
use zupt_web.AadMap.{AadEntry, map_build, map_lookup}
use zupt_web.AadMap.Lookup.{assoc, map_lookup-map_build}

abbrev grants : ℕ → Bool
grants n = true

-- A frame of 19 bytes: magic, type, codec, flags, two sizes, checksum, and two bytes of payload.
abbrev bytes : ℕ → List ℕ
bytes kind = 0xbb ∷ 0x01 ∷ kind ∷ 0 ∷ 0 ∷ 0 ∷ 0 ∷ 2 ∷ 2 ∷ 1 ∷ 2 ∷ 3 ∷ 4 ∷ 5 ∷ 6 ∷ 7 ∷ 8 ∷ 9 ∷ 9 ∷ []

abbrev file : List ℕ
file = bytes 0 ++ (bytes 4 ++ bytes 0)

abbrev entries : List AadEntry
entries = record { offset = 0; aad_seq = 0 } ∷ record { offset = 38; aad_seq = 2 } ∷ []

built : map_build grants 3 file 0 ≡ ok entries
unfolding map_build read_block fread read_fields r16le varint_field read_varint r64le read_payload
built = refl

map_lookup-map_build_example : map_lookup entries 38 ≡ assoc entries 38
map_lookup-map_build_example = map_lookup-map_build grants 3 file 0 entries 38 (omega arith) built

looked_up : map_lookup entries 38 ≡ some 2
unfolding map_lookup
looked_up = refl

between : map_lookup entries 19 ≡ none
unfolding map_lookup
between = refl
