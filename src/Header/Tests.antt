-- ===== src/Header/Tests.antt =====
-- An archive with a header, a footer and a trailer, and the theorems at it.
use zupt_web.Base.{ℕ, ◌≡◌, ◌⊎◌, refl, List, [], ◌∷◌, ◌++◌, some, replicate, take, arith}
use zupt_web.Failure.{ok}
use zupt_web.Header.{
  ArchiveHeader, Footer, serialize_archive_header, serialize_footer, deserialize_archive_header,
  zupt_magic, zend, read_header, locate_footer_v15,
}
use zupt_web.Header.Layout.{IsHeader, IsFooter}
use zupt_web.Header.Locate.{
  read_header-serialize_header, read_header_canonical, locate_footer-trailer,
}
use zupt_web.Hmac.Reference.{Collide}
use zupt_web.Header.Trailer.{Covered, covered_bytes, ait_verify-ait_write, ait_verify-Covered}

abbrev header : ArchiveHeader
header = record {
  magic = zupt_magic;
  version_major = 1;
  version_minor = 6;
  global_flags = 0x200;
  creation_time = 1700000000;
  archive_id = replicate 16 7;
  encryption_header_off = 64;
  comment_offset = 0;
  reserved = replicate 12 0;
}

abbrev footer : Footer
footer = record {
  index_offset = 900;
  total_blocks = 3;
  archive_checksum = 0x0102_0304_0506_0708;
  footer_magic = zend;
  footer_version = 1;
}

header_ok : IsHeader header
header_ok = record {
  magic_len = refl;
  major = omega arith;
  minor = omega arith;
  flags = omega arith;
  time = omega arith;
  id_len = refl;
  enc_off = omega arith;
  comment_off = omega arith;
  reserved_len = refl;
}

footer_ok : IsFooter footer
footer_ok = record {
  index = omega arith;
  blocks = omega arith;
  checksum = omega arith;
  magic_len = refl;
  version = omega arith;
}

read_header-serialize_header_example :
    read_header (serialize_archive_header header ++ (0xbb ∷ [])) ≡ ok header
read_header-serialize_header_example =
    read_header-serialize_header header (0xbb ∷ []) header_ok refl refl

locate_footer-trailer_example :
    locate_footer_v15 (replicate 40 0x5a ++ (serialize_footer footer ++ replicate 32 9))
    ≡ ok (footer, some (replicate 32 9))
locate_footer-trailer_example =
    locate_footer-trailer (replicate 40 0x5a) footer (replicate 32 9) footer_ok refl refl refl

ait_verify-Covered_example :
    Covered header footer header footer
    ⊎ Collide (1 ∷ 2 ∷ []) (covered_bytes header footer) (covered_bytes header footer)
ait_verify-Covered_example =
    ait_verify-Covered header header footer footer (1 ∷ 2 ∷ []) header_ok header_ok footer_ok
      footer_ok (ait_verify-ait_write header footer (some (1 ∷ 2 ∷ [])))

abbrev front_bytes : List ℕ
front_bytes = zupt_magic ++ (1 ∷ 6 ∷ replicate 56 0)

read_header_canonical_example :
    (take 64 front_bytes ≡ serialize_archive_header (deserialize_archive_header front_bytes))
    × ((deserialize_archive_header front_bytes).magic ≡ zupt_magic)
    × ((deserialize_archive_header front_bytes).version_major ≡ 1)
read_header_canonical_example =
    read_header_canonical front_bytes (deserialize_archive_header front_bytes) (omega arith)
      (unfold read_header deserialize_archive_header in refl)
