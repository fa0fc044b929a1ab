-- ===== src/Header.antt =====
-- The archive header, the footer and the integrity trailer of zupt-5.2.10/src/zupt_format.c, with the
-- structures of zupt-5.2.10/include/zupt.h. A file is the list of its bytes; a seek and a read are a
-- `drop` and a `take`. HMAC-SHA256 is the argument `hmac_sha256` of the trailer's routines.
pub mod Layout
pub mod Locate
pub mod Trailer
mod Tests
use zupt_web.Base.{
  ℕ, zero, suc, ◌+◌, ◌-◌, ◌*◌, ◌/◌, ◌%◌, ◌^◌, ltb, leb, ◌==◌, ◌&&◌, Bool, true, false,
  if◌then◌else◌, List, [], ◌∷◌, ◌++◌, Option, none, some, length, get_or, take, drop, replicate,
  bytes_eq, bit_and, bit_or, bit_xor, u8, u32, ◌>>>◌,
}
use zupt_web.Wire.{le32_put, le64_put, le32_get, le64_get}
use zupt_web.Xxh.{xxh64}
use zupt_web.Compare.{ct_memeq}
use zupt_web.Hmac.{hmac_sha256}
use zupt_web.Failure.{
  ZuptError, io, corrupt, bad_magic, bad_version, bad_checksum, auth_fail, Result, ok, err,
}

pub record ArchiveHeader : Type 0 where
  pub magic : List ℕ
  pub version_major : ℕ
  pub version_minor : ℕ
  pub global_flags : ℕ
  pub creation_time : ℕ
  pub archive_id : List ℕ
  pub encryption_header_off : ℕ
  pub comment_offset : ℕ
  pub reserved : List ℕ

pub record Footer : Type 0 where
  pub index_offset : ℕ
  pub total_blocks : ℕ
  pub archive_checksum : ℕ
  pub footer_magic : List ℕ
  pub footer_version : ℕ

-- The fields follow one another and fill the 64 bytes, so none of the zeros of `memset` is left.
unfoldable pub serialize_archive_header : ArchiveHeader → List ℕ
serialize_archive_header h =
    h.magic
    ++ ((h.version_major ∷ h.version_minor ∷ [])
        ++ (le32_put h.global_flags
            ++ (le64_put h.creation_time
                ++ (h.archive_id
                    ++ (le64_put h.encryption_header_off
                        ++ (le64_put h.comment_offset ++ h.reserved))))))

unfoldable pub serialize_footer : Footer → List ℕ
serialize_footer ft =
    le64_put ft.index_offset
    ++ (le64_put ft.total_blocks
        ++ (le64_put ft.archive_checksum ++ (ft.footer_magic ++ le32_put ft.footer_version)))

unfoldable pub deserialize_archive_header : List ℕ → ArchiveHeader
deserialize_archive_header bs = record {
  magic = take 6 bs;
  version_major = get_or bs 6 0;
  version_minor = get_or bs 7 0;
  global_flags = le32_get (drop 8 bs);
  creation_time = le64_get (drop 12 bs);
  archive_id = take 16 (drop 20 bs);
  encryption_header_off = le64_get (drop 36 bs);
  comment_offset = le64_get (drop 44 bs);
  reserved = take 12 (drop 52 bs);
}

unfoldable pub deserialize_footer : List ℕ → Footer
deserialize_footer bs = record {
  index_offset = le64_get bs;
  total_blocks = le64_get (drop 8 bs);
  archive_checksum = le64_get (drop 16 bs);
  footer_magic = take 4 (drop 24 bs);
  footer_version = le32_get (drop 28 bs);
}

abbrev pub zupt_magic : List ℕ
zupt_magic = 0x5a ∷ 0x55 ∷ 0x50 ∷ 0x54 ∷ 0x1a ∷ 0x00 ∷ []

abbrev pub zend : List ℕ
zend = 0x5a ∷ 0x45 ∷ 0x4e ∷ 0x44 ∷ []

-- The tests behind the read of a header.
unfoldable pub check_header : ArchiveHeader → Result ArchiveHeader
check_header h =
    if bytes_eq h.magic zupt_magic
    then if h.version_major == 1 then ok h else err bad_version
    else err bad_magic

-- The argument is the bytes from the position of the stream on.
unfoldable pub read_header : List ℕ → Result ArchiveHeader
unfolding check_header
read_header f =
    if ltb (length f) 64 then err io else check_header (deserialize_archive_header (take 64 f))

-- The candidate for a footer of format 1.5.
unfoldable pub is_footer : Footer → Bool
is_footer cand = bytes_eq cand.footer_magic zend && (cand.footer_version == 1)

-- "Fall back to v1.4".
unfoldable pub legacy_footer : List ℕ → Result (Footer × Option (List ℕ))
legacy_footer file =
    let ft = deserialize_footer (take 32 (drop (length file - 32) file)) in
    if bytes_eq ft.footer_magic zend
    then if ft.footer_version == 1 then ok (ft, none) else err bad_version
    else err corrupt

-- The result is the footer and the trailer; `none` is `*has_ait == 0`.
unfoldable pub locate_footer_v15 : List ℕ → Result (Footer × Option (List ℕ))
locate_footer_v15 file =
    let cand = deserialize_footer (take 32 (drop (length file - 64) file)) in
    let ait = take 32 (drop (length file - 32) file) in
    if ltb (length file) 32
    then err corrupt
    else if leb 64 (length file) && is_footer cand
    then ok (cand, some ait)
    else legacy_footer file

unfoldable pub ait_serialize_mac_input : ArchiveHeader → Footer → List ℕ
ait_serialize_mac_input hdr ft = serialize_archive_header hdr ++ take 24 (serialize_footer ft)

-- `for (i = 0; i < 8; i++) ait[i] = (uint8_t)(x >> (i * 8))`: the rounds left, and `i`.
unfoldable pub checksum_bytes : ℕ → ℕ → ℕ → List ℕ
checksum_bytes zero i x = []
checksum_bytes (suc rounds) i x = u8 (x >>> (i * 8)) ∷ checksum_bytes rounds (i + 1) x

-- The trailer that zupt_format_ait_write writes. The keyring is the `mac_key` of an active one;
-- `none` is a null or an inactive keyring.
unfoldable pub ait_write : ArchiveHeader → Footer → Option (List ℕ) → List ℕ
unfolding checksum_bytes
ait_write hdr ft none =
    checksum_bytes 8 0 (xxh64 (ait_serialize_mac_input hdr ft) 0) ++ replicate 24 0
ait_write hdr ft (some mac_key) = hmac_sha256 mac_key (ait_serialize_mac_input hdr ft)

unfoldable pub ait_verify : ArchiveHeader → Footer → List ℕ → Option (List ℕ) → Result (Unit {0})
unfolding checksum_bytes
ait_verify hdr ft ait none =
    let got = xxh64 (ait_serialize_mac_input hdr ft) 0 in
    let expected = checksum_bytes 8 0 got ++ replicate 24 0 in
    if bytes_eq expected ait then ok tt else err bad_checksum
ait_verify hdr ft ait (some mac_key) =
    let expected = hmac_sha256 mac_key (ait_serialize_mac_input hdr ft) in
    if ct_memeq expected ait == 0 then err auth_fail else ok tt
