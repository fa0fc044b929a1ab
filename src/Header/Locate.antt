-- ===== src/Header/Locate.antt =====
-- How an archive is opened: read_header at its front, locate_footer_v15 at its end.
use zupt_web.Base.{
  ℕ, ◌+◌, ◌-◌, ◌≤◌, ◌<◌, ◌≡◌, ◌⊎◌, refl, sym, ap, ◌∙◌, List, ◌∷◌, ◌++◌, some, none, append_assoc,
  length, length-append, length-take, take, drop, All, IsByte, arith, take-append, drop-append,
  All-take, ltb, leb, true, false, Bool, if_rule, bytes_eq→eq, ◌&&◌, take_all,
}
use zupt_web.Wire.{le32_put, le64_put}
use zupt_web.Wire.Little.{length-le64_put}
use zupt_web.Failure.{Result, ok}
use zupt_web.Header.{
  ArchiveHeader, Footer, serialize_archive_header, serialize_footer, deserialize_archive_header,
  deserialize_footer, read_header, check_header, zupt_magic, zend, is_footer, legacy_footer,
  locate_footer_v15,
}
use zupt_web.Header.Layout.{
  IsHeader, IsFooter, deserialize_header-serialize_header, serialize_header-deserialize_header,
  deserialize_footer-serialize_footer, length-le32_put,
}

pub length-serialize_archive_header :
    (h : ArchiveHeader) → IsHeader h → length (serialize_archive_header h) ≡ 64
unfolding serialize_archive_header
length-serialize_archive_header h p =
    let tail = le64_put h.encryption_header_off ++ (le64_put h.comment_offset ++ h.reserved) in
    let back = h.archive_id ++ tail in
    let stamped = le64_put h.creation_time ++ back in
    omega (
      arith,
      length-append h.magic
          (h.version_major ∷ h.version_minor ∷ (le32_put h.global_flags ++ stamped)),
      length-append (le32_put h.global_flags) stamped,
      length-append (le64_put h.creation_time) back,
      length-append h.archive_id tail,
      length-append (le64_put h.encryption_header_off) (le64_put h.comment_offset ++ h.reserved),
      length-append (le64_put h.comment_offset) h.reserved,
      length-le32_put h.global_flags,
      length-le64_put h.creation_time,
      length-le64_put h.encryption_header_off,
      length-le64_put h.comment_offset,
    )

pub length-serialize_footer : (ft : Footer) → IsFooter ft → length (serialize_footer ft) ≡ 32
unfolding serialize_footer
length-serialize_footer ft p =
    let tail = ft.footer_magic ++ le32_put ft.footer_version in
    let back = le64_put ft.archive_checksum ++ tail in
    omega (
      arith,
      length-append (le64_put ft.index_offset) (le64_put ft.total_blocks ++ back),
      length-append (le64_put ft.total_blocks) back,
      length-append (le64_put ft.archive_checksum) tail,
      length-append ft.footer_magic (le32_put ft.footer_version),
      length-le32_put ft.footer_version,
      length-le64_put ft.index_offset,
      length-le64_put ft.total_blocks,
      length-le64_put ft.archive_checksum,
    )

check_header-ok :
    (h h' : ArchiveHeader)
    → check_header h ≡ ok h'
    → (h ≡ h') × (h.magic ≡ zupt_magic) × (h.version_major ≡ 1)
unfolding check_header
check_header-ok h h' e = ground (arith, bytes_eq→eq h.magic zupt_magic)

check_header-pass :
    (h : ArchiveHeader) → h.magic ≡ zupt_magic → h.version_major ≡ 1 → check_header h ≡ ok h
unfolding check_header
check_header-pass h m v = rw (m, v) refl

-- read_header returns the header that zupt_serialize_archive_header wrote, whatever follows its 64
-- bytes, where the header has the magic of ZUPT and major version 1 and its fields fit their types.
pub read_header-serialize_header :
    (h : ArchiveHeader) (rest : List ℕ)
    → IsHeader h
    → h.magic ≡ zupt_magic
    → h.version_major ≡ 1
    → read_header (serialize_archive_header h ++ rest) ≡ ok h
unfolding read_header
read_header-serialize_header h rest p m v =
    let bs = serialize_archive_header h in
    let len = length-serialize_archive_header h p in
    let long : ltb (length (bs ++ rest)) 64 ≡ false = ground (arith, length-append bs rest) in
    rw (long, take-append 64 bs rest len, deserialize_header-serialize_header h p)
      (check_header-pass h m v)

not_short : (n k : ℕ) → ltb n k ≡ false → k ≤ n
not_short n k h = ground arith

-- Where read_header accepts a stream of bytes, the first 64 bytes are those that
-- zupt_serialize_archive_header writes for the header returned, which has the magic of ZUPT and major
-- version 1.
pub read_header_canonical :
    (f : List ℕ) (h : ArchiveHeader)
    → All IsByte f
    → read_header f ≡ ok h
    → (take 64 f ≡ serialize_archive_header h) × (h.magic ≡ zupt_magic) × (h.version_major ≡ 1)
unfolding read_header
read_header_canonical f h p e =
    if_rule
      (λ (r : Result ArchiveHeader).
        r ≡ ok h
        → (take 64 f ≡ serialize_archive_header h) × (h.magic ≡ zupt_magic) × (h.version_major ≡ 1))
      (ltb (length f) 64) (λ short q. absurd (cc))
      (λ long q.
        let (same, m, v) = check_header-ok (deserialize_archive_header (take 64 f)) h q in
        let whole : length (take 64 f) ≡ 64 =
          omega (arith, length-take 64 f, not_short (length f) 64 long) in
        let back = serialize_header-deserialize_header (take 64 f) (All-take IsByte 64 f p) whole in
        (
          sym back ∙ ap serialize_archive_header same,
          ap (λ (k : ArchiveHeader). k.magic) (sym same) ∙ m,
          ap (λ (k : ArchiveHeader). k.version_major) (sym same) ∙ v,
        ))
      e

-- The last bytes of a file.
from_end :
    (n : ℕ) (body bs : List ℕ) → length bs ≡ n → drop (length (body ++ bs) - n) (body ++ bs) ≡ bs
from_end n body bs e =
    let at : length (body ++ bs) - n ≡ length body = omega (arith, length-append body bs) in
    rw at (drop-append (length body) body bs refl)

-- locate_footer_v15 finds the footer and the trailer that end a file, whatever the body in front of
-- them holds: a footer with the magic ZEND and version 1, whose fields fit their types, and 32 bytes
-- of trailer.
pub locate_footer-trailer :
    (body : List ℕ) (ft : Footer) (ait : List ℕ)
    → IsFooter ft
    → ft.footer_magic ≡ zend
    → ft.footer_version ≡ 1
    → length ait ≡ 32
    → locate_footer_v15 (body ++ (serialize_footer ft ++ ait)) ≡ ok (ft, some ait)
unfolding locate_footer_v15
locate_footer-trailer body ft ait p m v l =
    let bs = serialize_footer ft in
    let file = body ++ (bs ++ ait) in
    let lb : length bs ≡ 32 = length-serialize_footer ft p in
    let l2 : length (bs ++ ait) ≡ 64 = omega (arith, length-append bs ait) in
    let l3 = length-append body (bs ++ ait) in
    let cand : drop (length file - 64) file ≡ bs ++ ait = from_end 64 body (bs ++ ait) l2 in
    let end : drop (length file - 32) file ≡ ait =
      ap (λ (t : List ℕ). drop (length t - 32) t) (sym (append_assoc body bs ait))
      ∙ from_end 32 (body ++ bs) ait l in
    let short : ltb (length file) 32 ≡ false = ground arith in
    let long : leb 64 (length file) ≡ true = ground arith in
    let good : is_footer ft ≡ true = unfold is_footer in rw (m, v) refl in
    rw
      (
        short,
        long,
        cand,
        end,
        take-append 32 bs ait lb,
        deserialize_footer-serialize_footer ft p,
        good,
        take_all 32 ait (omega arith),
      )
      refl

legacy_footer-serialize_footer :
    (body : List ℕ) (ft : Footer)
    → IsFooter ft
    → ft.footer_magic ≡ zend
    → ft.footer_version ≡ 1
    → legacy_footer (body ++ serialize_footer ft) ≡ ok (ft, none)
unfolding legacy_footer
legacy_footer-serialize_footer body ft p m v =
    let len = length-serialize_footer ft p in
    rw
      (
        from_end 32 body (serialize_footer ft) len,
        take_all 32 (serialize_footer ft) (omega (arith, len)),
        deserialize_footer-serialize_footer ft p,
        m,
        v,
      )
      refl

no_candidate : (n b : ℕ) (c : Bool) → n ≡ b + 32 → (b < 32) ⊎ (c ≡ false) → (leb 64 n && c) ≡ false
no_candidate n b c e h = ground arith

-- An archive of format 1.4 has no trailer. locate_footer_v15 finds the footer at its end, unless the
-- file has 64 bytes and a valid footer stands 32 bytes further ahead.
pub locate_footer-legacy :
    (body : List ℕ) (ft : Footer)
    → IsFooter ft
    → ft.footer_magic ≡ zend
    → ft.footer_version ≡ 1
    → (length body < 32)
      ⊎ (is_footer
            (deserialize_footer (take 32 (drop (length body - 32) (body ++ serialize_footer ft))))
          ≡ false)
    → locate_footer_v15 (body ++ serialize_footer ft) ≡ ok (ft, none)
unfolding locate_footer_v15
locate_footer-legacy body ft p m v alone =
    let file = body ++ serialize_footer ft in
    let len : length file ≡ length body + 32 =
      omega (arith, length-append body (serialize_footer ft), length-serialize_footer ft p) in
    let at : length file - 64 ≡ length body - 32 = omega arith in
    let short : ltb (length file) 32 ≡ false = ground arith in
    let none_ahead =
      no_candidate (length file) (length body)
        (is_footer (deserialize_footer (take 32 (drop (length body - 32) file)))) len alone in
    rw (short, at, none_ahead) (legacy_footer-serialize_footer body ft p m v)
