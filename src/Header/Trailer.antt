-- ===== src/Header/Trailer.antt =====
-- The integrity trailer: ait_verify against zupt_format_ait_write, under HMAC-SHA256.
use zupt_web.Base.{
  ℕ, ◌≡◌, ◌⊎◌, inl, inr, refl, sym, ap, ◌∙◌, List, [], ◌++◌, Option, some, none, append_assoc,
  append-nil, length-append, IsU64, length, take, drop, All, IsByte, arith, take-append,
  drop-append, Bool-cases, bytes_eq_refl, ◌==◌, replicate,
}
use zupt_web.Wire.{le64_put, le32_put, le64_get}
use zupt_web.Wire.Little.{length-le64_put, le64_get-le64_put}
use zupt_web.Failure.{ok}
use zupt_web.Xxh.{xxh64}
use zupt_web.Header.{
  ArchiveHeader, Footer, serialize_archive_header, serialize_footer, deserialize_archive_header,
  ait_serialize_mac_input, checksum_bytes, ait_write, ait_verify,
}
use zupt_web.Compare.{ct_memeq, ct_memeq_same, ct_memeq→eq}
use zupt_web.Hmac.{hmac_sha256}
use zupt_web.Hmac.Reference.{hmac_sha256-IsByte, Collide, Collide-codes}
use zupt_web.Header.Layout.{IsHeader, IsFooter, deserialize_header-serialize_header}
use zupt_web.Header.Locate.{length-serialize_archive_header}

header_injective :
    (h h' : ArchiveHeader)
    → IsHeader h
    → IsHeader h'
    → serialize_archive_header h ≡ serialize_archive_header h'
    → h ≡ h'
header_injective h h' p p' e =
    sym (deserialize_header-serialize_header h p)
    ∙ ap deserialize_archive_header e
    ∙ deserialize_header-serialize_header h' p'

-- The fields that the trailer covers.
abbrev pub Covered : ArchiveHeader → Footer → ArchiveHeader → Footer → Type 0
Covered h ft h' ft' =
    (h ≡ h')
    × (ft.index_offset ≡ ft'.index_offset)
    × (ft.total_blocks ≡ ft'.total_blocks)
    × (ft.archive_checksum ≡ ft'.archive_checksum)

-- The 24 bytes of the footer that the trailer covers.
abbrev front : Footer → List ℕ
front ft = le64_put ft.index_offset ++ (le64_put ft.total_blocks ++ le64_put ft.archive_checksum)

serialize_footer-front : (ft : Footer) → take 24 (serialize_footer ft) ≡ front ft
unfolding serialize_footer
serialize_footer-front ft =
    let i = le64_put ft.index_offset in
    let b = le64_put ft.total_blocks in
    let c = le64_put ft.archive_checksum in
    let rest = ft.footer_magic ++ le32_put ft.footer_version in
    let whole : i ++ (b ++ (c ++ rest)) ≡ front ft ++ rest =
      ap (λ l. i ++ l) (sym (append_assoc b c rest)) ∙ sym (append_assoc i (b ++ c) rest) in
    let len : length (front ft) ≡ 24 = omega (
      arith,
      length-append i (b ++ c),
      length-append b c,
      length-le64_put ft.index_offset,
      length-le64_put ft.total_blocks,
      length-le64_put ft.archive_checksum,
    ) in
    ap (λ l. take 24 l) whole ∙ take-append 24 (front ft) rest len

behind : (v : ℕ) (r : List ℕ) → drop 8 (le64_put v ++ r) ≡ r
behind v r = drop-append 8 (le64_put v) r (length-le64_put v)

front_injective :
    (ft ft' : Footer)
    → IsFooter ft
    → IsFooter ft'
    → front ft ≡ front ft'
    → (ft.index_offset ≡ ft'.index_offset)
      × (ft.total_blocks ≡ ft'.total_blocks)
      × (ft.archive_checksum ≡ ft'.archive_checksum)
front_injective ft ft' q q' e =
    let e1 = sym (behind ft.index_offset _) ∙ ap (λ l. drop 8 l) e ∙ behind ft'.index_offset _ in
    let e2 = sym (behind ft.total_blocks _) ∙ ap (λ l. drop 8 l) e1 ∙ behind ft'.total_blocks _ in
    (
      same64 ft.index_offset ft'.index_offset _ _ q.index q'.index e,
      same64 ft.total_blocks ft'.total_blocks _ _ q.blocks q'.blocks e1,
      same64 ft.archive_checksum ft'.archive_checksum [] [] q.checksum q'.checksum
          (append-nil _ ∙ e2 ∙ sym (append-nil _)),
    )
  where
    same64 :
        (v w : ℕ) (r t : List ℕ) → IsU64 v → IsU64 w → le64_put v ++ r ≡ le64_put w ++ t → v ≡ w
    same64 v w r t hv hw p =
        sym (le64_get-le64_put v r hv) ∙ ap le64_get p ∙ le64_get-le64_put w t hw

-- The 88 bytes that the trailer covers: the header, and the front of the footer.
abbrev pub covered_bytes : ArchiveHeader → Footer → List ℕ
covered_bytes h ft =
    serialize_archive_header h
    ++ (le64_put ft.index_offset ++ (le64_put ft.total_blocks ++ le64_put ft.archive_checksum))

mac_input-covered_bytes :
    (h : ArchiveHeader) (ft : Footer) → ait_serialize_mac_input h ft ≡ covered_bytes h ft
unfolding ait_serialize_mac_input
mac_input-covered_bytes h ft = ap (λ l. serialize_archive_header h ++ l) (serialize_footer-front ft)

covered_bytes_injective :
    (h h' : ArchiveHeader) (ft ft' : Footer)
    → IsHeader h
    → IsHeader h'
    → IsFooter ft
    → IsFooter ft'
    → covered_bytes h ft ≡ covered_bytes h' ft'
    → Covered h ft h' ft'
covered_bytes_injective h h' ft ft' p p' q q' e =
    let l = length-serialize_archive_header h p in
    let l' = length-serialize_archive_header h' p' in
    let bs = front ft in
    let bs' = front ft' in
    let heads : serialize_archive_header h ≡ serialize_archive_header h' =
      sym (take-append 64 _ bs l) ∙ ap (λ t. take 64 t) e ∙ take-append 64 _ bs' l' in
    let fronts : bs ≡ bs' =
      sym (drop-append 64 _ bs l) ∙ ap (λ t. drop 64 t) e ∙ drop-append 64 _ bs' l' in
    let (i, b, c) = front_injective ft ft' q q' fronts in
    (header_injective h h' p p' heads, i, b, c)

-- ait_verify accepts the trailer that zupt_format_ait_write writes for the same header, footer and
-- keyring, with an active keyring or without one.
pub ait_verify-ait_write :
    (h : ArchiveHeader) (ft : Footer) (key : Option (List ℕ))
    → ait_verify h ft (ait_write h ft key) key ≡ ok tt
unfolding ait_verify ait_write
ait_verify-ait_write h ft none =
    rw
      (bytes_eq_refl
        (checksum_bytes 8 0 (xxh64 (ait_serialize_mac_input h ft) 0) ++ replicate 24 0))
      refl
ait_verify-ait_write h ft (some mac_key) =
    rw (ct_memeq_same (hmac_sha256 mac_key (ait_serialize_mac_input h ft))) refl

accepted :
    (h : ArchiveHeader) (ft : Footer) (ait mac_key : List ℕ)
    → length ait ≡ 32
    → All IsByte ait
    → ait_verify h ft ait (some mac_key) ≡ ok tt
    → hmac_sha256 mac_key (ait_serialize_mac_input h ft) ≡ ait
unfolding ait_verify
accepted h ft ait mac_key l bytes e =
    let tag = hmac_sha256 mac_key (ait_serialize_mac_input h ft) in
    let (lt, bt) = hmac_sha256-IsByte mac_key (ait_serialize_mac_input h ft) in
    elim (Bool-cases (ct_memeq tag ait == 0)) [
      | inl t ↦ absurd (cc)
      | inr f ↦ ct_memeq→eq tag ait (omega (arith, lt, l)) bt bytes f
    ]

-- If ait_verify, under the key of an active keyring, accepts the trailer that zupt_format_ait_write
-- wrote for a header and a footer, then it was given this header and a footer with this offset, block
-- count and checksum; or else the 88 bytes that the trailer covers of the one pair, and those of the
-- other, are different inputs that have the same HMAC-SHA256 under the key. The fields of headers and
-- footers fit their types.
pub ait_verify-Covered :
    (h h' : ArchiveHeader) (ft ft' : Footer) (mac_key : List ℕ)
    → IsHeader h
    → IsHeader h'
    → IsFooter ft
    → IsFooter ft'
    → ait_verify h' ft' (ait_write h ft (some mac_key)) (some mac_key) ≡ ok tt
    → Covered h ft h' ft' ⊎ Collide mac_key (covered_bytes h ft) (covered_bytes h' ft')
unfolding ait_write
ait_verify-Covered h h' ft ft' mac_key p p' q q' e =
    let m = ait_serialize_mac_input h ft in
    let (l, bytes) = hmac_sha256-IsByte mac_key m in
    let tags = accepted h' ft' (hmac_sha256 mac_key m) mac_key l bytes e in
    let codes : hmac_sha256 mac_key (covered_bytes h ft)
        ≡ hmac_sha256 mac_key (covered_bytes h' ft') =
      ap (hmac_sha256 mac_key) (sym (mac_input-covered_bytes h ft))
      ∙ sym tags
      ∙ ap (hmac_sha256 mac_key) (mac_input-covered_bytes h' ft') in
    elim (Collide-codes mac_key (covered_bytes h ft) (covered_bytes h' ft') codes) [
      | inl s ↦ inl (covered_bytes_injective h h' ft ft' p p' q q' s)
      | inr c ↦ inr c
    ]
