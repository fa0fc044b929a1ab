-- ===== src/Header/Layout.antt =====
-- The header and the footer against their bytes: what is written is read back, and what is read was
-- written.
use zupt_web.Base.{
  ℕ, zero, suc, ◌+◌, ◌*◌, ◌/◌, ◌≤◌, ◌<◌, ◌≡◌, refl, sym, ap, ◌∙◌, List, [], ◌∷◌, ◌++◌, append-nil,
  length, get_or, take, drop, All, IsByte, IsU32, IsU64, arith, take-append-drop, take-append,
  drop-append, All-drop, length-drop, take_all, drop_nil, drop-drop,
}
use zupt_web.Base.Bits.{bit_or_disjoint}
use zupt_web.Wire.{le32_put, le64_put, le32_get, le64_get}
use zupt_web.Wire.Little.{
  le32_put_bytes, le64_put-word, le64_get-word, word, le64_get-le64_put, le32_get-le32_put,
  length-le64_put,
}
use zupt_web.Header.{
  ArchiveHeader, Footer, serialize_archive_header, serialize_footer, deserialize_archive_header,
  deserialize_footer,
}

-- The arrays of the structures have the lengths of their declarations, and the fields their widths.
pub record IsHeader (h : ArchiveHeader) : Type 0 where
  pub magic_len : length h.magic ≡ 6
  pub major : IsByte h.version_major
  pub minor : IsByte h.version_minor
  pub flags : IsU32 h.global_flags
  pub time : IsU64 h.creation_time
  pub id_len : length h.archive_id ≡ 16
  pub enc_off : IsU64 h.encryption_header_off
  pub comment_off : IsU64 h.comment_offset
  pub reserved_len : length h.reserved ≡ 12

pub record IsFooter (ft : Footer) : Type 0 where
  pub index : IsU64 ft.index_offset
  pub blocks : IsU64 ft.total_blocks
  pub checksum : IsU64 ft.archive_checksum
  pub magic_len : length ft.footer_magic ≡ 4
  pub version : IsU32 ft.footer_version

module _ {ℓ} {A : Type ℓ} where
  -- To step over a field of known length.
  pub drop_next :
      (n k m : ℕ) (bs p r : List A) → drop n bs ≡ p ++ r → length p ≡ k → n + k ≡ m → drop m bs ≡ r
  drop_next n k m bs p r e h s =
      ap (λ (t : ℕ). drop t bs) (sym s)
      ∙ sym (drop-drop n k bs)
      ∙ ap (λ t. drop k t) e
      ∙ drop-append k p r h

  -- A segment in front of what follows it.
  pub piece : (n k m : ℕ) (bs : List A) → n + k ≡ m → take k (drop n bs) ++ drop m bs ≡ drop n bs
  piece n k m bs s =
      ap (λ (t : ℕ). take k (drop n bs) ++ drop t bs) (sym s)
      ∙ ap (λ t. take k (drop n bs) ++ t) (sym (drop-drop n k bs))
      ∙ take-append-drop k (drop n bs)

pub length-le32_put : (v : ℕ) → length (le32_put v) ≡ 4
unfolding le32_put
length-le32_put v = refl

-- A field whose bytes are in front is read by the helpers.
pub read32 : (v : ℕ) (bs r : List ℕ) → IsU32 v → bs ≡ le32_put v ++ r → le32_get bs ≡ v
read32 v bs r h e = rw e (le32_get-le32_put v r h)

pub read64 : (v : ℕ) (bs r : List ℕ) → IsU64 v → bs ≡ le64_put v ++ r → le64_get bs ≡ v
read64 v bs r h e = rw e (le64_get-le64_put v r h)

four_bytes :
    (a b c d : ℕ) (r : List ℕ)
    → All IsByte (a ∷ b ∷ c ∷ d ∷ [])
    → le32_put (le32_get (a ∷ b ∷ c ∷ d ∷ r)) ≡ a ∷ b ∷ c ∷ d ∷ []
unfolding le32_get
four_bytes a b c d r h =
    let e : le32_get (a ∷ b ∷ c ∷ d ∷ r) ≡ a + b * 256 + c * 65536 + d * 16777216 = ground (
      arith,
      bit_or_disjoint 8 a b,
      bit_or_disjoint 16 (a + b * 256) c,
      bit_or_disjoint 24 (a + b * 256 + c * 65536) d,
    ) in
    rw (le32_put_bytes (le32_get (a ∷ b ∷ c ∷ d ∷ r)), e) (ground arith)

-- zupt_le32_put writes the four bytes that zupt_le32_get read.
pub le32_put-le32_get :
    (bs : List ℕ) → All IsByte bs → 4 ≤ length bs → le32_put (le32_get bs) ≡ take 4 bs
le32_put-le32_get [] h l = absurd (omega arith)
le32_put-le32_get (a ∷ []) h l = absurd (omega arith)
le32_put-le32_get (a ∷ b ∷ []) h l = absurd (omega arith)
le32_put-le32_get (a ∷ b ∷ c ∷ []) h l = absurd (omega arith)
le32_put-le32_get (a ∷ b ∷ c ∷ d ∷ r) h l = four_bytes a b c d r (omega arith)

eight_bytes :
    (a b c d e f g h : ℕ)
    → All IsByte (a ∷ b ∷ c ∷ d ∷ e ∷ f ∷ g ∷ h ∷ [])
    → le64_put (word a b c d e f g h) ≡ a ∷ b ∷ c ∷ d ∷ e ∷ f ∷ g ∷ h ∷ []
eight_bytes a b c d e f g h p =
    let e7 : word a b c d e f g h / 256 ≡ word b c d e f g h 0 = omega arith in
    let e6 : word b c d e f g h 0 / 256 ≡ word c d e f g h 0 0 = omega arith in
    let e5 : word c d e f g h 0 0 / 256 ≡ word d e f g h 0 0 0 = omega arith in
    let e4 : word d e f g h 0 0 0 / 256 ≡ word e f g h 0 0 0 0 = omega arith in
    let e3 : word e f g h 0 0 0 0 / 256 ≡ word f g h 0 0 0 0 0 = omega arith in
    let e2 : word f g h 0 0 0 0 0 / 256 ≡ word g h 0 0 0 0 0 0 = omega arith in
    let e1 : word g h 0 0 0 0 0 0 / 256 ≡ word h 0 0 0 0 0 0 0 = omega arith in
    rw (le64_put-word (word a b c d e f g h), e7, e6, e5, e4, e3, e2, e1) (ground arith)

-- zupt_le64_put writes the eight bytes that zupt_le64_get read.
pub le64_put-le64_get :
    (bs : List ℕ) → All IsByte bs → 8 ≤ length bs → le64_put (le64_get bs) ≡ take 8 bs
le64_put-le64_get [] p l = absurd (omega arith)
le64_put-le64_get (a ∷ []) p l = absurd (omega arith)
le64_put-le64_get (a ∷ b ∷ []) p l = absurd (omega arith)
le64_put-le64_get (a ∷ b ∷ c ∷ []) p l = absurd (omega arith)
le64_put-le64_get (a ∷ b ∷ c ∷ d ∷ []) p l = absurd (omega arith)
le64_put-le64_get (a ∷ b ∷ c ∷ d ∷ e ∷ []) p l = absurd (omega arith)
le64_put-le64_get (a ∷ b ∷ c ∷ d ∷ e ∷ f ∷ []) p l = absurd (omega arith)
le64_put-le64_get (a ∷ b ∷ c ∷ d ∷ e ∷ f ∷ g ∷ []) p l = absurd (omega arith)
le64_put-le64_get (a ∷ b ∷ c ∷ d ∷ e ∷ f ∷ g ∷ h ∷ r) p l =
    let q : All IsByte (a ∷ b ∷ c ∷ d ∷ e ∷ f ∷ g ∷ h ∷ []) = omega arith in
    rw (le64_get-word a b c d e f g h r q) (eight_bytes a b c d e f g h q)

-- The same at an offset.
back32 :
    (n : ℕ) (bs : List ℕ)
    → All IsByte bs
    → n + 4 ≤ length bs
    → le32_put (le32_get (drop n bs)) ≡ take 4 (drop n bs)
back32 n bs h l =
    le32_put-le32_get (drop n bs) (All-drop IsByte n bs h) (omega (arith, length-drop n bs))

back64 :
    (n : ℕ) (bs : List ℕ)
    → All IsByte bs
    → n + 8 ≤ length bs
    → le64_put (le64_get (drop n bs)) ≡ take 8 (drop n bs)
back64 n bs h l =
    le64_put-le64_get (drop n bs) (All-drop IsByte n bs h) (omega (arith, length-drop n bs))

last_piece : (n k : ℕ) (bs : List ℕ) → length bs ≡ n + k → take k (drop n bs) ≡ drop n bs
last_piece n k bs l = take_all k (drop n bs) (omega (arith, length-drop n bs))

one_byte : (n : ℕ) (bs : List ℕ) → n < length bs → get_or bs n 0 ∷ drop (suc n) bs ≡ drop n bs
one_byte n [] h = absurd (omega arith)
one_byte zero (b ∷ bs) h = refl
one_byte (suc n) (b ∷ bs) h = one_byte n bs (omega arith)

-- deserialize_footer returns the footer that zupt_serialize_footer wrote, where the fields of the footer
-- fit their types.
pub deserialize_footer-serialize_footer :
    (ft : Footer) → IsFooter ft → deserialize_footer (serialize_footer ft) ≡ ft
unfolding deserialize_footer serialize_footer
deserialize_footer-serialize_footer ft h =
    let bs = serialize_footer ft in
    let r4 = le32_put ft.footer_version in
    let r3 = ft.footer_magic ++ r4 in
    let r2 = le64_put ft.archive_checksum ++ r3 in
    let r1 = le64_put ft.total_blocks ++ r2 in
    let s1 : drop 8 bs ≡ r1 = drop_next 0 8 8 bs _ r1 refl (length-le64_put ft.index_offset) refl in
    let s2 : drop 16 bs ≡ r2 = drop_next 8 8 16 bs _ r2 s1 (length-le64_put ft.total_blocks) refl in
    let s3 : drop 24 bs ≡ r3 =
      drop_next 16 8 24 bs _ r3 s2 (length-le64_put ft.archive_checksum) refl in
    let s4 : drop 28 bs ≡ r4 = drop_next 24 4 28 bs _ r4 s3 h.magic_len refl in
    let f1 : le64_get bs ≡ ft.index_offset = read64 ft.index_offset bs r1 h.index refl in
    let f2 : le64_get (drop 8 bs) ≡ ft.total_blocks = read64 ft.total_blocks _ r2 h.blocks s1 in
    let f3 : le64_get (drop 16 bs) ≡ ft.archive_checksum =
      read64 ft.archive_checksum _ r3 h.checksum s2 in
    let f4 : take 4 (drop 24 bs) ≡ ft.footer_magic =
      ap (λ t. take 4 t) s3 ∙ take-append 4 ft.footer_magic r4 h.magic_len in
    let f5 : le32_get (drop 28 bs) ≡ ft.footer_version =
      read32 ft.footer_version _ [] h.version (s4 ∙ sym (append-nil r4)) in
    rw (f1, f2, f3, f4, f5) refl

-- zupt_serialize_footer writes the 32 bytes that deserialize_footer read.
pub serialize_footer-deserialize_footer :
    (bs : List ℕ) → All IsByte bs → length bs ≡ 32 → serialize_footer (deserialize_footer bs) ≡ bs
unfolding deserialize_footer serialize_footer
serialize_footer-deserialize_footer bs h l =
    rw
      (
        back64 0 bs h (omega arith),
        back64 8 bs h (omega arith),
        back64 16 bs h (omega arith),
        back32 28 bs h (omega arith),
        last_piece 28 4 bs l,
        piece 24 4 28 bs refl,
        piece 16 8 24 bs refl,
        piece 8 8 16 bs refl,
        piece 0 8 8 bs refl,
      )
      refl

get_or-drop : (n : ℕ) (bs : List ℕ) (x : ℕ) (r : List ℕ) → drop n bs ≡ x ∷ r → get_or bs n 0 ≡ x
get_or-drop n [] x r e = absurd (cc (drop_nil n))
get_or-drop zero (b ∷ bs) x r e = cc
get_or-drop (suc n) (b ∷ bs) x r e = get_or-drop n bs x r e

-- deserialize_archive_header returns the header that zupt_serialize_archive_header wrote, where the
-- fields of the header fit their types.
pub deserialize_header-serialize_header :
    (h : ArchiveHeader) → IsHeader h → deserialize_archive_header (serialize_archive_header h) ≡ h
unfolding deserialize_archive_header serialize_archive_header
deserialize_header-serialize_header h p =
    let bs = serialize_archive_header h in
    let r7 = h.reserved in
    let r6 = le64_put h.comment_offset ++ r7 in
    let r5 = le64_put h.encryption_header_off ++ r6 in
    let r4 = h.archive_id ++ r5 in
    let r3 = le64_put h.creation_time ++ r4 in
    let r2 = le32_put h.global_flags ++ r3 in
    let r1 = h.version_major ∷ h.version_minor ∷ r2 in
    let s1 : drop 6 bs ≡ r1 = drop_next 0 6 6 bs h.magic r1 refl p.magic_len refl in
    let s2 : drop 8 bs ≡ r2 =
      drop_next 6 2 8 bs (h.version_major ∷ h.version_minor ∷ []) r2 s1 refl refl in
    let s3 : drop 12 bs ≡ r3 = drop_next 8 4 12 bs _ r3 s2 (length-le32_put h.global_flags) refl in
    let s4 : drop 20 bs ≡ r4 =
      drop_next 12 8 20 bs _ r4 s3 (length-le64_put h.creation_time) refl in
    let s5 : drop 36 bs ≡ r5 = drop_next 20 16 36 bs _ r5 s4 p.id_len refl in
    let s6 : drop 44 bs ≡ r6 =
      drop_next 36 8 44 bs _ r6 s5 (length-le64_put h.encryption_header_off) refl in
    let s7 : drop 52 bs ≡ r7 =
      drop_next 44 8 52 bs _ r7 s6 (length-le64_put h.comment_offset) refl in
    let f0 : take 6 bs ≡ h.magic = take-append 6 h.magic r1 p.magic_len in
    let f1 : get_or bs 6 0 ≡ h.version_major = get_or-drop 6 bs _ _ s1 in
    let f2 : get_or bs 7 0 ≡ h.version_minor =
      get_or-drop 7 bs _ _
        (drop_next 6 1 7 bs (h.version_major ∷ []) (h.version_minor ∷ r2) s1 refl refl) in
    let f3 : le32_get (drop 8 bs) ≡ h.global_flags = read32 h.global_flags _ r3 p.flags s2 in
    let f4 : le64_get (drop 12 bs) ≡ h.creation_time = read64 h.creation_time _ r4 p.time s3 in
    let f5 : take 16 (drop 20 bs) ≡ h.archive_id =
      ap (λ t. take 16 t) s4 ∙ take-append 16 h.archive_id r5 p.id_len in
    let f6 : le64_get (drop 36 bs) ≡ h.encryption_header_off =
      read64 h.encryption_header_off _ r6 p.enc_off s5 in
    let f7 : le64_get (drop 44 bs) ≡ h.comment_offset =
      read64 h.comment_offset _ r7 p.comment_off s6 in
    let f8 : take 12 (drop 52 bs) ≡ h.reserved =
      ap (λ t. take 12 t) s7 ∙ take_all 12 h.reserved (omega (arith, p.reserved_len)) in
    rw (f0, f1, f2, f3, f4, f5, f6, f7, f8) refl

-- zupt_serialize_archive_header writes the 64 bytes that deserialize_archive_header read.
pub serialize_header-deserialize_header :
    (bs : List ℕ)
    → All IsByte bs
    → length bs ≡ 64
    → serialize_archive_header (deserialize_archive_header bs) ≡ bs
unfolding deserialize_archive_header serialize_archive_header
serialize_header-deserialize_header bs h l =
    rw
      (
        back32 8 bs h (omega arith),
        back64 12 bs h (omega arith),
        back64 36 bs h (omega arith),
        back64 44 bs h (omega arith),
        last_piece 52 12 bs l,
        piece 44 8 52 bs refl,
        piece 36 8 44 bs refl,
        piece 20 16 36 bs refl,
        piece 12 8 20 bs refl,
        piece 8 4 12 bs refl,
        one_byte 7 bs (omega arith),
        one_byte 6 bs (omega arith),
        piece 0 6 6 bs refl,
      )
      refl
