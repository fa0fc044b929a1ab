-- ===== src/Sealing/Legacy.antt =====
-- Packages without extra data, which have one of two codes (zupt-5.2.10/src/zupt_crypto.c).
use zupt_web.Base.{
  ℕ, ◌-◌, ◌^◌, ◌≤◌, ◌<◌, ◌==◌, if◌then◌else◌, Bool, true, false, ◌||◌, Bool-cases, inl, inr,
  bytes_eq, ◌≡◌, refl, ap, ◌∙◌, List, [], ◌∷◌, ◌++◌, some, none, length, All, IsByte, arith,
  bit_and, bit_or, bit_xor, u8, u64,
}
use zupt_web.Base.Bits.{bit_or-lt, bit_or-ge, bit_xor-lt}
use zupt_web.Wire.{le64_put}
use zupt_web.Compare.{ct_diff, ct_diff-IsByte, ct_diff-bytes_eq}
use zupt_web.Hmac.{hmac_sha256}
use zupt_web.Hmac.Reference.{hmac_sha256-IsByte}
use zupt_web.Pbkdf2.{Keyring}
use zupt_web.Sealing.{package_mac, mac_diff, nonzero, decrypt_legacy, decrypt_buffer_aad}
use zupt_web.Sealing.Authentic.{
  package_mac-transcript, open_package-malloc, body_of, code_of, plain_of, length-body_of,
  long_enough, code_bytes,
}

mac_diff-ct_diff :
    (pa pb : List ℕ) (d : ℕ) → All IsByte pa → All IsByte pb → mac_diff pa pb d ≡ ct_diff pa pb d
unfolding mac_diff ct_diff
mac_diff-ct_diff [] pb d ha hb = refl
mac_diff-ct_diff (a ∷ pa) [] d ha hb = refl
mac_diff-ct_diff (a ∷ pa) (b ∷ pb) d ha hb =
    let byte : bit_xor a b ≡ u8 (bit_xor a b) = omega (arith, bit_xor-lt 8 a b ha.0 hb.0) in
    ap (λ (x : ℕ). mac_diff pa pb (bit_or d x)) byte
    ∙ mac_diff-ct_diff pa pb (bit_or d (u8 (bit_xor a b))) ha.1 hb.1

nonzero_bit : (d : ℕ) → d < 256 → nonzero d ≡ (if d == 0 then 0 else 1)
unfolding nonzero
nonzero_bit d h = elim (Bool-cases (d == 0)) [
  | inl t ↦ let z : d ≡ 0 = ground arith in rw z refl
  | inr f ↦
      let big : u64 (2 ^ 64 - d) ≡ 2 ^ 64 - d = ground arith in
      rw (f, big) (ground (arith, bit_or-ge d (2 ^ 64 - d), bit_or-lt 64 d (2 ^ 64 - d)))
]

-- The bit of one candidate.
candidate :
    (expected stored : List ℕ)
    → length expected ≡ length stored
    → All IsByte expected
    → All IsByte stored
    → nonzero (mac_diff expected stored 0) ≡ (if bytes_eq expected stored then 0 else 1)
candidate expected stored l he hs =
    let same = mac_diff-ct_diff expected stored 0 he hs in
    ap nonzero same
    ∙ nonzero_bit (ct_diff expected stored 0) (ct_diff-IsByte expected stored 0 (omega arith))
    ∙ ap (λ b. if b then 0 else 1) (ct_diff-bytes_eq expected stored l he hs)

both : (a b : Bool) → (bit_and (if a then 0 else 1) (if b then 0 else 1) == 0) ≡ (a || b)
both true true = refl
both true false = refl
both false true = refl
both false false = refl

-- Without extra data, zupt_decrypt_buffer_aad on a package of at least 48 bytes returns the decryption
-- of its ciphertext if the last 32 bytes are the HMAC-SHA256 of nonce, ciphertext and block number, or
-- of nonce and ciphertext alone, and no buffer otherwise, where the allocator grants the buffer.
pub decrypt_buffer_aad-legacy :
    (malloc : ℕ → Bool) (kr : Keyring) (pkg : List ℕ) (block_seq : ℕ)
    → 48 ≤ length pkg
    → All IsByte pkg
    → malloc (length pkg - 48) ≡ true
    → decrypt_buffer_aad malloc kr pkg block_seq [] ≡ (
        if bytes_eq (hmac_sha256 kr.mac_key (body_of pkg ++ le64_put block_seq)) (code_of pkg)
          || bytes_eq (hmac_sha256 kr.mac_key (body_of pkg)) (code_of pkg)
        then some (plain_of kr pkg)
        else none)
unfolding decrypt_buffer_aad decrypt_legacy
decrypt_buffer_aad-legacy malloc kr pkg block_seq hl b m =
    let body = body_of pkg in
    let e = package_mac-transcript kr.mac_key [] body block_seq in
    let (l2, b2) = hmac_sha256-IsByte kr.mac_key (body ++ le64_put block_seq) in
    let (l1, b1) = hmac_sha256-IsByte kr.mac_key body in
    let (lc, bc) = code_bytes pkg hl b in
    let size : malloc (length body - 16) ≡ true =
      ap malloc (omega (arith, length-body_of pkg)) ∙ m in
    let v2 : nonzero (mac_diff (package_mac kr.mac_key [] body block_seq) (code_of pkg) 0) ≡ (
        if bytes_eq (hmac_sha256 kr.mac_key (body ++ le64_put block_seq)) (code_of pkg)
        then 0
        else 1) =
      ap (λ c. nonzero (mac_diff c (code_of pkg) 0)) e
      ∙ candidate (hmac_sha256 kr.mac_key (body ++ le64_put block_seq)) (code_of pkg) (omega arith)
          b2 bc in
    let v1 = candidate (hmac_sha256 kr.mac_key body) (code_of pkg) (omega arith) b1 bc in
    rw (long_enough (length pkg) hl, v2, v1)
      (rw
        (both (bytes_eq (hmac_sha256 kr.mac_key (body ++ le64_put block_seq)) (code_of pkg))
          (bytes_eq (hmac_sha256 kr.mac_key body) (code_of pkg)))
        (open_package-malloc malloc kr body _ size))
