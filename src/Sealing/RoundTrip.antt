-- ===== src/Sealing/RoundTrip.antt =====
-- A package opened: the one that was sealed, and any other with the same code
-- (zupt-5.2.10/src/zupt_crypto.c).
use zupt_web.Base.{
  ℕ, ◌+◌, ◌-◌, ◌≤◌, ◌<◌, Bool, true, ◌||◌, Bool-cases, inl, inr, ◌⊎◌, bytes_eq, bytes_eq→eq,
  bytes_eq_refl, if◌then◌else◌, ◌≡◌, refl, sym, ap, ◌∙◌, subst, List, [], ◌∷◌, ◌++◌, some, none,
  length, take, drop, length-append, take-append, drop-append, All, All-append, IsByte, IsU64,
  arith,
}
use zupt_web.Wire.{le64_put}
use zupt_web.Hmac.{hmac_sha256}
use zupt_web.Hmac.Reference.{hmac_sha256-IsByte, Collide, Collide-codes}
use zupt_web.Aes.{aes256_ctr}
use zupt_web.Aes.Stream.{aes256_ctr-aes256_ctr, length-aes256_ctr}
use zupt_web.Aes.Bytes.{aes256_ctr-IsByte}
use zupt_web.Pbkdf2.{Keyring}
use zupt_web.Sealing.{package_mac, seal, encrypt_buffer_aad, decrypt_buffer_aad}
use zupt_web.Sealing.Authentic.{
  transcript, transcript_injective, package_mac-transcript, body_of, code_of, plain_of,
  decrypt_buffer_aad-strict,
}
use zupt_web.Sealing.Legacy.{decrypt_buffer_aad-legacy}

-- A package by its parts.
parts :
    (body code : List ℕ)
    → length code ≡ 32
    → (body_of (body ++ code) ≡ body) × (code_of (body ++ code) ≡ code)
parts body code l =
    let n : length (body ++ code) - 32 ≡ length body = omega (arith, length-append body code) in
    (
      ap (λ (t : ℕ). take t (body ++ code)) n ∙ take-append (length body) body code refl,
      ap (λ (t : ℕ). drop t (body ++ code)) n ∙ drop-append (length body) body code refl,
    )

pub length-seal :
    (kr : Keyring) (nonce plain : List ℕ) (n : ℕ) (aad : List ℕ)
    → length nonce ≡ 16
    → length (seal kr nonce plain n aad) ≡ 16 + length plain + 32
unfolding seal
length-seal kr nonce plain n aad h =
    let body = nonce ++ aes256_ctr kr.enc_key nonce plain in
    omega (
      arith,
      length-append body (package_mac kr.mac_key aad body n),
      length-append nonce (aes256_ctr kr.enc_key nonce plain),
      length-aes256_ctr kr.enc_key nonce plain,
      ap length (package_mac-transcript kr.mac_key aad body n),
      (hmac_sha256-IsByte kr.mac_key (transcript aad body n)).0,
    )

-- zupt_encrypt_buffer_aad returns 48 bytes more than it encrypts.
pub encrypt_buffer_aad_size :
    (malloc : ℕ → Bool) (kr : Keyring) (nonce plain : List ℕ) (block_seq : ℕ)
    (aad_extra pkg : List ℕ)
    → length nonce ≡ 16
    → encrypt_buffer_aad malloc kr nonce plain block_seq aad_extra ≡ some pkg
    → length pkg ≡ length plain + 48
unfolding encrypt_buffer_aad
encrypt_buffer_aad_size malloc kr nonce plain n aad pkg h e =
    elim (Bool-cases (malloc (16 + length plain + 32))) [
      | inl t ↦ ground (arith, length-seal kr nonce plain n aad h)
      | inr f ↦ ground arith
    ]

pub seal-IsByte :
    (kr : Keyring) (nonce plain : List ℕ) (n : ℕ) (aad : List ℕ)
    → All IsByte nonce
    → All IsByte plain
    → All IsByte (seal kr nonce plain n aad)
unfolding seal
seal-IsByte kr nonce plain n aad hn hp =
    let body = nonce ++ aes256_ctr kr.enc_key nonce plain in
    All-append IsByte body (package_mac kr.mac_key aad body n)
      (All-append IsByte nonce (aes256_ctr kr.enc_key nonce plain) hn
        (aes256_ctr-IsByte kr.enc_key nonce plain hp))
      (subst (λ l. All IsByte l) (sym (package_mac-transcript kr.mac_key aad body n))
        (hmac_sha256-IsByte kr.mac_key (transcript aad body n)).1)

-- The parts of a sealed package, and its decryption.
sealed :
    (kr : Keyring) (nonce plain : List ℕ) (n : ℕ) (aad : List ℕ)
    → length nonce ≡ 16
    → let pkg = seal kr nonce plain n aad in
      (hmac_sha256 kr.mac_key (transcript aad (body_of pkg) n) ≡ code_of pkg)
      × (plain_of kr pkg ≡ plain)
unfolding seal
sealed kr nonce plain n aad h =
    let ct = aes256_ctr kr.enc_key nonce plain in
    let body = nonce ++ ct in
    let code = package_mac kr.mac_key aad body n in
    let e = package_mac-transcript kr.mac_key aad body n in
    let l : length code ≡ 32 =
      ap length e ∙ (hmac_sha256-IsByte kr.mac_key (transcript aad body n)).0 in
    let (pb, pc) = parts body code l in
    (
      ap (λ b. hmac_sha256 kr.mac_key (transcript aad b n)) pb ∙ sym e ∙ sym pc,
      ap (λ b. aes256_ctr kr.enc_key (take 16 b) (drop 16 b)) pb
          ∙ ap (λ b. aes256_ctr kr.enc_key b (drop 16 body)) (take-append 16 nonce ct h)
          ∙ ap (λ b. aes256_ctr kr.enc_key nonce b) (drop-append 16 nonce ct h)
          ∙ aes256_ctr-aes256_ctr kr.enc_key nonce plain,
    )

pub opened :
    (malloc : ℕ → Bool) (kr : Keyring) (nonce plain : List ℕ) (n : ℕ) (aad : List ℕ)
    → length nonce ≡ 16
    → All IsByte nonce
    → All IsByte plain
    → malloc (length plain) ≡ true
    → decrypt_buffer_aad malloc kr (seal kr nonce plain n aad) n aad ≡ some plain
opened malloc kr nonce plain n [] hl hn hp m =
    let pkg = seal kr nonce plain n [] in
    let len = length-seal kr nonce plain n [] hl in
    let (code, text) = sealed kr nonce plain n [] hl in
    let size : malloc (length pkg - 48) ≡ true = ap malloc (omega arith) ∙ m in
    let ok : bytes_eq (hmac_sha256 kr.mac_key (body_of pkg ++ le64_put n)) (code_of pkg) ≡ true =
      ap (λ l. bytes_eq l (code_of pkg)) code ∙ bytes_eq_refl (code_of pkg) in
    decrypt_buffer_aad-legacy malloc kr pkg n (omega arith) (seal-IsByte kr nonce plain n [] hn hp)
      size
    ∙ ap
        (λ b.
          if b || bytes_eq (hmac_sha256 kr.mac_key (body_of pkg)) (code_of pkg)
          then some (plain_of kr pkg)
          else none)
        ok
    ∙ ap some text
opened malloc kr nonce plain n (x ∷ aad) hl hn hp m =
    let pkg = seal kr nonce plain n (x ∷ aad) in
    let len = length-seal kr nonce plain n (x ∷ aad) hl in
    let (code, text) = sealed kr nonce plain n (x ∷ aad) hl in
    let size : malloc (length pkg - 48) ≡ true = ap malloc (omega arith) ∙ m in
    let ok : bytes_eq (hmac_sha256 kr.mac_key (transcript (x ∷ aad) (body_of pkg) n)) (code_of pkg)
        ≡ true =
      ap (λ l. bytes_eq l (code_of pkg)) code ∙ bytes_eq_refl (code_of pkg) in
    decrypt_buffer_aad-strict malloc kr pkg n (x ∷ aad) (omega arith) (omega arith)
      (seal-IsByte kr nonce plain n (x ∷ aad) hn hp) size
    ∙ ap (λ b. if b then some (plain_of kr pkg) else none) ok
    ∙ ap some text

-- Where the allocator grants the two buffers, zupt_encrypt_buffer_aad returns a package for any nonce of
-- 16 bytes, plaintext, block number and extra data, and zupt_decrypt_buffer_aad under the same keyring,
-- number and extra data returns the plaintext from it.
pub decrypt_buffer_aad-encrypt_buffer_aad :
    (malloc : ℕ → Bool) (kr : Keyring) (nonce plain : List ℕ) (block_seq : ℕ) (aad_extra : List ℕ)
    → length nonce ≡ 16
    → All IsByte nonce
    → All IsByte plain
    → malloc (16 + length plain + 32) ≡ true
    → malloc (length plain) ≡ true
    → (pkg : List ℕ) × (encrypt_buffer_aad malloc kr nonce plain block_seq aad_extra ≡ some pkg)
      × (decrypt_buffer_aad malloc kr pkg block_seq aad_extra ≡ some plain)
unfolding encrypt_buffer_aad
decrypt_buffer_aad-encrypt_buffer_aad malloc kr nonce plain n aad hl hn hp me md =
    rw me (seal kr nonce plain n aad, refl, opened malloc kr nonce plain n aad hl hn hp md)

-- Two packages of at least 48 bytes that zupt_decrypt_buffer_aad accepts under one keyring with extra
-- data of one length, and that end with the same 32 bytes, have the same extra data, the same block
-- number and the same plaintext; or else their own transcripts, each the extra data, the nonce with the
-- ciphertext, and the 8 bytes of the block number of the package, are different inputs that have the
-- same HMAC-SHA256 under the authentication key.
pub decrypt_buffer_aad-Collide :
    (malloc : ℕ → Bool) (kr : Keyring) (pkg pkg' plain plain' : List ℕ) (n n' : ℕ)
    (aad aad' : List ℕ)
    → 0 < length aad
    → length aad ≡ length aad'
    → 48 ≤ length pkg
    → 48 ≤ length pkg'
    → All IsByte pkg
    → All IsByte pkg'
    → IsU64 n
    → IsU64 n'
    → malloc (length pkg - 48) ≡ true
    → malloc (length pkg' - 48) ≡ true
    → decrypt_buffer_aad malloc kr pkg n aad ≡ some plain
    → decrypt_buffer_aad malloc kr pkg' n' aad' ≡ some plain'
    → code_of pkg ≡ code_of pkg'
    → ((aad ≡ aad') × (n ≡ n') × (plain ≡ plain'))
      ⊎ Collide kr.mac_key (transcript aad (body_of pkg) n) (transcript aad' (body_of pkg') n')
decrypt_buffer_aad-Collide malloc kr pkg pkg' plain plain' n n' aad aad' ha la h h' b b' hn hn' m m'
      d d' c =
    let (tag, text) = accepted n aad pkg plain ha h b m d in
    let (tag', text') = accepted n' aad' pkg' plain' (omega arith) h' b' m' d' in
    elim (Collide-codes kr.mac_key (transcript aad (body_of pkg) n)
      (transcript aad' (body_of pkg') n') (tag ∙ c ∙ sym tag')) [
        | inl same ↦
            let (ea, eb, en) = transcript_injective aad aad' _ _ n n' la hn hn' same in
            inl (
              ea,
              en,
              text ∙ ap (λ l. aes256_ctr kr.enc_key (take 16 l) (drop 16 l)) eb ∙ sym text',
            )
        | inr coll ↦ inr coll
      ]
  where
    test :
        (tag pkg plain : List ℕ)
        → (if bytes_eq tag (code_of pkg) then some (plain_of kr pkg) else none) ≡ some plain
        → (tag ≡ code_of pkg) × (plain ≡ plain_of kr pkg)
    test tag pkg plain e = elim (Bool-cases (bytes_eq tag (code_of pkg))) [
      | inl t ↦ (bytes_eq→eq tag (code_of pkg) t, ground arith)
      | inr f ↦ absurd (ground arith)
    ]

    accepted :
        (n : ℕ) (aad pkg plain : List ℕ)
        → 0 < length aad
        → 48 ≤ length pkg
        → All IsByte pkg
        → malloc (length pkg - 48) ≡ true
        → decrypt_buffer_aad malloc kr pkg n aad ≡ some plain
        → (hmac_sha256 kr.mac_key (transcript aad (body_of pkg) n) ≡ code_of pkg)
          × (plain ≡ plain_of kr pkg)
    accepted n aad pkg plain ha h b m d =
        let e = sym (decrypt_buffer_aad-strict malloc kr pkg n aad ha h b m) ∙ d in
        test (hmac_sha256 kr.mac_key (transcript aad (body_of pkg) n)) pkg plain e
