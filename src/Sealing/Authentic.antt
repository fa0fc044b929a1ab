-- ===== src/Sealing/Authentic.antt =====
-- Packages with extra data, and what the code of every package covers
-- (zupt-5.2.10/src/zupt_crypto.c).
use zupt_web.Base.{
  ℕ, ◌+◌, ◌-◌, ◌/◌, ◌≤◌, ◌<◌, ltb, ◌==◌, if◌then◌else◌, Bool, true, false, not, bytes_eq, ◌≡◌, refl,
  sym, ap, ◌∙◌, List, [], ◌∷◌, ◌++◌, some, none, append-nil, length, take, drop, length-append,
  length-take, length-drop, append_injective, All, All-drop, IsByte, IsU64, arith,
}
use zupt_web.Wire.{le64_put, le64_get}
use zupt_web.Wire.Little.{low_byte, le64_get-le64_put, length-le64_put}
use zupt_web.Compare.{ct_memeq, ct_memeq-bytes_eq}
use zupt_web.Hmac.{stack_ctx, hmac_sha256}
use zupt_web.Hmac.Reference.{hmac_pieces, hmac_sha256-IsByte}
use zupt_web.Aes.{aes256_ctr}
use zupt_web.Pbkdf2.{Keyring}
use zupt_web.Sealing.{seq_bytes, package_mac, open_package, decrypt_strict, decrypt_buffer_aad}

-- What a code covers.
abbrev pub transcript : List ℕ → List ℕ → ℕ → List ℕ
transcript aad_extra body block_seq = aad_extra ++ (body ++ le64_put block_seq)

seq_bytes-le64_put : (v : ℕ) → seq_bytes 8 0 v ≡ le64_put v
unfolding seq_bytes le64_put
seq_bytes-le64_put v = ground (
  arith,
  low_byte v,
  low_byte (v / 256),
  low_byte (v / 256 / 256),
  low_byte (v / 256 / 256 / 256),
  low_byte (v / 256 / 256 / 256 / 256),
  low_byte (v / 256 / 256 / 256 / 256 / 256),
  low_byte (v / 256 / 256 / 256 / 256 / 256 / 256),
  low_byte (v / 256 / 256 / 256 / 256 / 256 / 256 / 256),
)

-- The code of a package is the code of RFC 2104 of the bytes that it covers in their order.
pub package_mac-transcript :
    (key aad body : List ℕ) (n : ℕ)
    → package_mac key aad body n ≡ hmac_sha256 key (transcript aad body n)
unfolding package_mac
package_mac-transcript key [] body n =
    hmac_pieces stack_ctx key (body ∷ seq_bytes 8 0 n ∷ []) refl refl
    ∙ ap (λ l. hmac_sha256 key (body ++ l)) (append-nil _ ∙ seq_bytes-le64_put n)
package_mac-transcript key (x ∷ aad) body n =
    let extra : (length (x ∷ aad) == 0) ≡ false = ground arith in
    rw extra (
      hmac_pieces stack_ctx key ((x ∷ aad) ∷ body ∷ seq_bytes 8 0 n ∷ []) refl refl
      ∙ ap (λ l. hmac_sha256 key ((x ∷ aad) ++ (body ++ l))) (append-nil _ ∙ seq_bytes-le64_put n))

pub transcript_injective :
    (aad aad' body body' : List ℕ) (n n' : ℕ)
    → length aad ≡ length aad'
    → IsU64 n
    → IsU64 n'
    → transcript aad body n ≡ transcript aad' body' n'
    → (aad ≡ aad') × (body ≡ body') × (n ≡ n')
transcript_injective aad aad' body body' n n' l hn hn' e =
    let (a, rest) = append_injective aad aad' _ _ l e in
    let ln = length-le64_put n in
    let ln' = length-le64_put n' in
    let lens : length body ≡ length body' =
      omega (
        arith,
        ap length rest,
        length-append body (le64_put n),
        length-append body' (le64_put n'),
      ) in
    let (b, s) = append_injective body body' _ _ lens rest in
    (
      a,
      b,
      sym (le64_get-le64_put n [] hn)
          ∙ ap (λ m. le64_get (m ++ [])) s
          ∙ le64_get-le64_put n' [] hn',
    )

-- The parts of a package.
abbrev pub body_of : List ℕ → List ℕ
body_of pkg = take (length pkg - 32) pkg

abbrev pub code_of : List ℕ → List ℕ
code_of pkg = drop (length pkg - 32) pkg

abbrev pub plain_of : Keyring → List ℕ → List ℕ
plain_of kr pkg = aes256_ctr kr.enc_key (take 16 (body_of pkg)) (drop 16 (body_of pkg))

pub length-body_of : (pkg : List ℕ) → length (body_of pkg) ≡ length pkg - 32
length-body_of pkg = omega (arith, length-take (length pkg - 32) pkg)

pub open_package-malloc :
    (malloc : ℕ → Bool) (kr : Keyring) (body : List ℕ) (accepted : Bool)
    → malloc (length body - 16) ≡ true
    → open_package malloc kr body accepted
      ≡ (if accepted then some (aes256_ctr kr.enc_key (take 16 body) (drop 16 body)) else none)
unfolding open_package
open_package-malloc malloc kr body accepted m = rw m refl

-- The length test, which every package of at least 48 bytes passes.
pub long_enough : (n : ℕ) → 48 ≤ n → ltb n (16 + 32) ≡ false
long_enough n h = ground arith

pub code_bytes :
    (pkg : List ℕ)
    → 48 ≤ length pkg
    → All IsByte pkg
    → (length (code_of pkg) ≡ 32) × All IsByte (code_of pkg)
code_bytes pkg h b =
    (omega (arith, length-drop (length pkg - 32) pkg), All-drop IsByte (length pkg - 32) pkg b)

-- With extra data, zupt_decrypt_buffer_aad on a package of at least 48 bytes returns the decryption of
-- its ciphertext if the last 32 bytes are the HMAC-SHA256 of extra data, nonce, ciphertext and block
-- number, and no buffer otherwise, where the allocator grants the buffer.
pub decrypt_buffer_aad-strict :
    (malloc : ℕ → Bool) (kr : Keyring) (pkg : List ℕ) (block_seq : ℕ) (aad_extra : List ℕ)
    → 0 < length aad_extra
    → 48 ≤ length pkg
    → All IsByte pkg
    → malloc (length pkg - 48) ≡ true
    → decrypt_buffer_aad malloc kr pkg block_seq aad_extra ≡ (
        if bytes_eq
          (hmac_sha256 kr.mac_key (transcript aad_extra (body_of pkg) block_seq))
          (code_of pkg)
        then some (plain_of kr pkg)
        else none)
unfolding decrypt_buffer_aad decrypt_strict
decrypt_buffer_aad-strict malloc kr pkg block_seq aad_extra ha hl b m =
    let e = package_mac-transcript kr.mac_key aad_extra (body_of pkg) block_seq in
    let code = package_mac kr.mac_key aad_extra (body_of pkg) block_seq in
    let expected = hmac_sha256 kr.mac_key (transcript aad_extra (body_of pkg) block_seq) in
    let (le, be) = hmac_sha256-IsByte kr.mac_key (transcript aad_extra (body_of pkg) block_seq) in
    let (lc, bc) = code_bytes pkg hl b in
    let extra : ltb 0 (length aad_extra) ≡ true = ground arith in
    let size : malloc (length (body_of pkg) - 16) ≡ true =
      ap malloc (omega (arith, length-body_of pkg)) ∙ m in
    let test : (ct_memeq code (code_of pkg) == 0) ≡ not (bytes_eq expected (code_of pkg)) =
      ap (λ c. ct_memeq c (code_of pkg) == 0) e
      ∙ ct_memeq-bytes_eq expected (code_of pkg) (omega arith) be bc in
    rw (long_enough (length pkg) hl, extra, test)
      (open_package-malloc malloc kr (body_of pkg) _ size
        ∙ negated (bytes_eq expected (code_of pkg)) (plain_of kr pkg))
  where
    negated :
        (t : Bool) (x : List ℕ)
        → (if (if not t then false else true) then some x else none) ≡ (if t then some x else none)
    negated true x = refl
    negated false x = refl
