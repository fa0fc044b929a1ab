-- ===== src/Hmac/Reference.antt =====
-- HMAC-SHA256 as RFC 2104 defines it, and the incremental computation of
-- zupt-5.2.10/src/zupt_crypto.c.
use zupt_web.Base.{
  ℕ, zero, suc, ◌-◌, ◌≤◌, ltb, Bool-cases, ◌≡◌, refl, sym, ap, ◌∙◌, inl, inr, ◌⊎◌, ◌≢◌, same_or_not,
  List, [], ◌∷◌, ◌++◌, map, append-nil, length, replicate, if◌then◌else◌, All, IsByte, bit_xor,
  arith,
}
use native.Mathlib.Nat.{sub-zero, suc-sub-suc}
use zupt_web.Sha256.{sha256_init, sha256_update, sha256_final, sha256}
use zupt_web.Sha256.Digest.{updates, concat, sha256_final-updates, sha256-IsByte}
use zupt_web.Hmac.{
  HmacCtx, xor_key, short_key, hmac_sha256_init, hmac_sha256_update, hmac_sha256_final, stack_ctx,
  hmac_sha256,
}

-- The key as a block: hashed where it is longer than a block, then filled up with zeros.
abbrev pub key_block : List ℕ → List ℕ
key_block key =
    let k = if ltb 64 (length key) then sha256 key else key in k ++ replicate (64 - length k) 0

-- `H((K ^ opad) || H((K ^ ipad) || m))`
abbrev pub rfc2104 : List ℕ → List ℕ → List ℕ
rfc2104 key m =
    let ipad = map (λ k. bit_xor 0x36 k) (key_block key) in
    let opad = map (λ k. bit_xor 0x5c k) (key_block key) in sha256 (opad ++ sha256 (ipad ++ m))

pub map_zeros : (b n : ℕ) → bit_xor b 0 ≡ b → map (λ k. bit_xor b k) (replicate n 0) ≡ replicate n b
map_zeros b zero e = refl
map_zeros b (suc n) e = ap (λ l. bit_xor b 0 ∷ l) (map_zeros b n e) ∙ ap (λ x. x ∷ replicate n b) e

xor_key-map :
    (b n : ℕ) (key : List ℕ)
    → bit_xor b 0 ≡ b
    → length key ≤ n
    → xor_key (replicate n b) key ≡ map (λ k. bit_xor b k) (key ++ replicate (n - length key) 0)
unfolding xor_key
xor_key-map b n [] e h = rw sub-zero (sym (map_zeros b n e))
xor_key-map b zero (k ∷ key) e h = absurd (omega arith)
xor_key-map b (suc n) (k ∷ key) e h =
    rw suc-sub-suc (ap (λ l. bit_xor b k ∷ l) (xor_key-map b n key e (omega arith)))

short_key-fits : (key : List ℕ) → length (short_key key) ≤ 64
unfolding short_key
short_key-fits key = elim (Bool-cases (ltb 64 (length key))) [
  | inl t ↦ rw t (omega (arith, (sha256-IsByte key).0))
  | inr f ↦ rw f (ground arith)
]

pad-key_block :
    (b : ℕ) (key : List ℕ)
    → bit_xor b 0 ≡ b
    → xor_key (replicate 64 b) (short_key key) ≡ map (λ k. bit_xor b k) (key_block key)
unfolding short_key
pad-key_block b key e = xor_key-map b 64 (short_key key) e (short_key-fits key)

abbrev pub hmac_updates : HmacCtx → List (List ℕ) → HmacCtx
hmac_updates c [] = c
hmac_updates c (p ∷ pieces) = hmac_updates (hmac_sha256_update c p) pieces

hmac_updates-updates :
    (c : HmacCtx) (pieces : List (List ℕ))
    → hmac_updates c pieces ≡ record c { inner = updates c.inner pieces }
unfolding hmac_sha256_update
hmac_updates-updates c [] = refl
hmac_updates-updates c (p ∷ pieces) = hmac_updates-updates (hmac_sha256_update c p) pieces

-- However a message is cut into pieces, zupt_hmac_sha256_init, zupt_hmac_sha256_update for each piece and
-- zupt_hmac_sha256_final yield the code that RFC 2104 defines of the whole message, for a key of any
-- length and whatever bytes the two buffers of 64 bytes hold at first.
pub hmac_sha256_final-hmac_updates :
    (c : HmacCtx) (key : List ℕ) (pieces : List (List ℕ))
    → length c.inner.buf ≡ 64
    → length c.outer.buf ≡ 64
    → hmac_sha256_final (hmac_updates (hmac_sha256_init c key) pieces) ≡ rfc2104 key (concat pieces)
unfolding hmac_sha256_final hmac_sha256_init
hmac_sha256_final-hmac_updates c key pieces hi ho =
    let ipad = xor_key (replicate 64 0x36) (short_key key) in
    let opad = xor_key (replicate 64 0x5c) (short_key key) in
    let inner = sha256 (ipad ++ concat pieces) in
    ap hmac_sha256_final (hmac_updates-updates (hmac_sha256_init c key) pieces)
    ∙ ap (λ l. sha256_final (sha256_update (sha256_update (sha256_init c.outer.buf) opad) l))
        (sha256_final-updates c.inner.buf (ipad ∷ pieces) hi)
    ∙ sha256_final-updates c.outer.buf (opad ∷ inner ∷ []) ho
    ∙ ap (λ l. sha256 (opad ++ l)) (append-nil inner)
    ∙ ap (λ l. sha256 (opad ++ sha256 (l ++ concat pieces))) (pad-key_block 0x36 key refl)
    ∙ ap (λ l. sha256 (l ++ sha256 (map (λ k. bit_xor 0x36 k) (key_block key) ++ concat pieces)))
        (pad-key_block 0x5c key refl)

-- zupt_hmac_sha256 yields the code that RFC 2104 defines.
pub hmac_sha256-rfc2104 : (key m : List ℕ) → hmac_sha256 key m ≡ rfc2104 key m
unfolding hmac_sha256
hmac_sha256-rfc2104 key m =
    hmac_sha256_final-hmac_updates stack_ctx key (m ∷ []) refl refl
    ∙ ap (λ l. rfc2104 key l) (append-nil m)

-- The incremental code of the pieces is the code of the whole message.
pub hmac_pieces :
    (c : HmacCtx) (key : List ℕ) (pieces : List (List ℕ))
    → length c.inner.buf ≡ 64
    → length c.outer.buf ≡ 64
    → hmac_sha256_final (hmac_updates (hmac_sha256_init c key) pieces)
      ≡ hmac_sha256 key (concat pieces)
hmac_pieces c key pieces hi ho =
    hmac_sha256_final-hmac_updates c key pieces hi ho
    ∙ sym (hmac_sha256-rfc2104 key (concat pieces))

-- A code has 32 bytes.
pub hmac_sha256-IsByte :
    (key m : List ℕ) → (length (hmac_sha256 key m) ≡ 32) × All IsByte (hmac_sha256 key m)
hmac_sha256-IsByte key m = rw (hmac_sha256-rfc2104 key m) (sha256-IsByte _)

-- These two inputs are different, and their codes under the key are the same.
abbrev pub Collide : List ℕ → List ℕ → List ℕ → Type 0
Collide mac_key a b = (a ≢ b) × (hmac_sha256 mac_key a ≡ hmac_sha256 mac_key b)

pub Collide-codes :
    (mac_key a b : List ℕ)
    → hmac_sha256 mac_key a ≡ hmac_sha256 mac_key b
    → (a ≡ b) ⊎ Collide mac_key a b
Collide-codes mac_key a b e = elim (same_or_not a b) [ inl s ↦ inl s | inr d ↦ inr (d, e) ]
