-- ===== src/Base/Segments.antt =====
-- Prefixes and segments of a list: how a buffer that fills up meets the list that it will hold.
use Prim.Native.Nat.{ℕ, zero, suc, ◌+◌, ◌≤◌, ◌<◌}
use mathlib.Core.Path.{◌≡◌, refl, sym, ap, ◌∙◌}
use mathlib.Core.List.{List, [], ◌∷◌, ◌++◌}
use mathlib.Core.Option.{some}
use native.Mathlib.Omega.{arith}
use native.Mathlib.Nat.{zero-add, suc-add}
use zupt_web.Base.Lists.{length, get_elem?, get_or, take, drop, take-append, drop-append}

module _ {ℓ} {A : Type ℓ} where
  pub segments_join : (a b : ℕ) (xs : List A) → take a xs ++ take b (drop a xs) ≡ take (a + b) xs
  segments_join zero b xs = rw zero-add
  segments_join (suc a) zero [] = rw suc-add
  segments_join (suc a) (suc b) [] = rw suc-add
  segments_join (suc a) b (x ∷ xs) = rw suc-add (ap (λ l. x ∷ l) (segments_join a b xs))

  pub take_snoc :
      (p : ℕ) (d : A) (xs : List A)
      → p < length xs
      → take p xs ++ (get_or xs p d ∷ []) ≡ take (suc p) xs
  take_snoc p d [] h = absurd (omega arith)
  take_snoc zero d (x ∷ xs) h = refl
  take_snoc (suc p) d (x ∷ xs) h = ap (λ l. x ∷ l) (take_snoc p d xs (omega arith))

  pub get_elem?-take :
      (p r : ℕ) (d : A) (xs : List A)
      → r < p
      → p ≤ length xs
      → get_elem? (take p xs) r ≡ some (get_or xs r d)
  get_elem?-take zero r d xs h hp = absurd (omega arith)
  get_elem?-take (suc p) r d [] h hp = absurd (omega arith)
  get_elem?-take (suc p) zero d (x ∷ xs) h hp = refl
  get_elem?-take (suc p) (suc r) d (x ∷ xs) h hp =
      get_elem?-take p r d xs (omega arith) (omega arith)

  pub take_all : (n : ℕ) (xs : List A) → length xs ≤ n → take n xs ≡ xs
  take_all zero [] h = refl
  take_all zero (x ∷ xs) h = absurd (omega arith)
  take_all (suc n) [] h = refl
  take_all (suc n) (x ∷ xs) h = ap (λ l. x ∷ l) (take_all n xs (omega arith))

  pub drop_nil : (n : ℕ) → drop {A = A} n [] ≡ []
  drop_nil zero = refl
  drop_nil (suc n) = refl

  pub drop-drop : (n k : ℕ) (bs : List A) → drop k (drop n bs) ≡ drop (n + k) bs
  drop-drop zero k bs = rw zero-add
  drop-drop (suc n) zero [] = rw suc-add
  drop-drop (suc n) (suc k) [] = rw suc-add
  drop-drop (suc n) k (b ∷ bs) = rw suc-add (drop-drop n k bs)

  -- Two joined lists are equal piece by piece where the first pieces have one length.
  pub append_injective :
      (xs xs' ys ys' : List A)
      → length xs ≡ length xs'
      → xs ++ ys ≡ xs' ++ ys'
      → (xs ≡ xs') × (ys ≡ ys')
  append_injective xs xs' ys ys' l e = (
    sym (take-append (length xs) xs ys refl)
        ∙ ap (λ t. take (length xs) t) e
        ∙ take-append (length xs) xs' ys' (sym l),
    sym (drop-append (length xs) xs ys refl)
        ∙ ap (λ t. drop (length xs) t) e
        ∙ drop-append (length xs) xs' ys' (sym l),
  )
