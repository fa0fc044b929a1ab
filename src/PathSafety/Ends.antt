-- ===== src/PathSafety/Ends.antt =====
-- The check of a path comes to an answer.
use zupt_web.Base.{
  ℕ, zero, suc, ◌≤◌, ◌≡◌, refl, List, [], ◌∷◌, length, length-drop, get_or, drop, arith, leb, ◌==◌,
  ◌||◌, Bool, true, false, if_rule,
}
use zupt_web.Base.Outcome.{Outcome, done}
use zupt_web.Text.{decode_utf8_scalar, is_display_control}
use zupt_web.PathSafety.{unsafe_loop, path_has_unsafe_text, path_is_safe, separator, memchr, scan}

abbrev pub Answers : Outcome Bool → Type 0
Answers m = (b : Bool) × (m ≡ done b)

unsafe_loop-Answers :
    (fuel : ℕ) (path : List ℕ) → length path ≤ fuel → Answers (unsafe_loop fuel path)
unfolding unsafe_loop
unsafe_loop-Answers fuel [] l = (false, refl)
unsafe_loop-Answers zero (b ∷ path) l = absurd (omega arith)
unsafe_loop-Answers (suc fuel) (b ∷ path) l =
    let len = (decode_utf8_scalar (b ∷ path)).0 in
    let codepoint = (decode_utf8_scalar (b ∷ path)).1 in
    if_rule Answers ((len == 0) || is_display_control codepoint) (λ t. (true, refl))
      λ t.
        let moved : 1 ≤ len = ground arith in
        unsafe_loop-Answers fuel (drop len (b ∷ path)) (omega (arith, length-drop len (b ∷ path)))

-- zupt_path_has_unsafe_text ends on every path.
pub path_has_unsafe_text-Answers : (path : List ℕ) → Answers (path_has_unsafe_text path)
unfolding path_has_unsafe_text
path_has_unsafe_text-Answers path = unsafe_loop-Answers (length path) path (omega arith)

-- zupt_path_is_safe ends on every path, with 1 or 0.
pub path_is_safe-Answers : (path : List ℕ) → Answers (path_is_safe path)
unfolding path_is_safe path_has_unsafe_text
path_is_safe-Answers path =
    if_rule Answers (length path == 0) (λ t. (false, refl))
      λ t.
        if_rule Answers (leb 4096 (length path)) (λ u. (false, refl))
          λ u.
            let (bad, e) = unsafe_loop-Answers (length path) path (omega arith) in
            rw e (
              if_rule Answers bad (λ v. (false, refl))
                λ v.
                  if_rule Answers (separator (get_or path 0 0)) (λ w. (false, refl))
                    λ w.
                      if_rule Answers (memchr path 0x3a) (λ x. (false, refl))
                        λ x. (scan [] path, refl))
