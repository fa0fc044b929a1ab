-- ===== src/PathSafety/Contained.antt =====
-- What a path that is accepted cannot do.
use zupt_web.Base.{
  ℕ, ◌≡◌, ◌≢◌, refl, List, [], ◌∷◌, ◌++◌, length, get_or, All, arith, leb, ◌==◌, ◌&&◌, Bool, true,
  false, if◌then◌else◌, Bool-cases, inl, inr, subst, &&-left, &&-right,
}
use zupt_web.Base.Outcome.{Outcome, done, fail, fault, hang, ◌>>=◌}
use zupt_web.PathSafety.{separator, component_ok, scan, memchr, path_has_unsafe_text, path_is_safe}

-- The components of a path; the bytes of the first one that stand ahead of the cursor come first.
unfoldable pub components : List ℕ → List ℕ → List (List ℕ)
components component [] = component ∷ []
components component (c ∷ path) =
    let next = components [] path in
    let longer = components (component ++ (c ∷ [])) path in
    if separator c then component ∷ next else longer

-- Neither the name of the directory itself nor that of its parent.
abbrev pub Named : List ℕ → Type 0
Named component = (component ≢ 0x2e ∷ []) × (component ≢ 0x2e ∷ 0x2e ∷ [])

component_ok-Named : (component : List ℕ) → component_ok component ≡ true → Named component
unfolding component_ok
component_ok-Named component h = (
  λ e. let q : false ≡ true = subst (λ c. component_ok c ≡ true) e h in absurd (cc),
  λ e. let q : false ≡ true = subst (λ c. component_ok c ≡ true) e h in absurd (cc),
)

nil_case : (component : List ℕ) → scan component [] ≡ true → Named component
unfolding scan
nil_case component h = elim (Bool-cases (length component == 0)) [
  | inl t ↦ absurd (cc)
  | inr t ↦ component_ok-Named component (cc)
]

empty-Named : (component : List ℕ) → (length component == 0) ≡ true → Named component
empty-Named [] h = (λ e. absurd (cc), λ e. absurd (cc))
empty-Named (c ∷ component) h = absurd (ground (arith, h))

both : (a b : Bool) → (a && b) ≡ true → (a ≡ true) × (b ≡ true)
both a b h = (&&-left a b h, &&-right a b h)

-- At a separator, the component in front of it is good and the scan goes on behind it.
separator_case :
    (component path : List ℕ)
    → (if length component == 0 then scan [] path else component_ok component && scan [] path)
      ≡ true
    → Named component × (scan [] path ≡ true)
separator_case component path h = elim (Bool-cases (length component == 0)) [
  | inl t ↦ (empty-Named component t, cc)
  | inr t ↦
      let q : (component_ok component && scan [] path) ≡ true = cc in
      let (good, next) = both (component_ok component) (scan [] path) q in
      (component_ok-Named component good, next)
]

scan-Named :
    (path component : List ℕ) → scan component path ≡ true → All Named (components component path)
unfolding scan components
scan-Named [] component h = (nil_case component h, tt)
scan-Named (c ∷ path) component h =
    go (separator c) (scan-Named path []) (scan-Named path (component ++ (c ∷ []))) h
  where
    go :
        (b : Bool)
        → (scan [] path ≡ true → All Named (components [] path))
        → (scan (component ++ (c ∷ [])) path ≡ true
            → All Named (components (component ++ (c ∷ [])) path))
        → (if b
            then if length component == 0
              then scan [] path
              else component_ok component && scan [] path
            else scan (component ++ (c ∷ [])) path)
          ≡ true
        → All Named
            (if b then component ∷ components [] path else components (component ++ (c ∷ [])) path)
    go true f g q = let (good, next) = separator_case component path q in (good, f next)
    go false f g q = g q

-- The tests in front of the scan.
tests :
    (bad c d e : Bool)
    → (if bad then done false else if c then done false else if d then done false else done e)
      ≡ done true
    → (c ≡ false) × (d ≡ false) × (e ≡ true)
tests true c d e h = absurd (cc)
tests false true d e h = absurd (cc)
tests false false true e h = absurd (cc)
tests false false false e h = (refl, refl, cc)

behind_text :
    (m : Outcome Bool) (a b c d e : Bool)
    → (if a
        then done false
        else if b
        then done false
        else (m >>= λ bad.
            if bad then done false else if c then done false else if d then done false else done e))
      ≡ done true
    → (c ≡ false) × (d ≡ false) × (e ≡ true)
behind_text m true b c d e h = absurd (cc)
behind_text m false true c d e h = absurd (cc)
behind_text (done bad) false false c d e h = tests bad c d e h
behind_text fail false false c d e h = absurd (cc)
behind_text fault false false c d e h = absurd (cc)
behind_text hang false false c d e h = absurd (cc)

accepted :
    (path : List ℕ)
    → path_is_safe path ≡ done true
    → (separator (get_or path 0 0) ≡ false) × (memchr path 0x3a ≡ false) × (scan [] path ≡ true)
unfolding path_is_safe
accepted path h =
    behind_text (path_has_unsafe_text path) (length path == 0) (leb 4096 (length path))
      (separator (get_or path 0 0)) (memchr path 0x3a) (scan [] path) h

-- A path that zupt_path_is_safe accepts does not start with a separator and has no colon, and none of
-- its components is "." or "..", with "/" and "\\" as separators.
pub path_is_safe-Named :
    (path : List ℕ)
    → path_is_safe path ≡ done true
    → (separator (get_or path 0 0) ≡ false)
      × (memchr path 0x3a ≡ false)
      × All Named (components [] path)
path_is_safe-Named path h =
    let (start, colon, scanned) = accepted path h in (start, colon, scan-Named path [] scanned)
