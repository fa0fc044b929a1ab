-- ===== src/Destinations/Distinct.antt =====
-- What zupt_validate_archive_destinations of zupt-5.2.10/src/zupt_format.c accepts. `before` is the order
-- of strcmp, which compares the bytes as numbers from 0 to 255.
use zupt_web.Base.{
  ℕ, suc, ◌+◌, ◌*◌, ◌≤◌, ltb, ◌==◌, if◌then◌else◌, if_rule, Bool, true, false, not, ◌&&◌, ◌||◌, ◌≡◌,
  refl, sym, ap, subst, ◌∙◌, List, [], ◌∷◌, map, length, bytes_eq, bytes_eq→eq, arith,
}
use zupt_web.Base.Outcome.{Outcome, done, fail, fault, hang, ◌>>=◌}
use zupt_web.Failure.{nomem, invalid, Result, ok, err}
use zupt_web.PathSafety.{path_is_safe}
use zupt_web.Destinations.{
  normalize_archive_path, add_key, path_keys, collides, neighbours_collide, check_keys,
  validate_archive_destinations,
}

abbrev pub before : List ℕ → List ℕ → Bool
before xs [] = false
before [] (y ∷ ys) = true
before (x ∷ xs) (y ∷ ys) = ltb x y || ((x == y) && before xs ys)

-- No key stands in front of its predecessor.
abbrev pub in_order : List (List ℕ) → Bool
in_order [] = true
in_order (a ∷ []) = true
in_order (a ∷ b ∷ keys) = not (before b a) && in_order (b ∷ keys)

abbrev pub occurrences : List ℕ → List (List ℕ) → ℕ
occurrences key [] = 0
occurrences key (a ∷ keys) =
    let rest = occurrences key keys in if bytes_eq key a then suc rest else rest

before_trans : (a b c : List ℕ) → before a b ≡ true → before b c ≡ true → before a c ≡ true
before_trans a b [] h k = ground arith
before_trans a [] (z ∷ c) h k = ground arith
before_trans [] (y ∷ b) (z ∷ c) h k = refl
before_trans (x ∷ a) (y ∷ b) (z ∷ c) h k = ground (arith, before_trans a b c)

before_differs : (a b : List ℕ) → before a b ≡ true → bytes_eq a b ≡ false
before_differs a [] h = ground arith
before_differs [] (y ∷ b) h = refl
before_differs (x ∷ a) (y ∷ b) h = ground (arith, before_differs a b)

before_total : (a b : List ℕ) → before b a ≡ false → bytes_eq a b ≡ false → before a b ≡ true
before_total [] [] h d = ground arith
before_total [] (y ∷ b) h d = refl
before_total (x ∷ a) [] h d = ground arith
before_total (x ∷ a) (y ∷ b) h d = ground (arith, before_total a b)

-- Neighbours that do not collide stand in the strict order.
strictly :
    (a b : List ℕ) (keys : List (List ℕ))
    → in_order (a ∷ b ∷ keys) ≡ true
    → neighbours_collide (a ∷ b ∷ keys) ≡ false
    → (before a b ≡ true) × (in_order (b ∷ keys) ≡ true) × (neighbours_collide (b ∷ keys) ≡ false)
unfolding neighbours_collide collides
strictly a b keys s n = (before_total a b (ground arith) (ground arith), ground arith, ground arith)

absent :
    (k a : List ℕ) (keys : List (List ℕ))
    → before k a ≡ true
    → in_order (a ∷ keys) ≡ true
    → neighbours_collide (a ∷ keys) ≡ false
    → occurrences k (a ∷ keys) ≡ 0
absent k a [] h s n = rw (before_differs k a h) refl
absent k a (b ∷ keys) h s n =
    let (l, s', n') = strictly a b keys s n in
    rw (before_differs k a h) (absent k b keys (before_trans k a b h l) s' n')

at_most_once :
    (k : List ℕ) (keys : List (List ℕ))
    → in_order keys ≡ true
    → neighbours_collide keys ≡ false
    → occurrences k keys ≤ 1
at_most_once k [] s n = omega arith
at_most_once k (a ∷ []) s n = ground arith
at_most_once k (a ∷ b ∷ keys) s n =
    let (l, s', n') = strictly a b keys s n in
    let rest = at_most_once k (b ∷ keys) s' n' in
    if_rule (λ (m : ℕ). m ≤ 1) (bytes_eq k a)
      (λ e.
        let l' : before k b ≡ true = ap (λ x. before x b) (bytes_eq→eq k a e) ∙ l in
        omega (arith, absent k b keys l' s' n'))
      (λ _. rest)

abbrev KeysOf : List (List ℕ) → Outcome (Result (List (List ℕ))) → Type 0
KeysOf keys (done (ok found)) = found ≡ keys
KeysOf keys (done (err x)) = Unit
KeysOf keys fail = Unit
KeysOf keys fault = Unit
KeysOf keys hang = Unit

path_keys-KeysOf :
    (malloc : ℕ → Bool) (require_safe : Bool) (paths : List (List ℕ))
    → KeysOf (map (normalize_archive_path true) paths) (path_keys malloc require_safe paths)
unfolding path_keys add_key
path_keys-KeysOf malloc require_safe [] = refl
path_keys-KeysOf malloc require_safe (path ∷ paths) =
    first (if require_safe then path_is_safe path else done true)
      (path_keys-KeysOf malloc require_safe paths)
  where
    key : List ℕ
    key = normalize_archive_path true path

    keys : List (List ℕ)
    keys = map (normalize_archive_path true) paths

    added :
        (m : Outcome (Result (List (List ℕ))))
        → KeysOf keys m
        → KeysOf (key ∷ keys) (m >>= λ r. done (add_key key r))
    added (done (ok found)) h = ap (λ l. key ∷ l) h
    added (done (err x)) h = tt
    added fail h = tt
    added fault h = tt
    added hang h = tt

    first :
        (m : Outcome Bool)
        → KeysOf keys (path_keys malloc require_safe paths)
        → KeysOf (key ∷ keys) (
            m >>= λ safe.
            if not safe
            then done (err invalid)
            else if malloc (length path + 1)
            then (path_keys malloc require_safe paths >>= λ r. done (add_key key r))
            else done (err nomem))
    first (done true) h =
        if_rule (KeysOf (key ∷ keys)) (malloc (length path + 1))
          (λ _. added (path_keys malloc require_safe paths) h) (λ _. tt)
    first (done false) h = tt
    first fail h = tt
    first fault h = tt
    first hang h = tt

abbrev Passed : Outcome (Result (Unit {0})) → Type 0
Passed (done (ok u)) = Unit
Passed (done (err x)) = ⊥
Passed fail = ⊥
Passed fault = ⊥
Passed hang = ⊥

module _ (qsort : List (List ℕ) → List (List ℕ)) (k : List ℕ) where
  checked :
      (keys : List (List ℕ)) (m : Outcome (Result (List (List ℕ))))
      → in_order (qsort keys) ≡ true
      → occurrences k (qsort keys) ≡ occurrences k keys
      → KeysOf keys m
      → Passed (m >>= λ r. done (check_keys qsort r))
      → occurrences k keys ≤ 1
  unfolding check_keys
  checked keys (done (ok found)) s c e p =
      if_rule (λ (r : Result (Unit {0})). Passed (done r) → occurrences k keys ≤ 1)
        (neighbours_collide (qsort found)) (λ _ q. absurd q)
        (λ n _.
          let n' = ap (λ l. neighbours_collide (qsort l)) (sym e) ∙ n in
          omega (arith, c, at_most_once k (qsort keys) s n'))
        p
  checked keys (done (err x)) s c e p = absurd p
  checked keys fail s c e p = absurd p
  checked keys fault s c e p = absurd p
  checked keys hang s c e p = absurd p

  validated :
      (malloc : ℕ → Bool) (paths : List (List ℕ)) (require_safe : Bool)
      → in_order (qsort (map (normalize_archive_path true) paths)) ≡ true
      → occurrences k (qsort (map (normalize_archive_path true) paths))
        ≡ occurrences k (map (normalize_archive_path true) paths)
      → Passed (validate_archive_destinations qsort malloc paths require_safe)
      → occurrences k (map (normalize_archive_path true) paths) ≤ 1
  unfolding validate_archive_destinations
  validated malloc [] require_safe s c p = omega arith
  validated malloc (path ∷ []) require_safe s c p = ground arith
  validated malloc (path ∷ next ∷ paths) require_safe s c p =
      let all = path ∷ next ∷ paths in
      if_rule
        (λ (m : Outcome (Result (Unit {0}))).
          Passed m → occurrences k (map (normalize_archive_path true) all) ≤ 1)
        (malloc (length all * 8))
        (λ _.
          checked (map (normalize_archive_path true) all) (path_keys malloc require_safe all) s c
            (path_keys-KeysOf malloc require_safe all))
        (λ _ q. absurd q) p

-- Where zupt_validate_archive_destinations accepts a list of paths, no key, which is a path with its runs of
-- separators and its ASCII capitals folded, belongs to two of them. `qsort` is assumed to put the keys of
-- these paths into the order of strcmp and to keep how often each of them occurs.
pub validate_archive_destinations-occurrences :
    (qsort : List (List ℕ) → List (List ℕ)) (malloc : ℕ → Bool) (paths : List (List ℕ))
    (require_safe : Bool) (key : List ℕ)
    → in_order (qsort (map (normalize_archive_path true) paths)) ≡ true
    → occurrences key (qsort (map (normalize_archive_path true) paths))
      ≡ occurrences key (map (normalize_archive_path true) paths)
    → validate_archive_destinations qsort malloc paths require_safe ≡ done (ok tt)
    → occurrences key (map (normalize_archive_path true) paths) ≤ 1
validate_archive_destinations-occurrences qsort malloc paths require_safe key s c h =
    validated qsort key malloc paths require_safe s c (subst Passed (sym h) tt)
