-- ===== src/Destinations/Tests.antt =====
-- Archive paths at concrete inputs.
use zupt_web.Base.{ℕ, ◌≤◌, Bool, true, false, ◌≡◌, refl, List, [], ◌∷◌, map}
use zupt_web.Base.Outcome.{done}
use zupt_web.Failure.{ok, err, invalid}
use zupt_web.Destinations.{normalize_archive_path, validate_archive_destinations}
use zupt_web.Destinations.Distinct.{occurrences, validate_archive_destinations-occurrences}

abbrev grants : ℕ → Bool
grants n = true

-- Lists that are sorted already.
abbrev as_given : List (List ℕ) → List (List ℕ)
as_given keys = keys

-- "A\\/b" and "a/b"
folded : normalize_archive_path true (0x41 ∷ 0x5c ∷ 0x2f ∷ 0x62 ∷ []) ≡ 0x61 ∷ 0x2f ∷ 0x62 ∷ []
unfolding normalize_archive_path
folded = refl

-- "a" and "a/b": a file and its own directory.
neighbours-refused :
    validate_archive_destinations as_given grants
      ((0x61 ∷ []) ∷ (0x61 ∷ 0x2f ∷ 0x62 ∷ []) ∷ [])
      false
    ≡ done (err invalid)
unfolding validate_archive_destinations
neighbours-refused = refl

-- "a", "a.b" and "a/b", in the order of strcmp: the same pair, with a key between them.
separated-accepted :
    validate_archive_destinations as_given grants
      ((0x61 ∷ []) ∷ (0x61 ∷ 0x2e ∷ 0x62 ∷ []) ∷ (0x61 ∷ 0x2f ∷ 0x62 ∷ []) ∷ [])
      false
    ≡ done (ok tt)
unfolding validate_archive_destinations
separated-accepted = refl

-- "A/b" and "c"
abbrev paths : List (List ℕ)
paths = (0x41 ∷ 0x2f ∷ 0x62 ∷ []) ∷ (0x63 ∷ []) ∷ []

paths-accepted : validate_archive_destinations as_given grants paths false ≡ done (ok tt)
unfolding validate_archive_destinations
paths-accepted = refl

validate_archive_destinations-occurrences_example :
    occurrences (0x61 ∷ 0x2f ∷ 0x62 ∷ []) (map (normalize_archive_path true) paths) ≤ 1
validate_archive_destinations-occurrences_example =
    validate_archive_destinations-occurrences as_given grants paths false (0x61 ∷ 0x2f ∷ 0x62 ∷ [])
      (unfold normalize_archive_path in refl) refl paths-accepted
