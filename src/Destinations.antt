-- ===== src/Destinations.antt =====
-- The destinations of archive entries: zupt_normalize_archive_path and
-- zupt_validate_archive_destinations of zupt-5.2.10/src/zupt_format.c, without the Windows branch. A
-- path is the list of its bytes, which holds no zero. `qsort` is the sort of the C library under
-- zupt_compare_path_keys. `malloc` says which requests the allocator grants; `calloc` asks it too.
pub mod Distinct
mod Tests
use zupt_web.Base.{
  ℕ, ◌+◌, ◌*◌, ltb, ◌==◌, if◌then◌else◌, Bool, true, false, not, ◌&&◌, ◌||◌, List, [], ◌∷◌, length,
  get_or, take, bytes_eq,
}
use zupt_web.Base.Outcome.{Outcome, done, ◌>>=◌}
use zupt_web.Failure.{invalid, nomem, Result, ok, err}
use zupt_web.Text.{within}
use zupt_web.PathSafety.{path_is_safe}

-- The rest of the path, and `previous_separator`.
unfoldable pub normalize_loop : Bool → List ℕ → Bool → List ℕ
normalize_loop fold_ascii [] previous = []
normalize_loop fold_ascii (c ∷ path) previous =
    let skipped = normalize_loop fold_ascii path true in
    let plain = normalize_loop fold_ascii path false in
    let folded = if fold_ascii && within 0x41 0x5a c then c + 0x20 else c in
    if (c == 0x2f) || (c == 0x5c)
    then if previous then skipped else 0x2f ∷ skipped
    else folded ∷ plain

unfoldable pub normalize_archive_path : Bool → List ℕ → List ℕ
unfolding normalize_loop
normalize_archive_path fold_ascii path = normalize_loop fold_ascii path false

unfoldable pub add_key : List ℕ → Result (List (List ℕ)) → Result (List (List ℕ))
add_key key (ok keys) = ok (key ∷ keys)
add_key key (err e) = err e

-- The keys of the paths, in their order.
unfoldable pub path_keys : (ℕ → Bool) → Bool → List (List ℕ) → Outcome (Result (List (List ℕ)))
unfolding normalize_archive_path add_key
path_keys malloc require_safe [] = done (ok [])
path_keys malloc require_safe (path ∷ paths) =
    let rest = path_keys malloc require_safe paths in
    (if require_safe then path_is_safe path else done true) >>= λ safe.
    if not safe
    then done (err invalid)
    else if malloc (length path + 1)
    then (rest >>= λ r. done (add_key (normalize_archive_path true path) r))
    else done (err nomem)

-- The test of two neighbours: equal, or the first a directory of the second.
unfoldable pub collides : List ℕ → List ℕ → Bool
collides previous key =
    bytes_eq previous key
    || (bytes_eq previous (take (length previous) key) && (get_or key (length previous) 0 == 0x2f))

-- `for (i = 1; i < count; i++)`
unfoldable pub neighbours_collide : List (List ℕ) → Bool
unfolding collides
neighbours_collide [] = false
neighbours_collide (key ∷ []) = false
neighbours_collide (previous ∷ key ∷ keys) =
    collides previous key || neighbours_collide (key ∷ keys)

module _ (qsort : List (List ℕ) → List (List ℕ)) where
  unfoldable pub check_keys : Result (List (List ℕ)) → Result (Unit {0})
  unfolding neighbours_collide
  check_keys (ok keys) = if neighbours_collide (qsort keys) then err invalid else ok tt
  check_keys (err e) = err e

  unfoldable pub validate_archive_destinations :
      (ℕ → Bool) → List (List ℕ) → Bool → Outcome (Result (Unit {0}))
  unfolding path_keys check_keys
  validate_archive_destinations malloc [] require_safe = done (ok tt)
  validate_archive_destinations malloc (path ∷ []) require_safe =
      (if require_safe then path_is_safe path else done true) >>= λ safe.
      if not safe then done (err invalid) else done (ok tt)
  validate_archive_destinations malloc (path ∷ next ∷ paths) require_safe =
      let checked =
        path_keys malloc require_safe (path ∷ next ∷ paths) >>= λ keys. done (check_keys keys) in
      if malloc (length (path ∷ next ∷ paths) * 8) then checked else done (err nomem)
