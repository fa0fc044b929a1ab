-- ===== src/Index/Accepted.antt =====
-- What parse_index of zupt-5.2.10/src/zupt_format.c takes from any bytes.
use zupt_web.Base.{
  ℕ, zero, suc, ◌+◌, ◌-◌, ◌*◌, ◌/◌, ◌^◌, ◌≤◌, ◌<◌, ltb, leb, ◌==◌, if◌then◌else◌, if_rule, Bool,
  true, false, ◌||◌, ◌≡◌, refl, sym, ap, ◌∙◌, List, [], ◌∷◌, Option, some, none, map, length, take,
  drop, length-take, All, arith,
}
use zupt_web.Base.Outcome.{Outcome, done, fail, fault, hang, ◌>>=◌}
use zupt_web.Failure.{corrupt, nomem, Result, ok, err}
use zupt_web.Wire.{le32_get, le64_get}
use zupt_web.PathSafety.{path_has_unsafe_text, memchr}
use zupt_web.PathSafety.Ends.{Answers, path_has_unsafe_text-Answers}
use zupt_web.Destinations.{
  add_key, path_keys, check_keys, validate_archive_destinations, normalize_archive_path,
}
use zupt_web.Index.{
  IndexEntry, max_path, max_files, max_index_alloc_bytes, min_index_entry_bytes, sizeof_entry,
  next_varint, parse_fields, parse_path, parse_sized, parse_entry, add_entry, parse_entries,
  accept_entries, parse_counted, parse_found, parse_index,
}

-- A path that fits its buffer with the zero behind it, holds none, and prints safely.
abbrev pub Named : IndexEntry → Type 0
Named e =
    (0 < length e.path)
    × (length e.path < max_path)
    × (memchr e.path 0 ≡ false)
    × (path_has_unsafe_text e.path ≡ done false)

abbrev PathOf : List ℕ → Result (IndexEntry × List ℕ) → Type 0
PathOf path (ok (e, rest)) = path ≡ e.path
PathOf path (err x) = Unit

parse_fields-PathOf : (path p : List ℕ) → PathOf path (parse_fields path p)
unfolding parse_fields
parse_fields-PathOf path p =
    if_rule (PathOf path) (ltb (length p) 44) (λ _. tt) (λ _. found (next_varint (drop 40 p)))
  where
    found :
        (o : Option (ℕ × List ℕ))
        → PathOf path (elim o [
          | none ↦ err corrupt
          | some (bc, rest) ↦
              if ltb (2 ^ 32 - 1) bc
              then err corrupt
              else if ltb (length rest) 4
              then err corrupt
              else ok (
                record {
                  path = path;
                  uncompressed_size = le64_get p;
                  compressed_size = le64_get (drop 8 p);
                  modification_time = le64_get (drop 16 p);
                  content_hash = le64_get (drop 24 p);
                  first_block_offset = le64_get (drop 32 p);
                  block_count = bc;
                  attributes = le32_get rest;
                },
                drop 4 rest,
              )
        ])
    found none = tt
    found (some (bc, rest)) =
        if_rule (PathOf path) (ltb (2 ^ 32 - 1) bc) (λ _. tt)
          (λ _. if_rule (PathOf path) (ltb (length rest) 4) (λ _. tt) (λ _. refl))

-- One entry taken, or an error.
abbrev EntryTaken : Outcome (Result (IndexEntry × List ℕ)) → Type 0
EntryTaken (done (ok (e, rest))) = Named e
EntryTaken (done (err x)) = Unit
EntryTaken fail = ⊥
EntryTaken fault = ⊥
EntryTaken hang = ⊥

from_path :
    (path : List ℕ) (r : Result (IndexEntry × List ℕ))
    → (0 < length path)
      × (length path < max_path)
      × (memchr path 0 ≡ false)
      × (path_has_unsafe_text path ≡ done false)
    → PathOf path r
    → EntryTaken (done r)
from_path path (ok (e, rest)) (l, s, z, u) p = (
  omega (arith, ap length p),
  omega (arith, ap length p),
  ap (λ q. memchr q 0) (sym p) ∙ z,
  ap path_has_unsafe_text (sym p) ∙ u,
)
from_path path (err x) h p = tt

parse_path-EntryTaken : (plen : ℕ) (p : List ℕ) → EntryTaken (parse_path plen p)
unfolding parse_path
parse_path-EntryTaken plen p =
    let path = take plen p in
    if_rule EntryTaken (ltb (length p) plen) (λ _. tt)
      λ short.
        if_rule EntryTaken ((plen == 0) || leb max_path plen || memchr path 0) (λ _. tt)
          λ good.
            let len : length path ≡ plen = ground (arith, length-take plen p) in
            answered path (path_has_unsafe_text-Answers path) (ground arith) (ground arith)
              (ground arith)
  where
    answered :
        (path : List ℕ)
        → Answers (path_has_unsafe_text path)
        → 0 < length path
        → length path < max_path
        → memchr path 0 ≡ false
        → EntryTaken (
            path_has_unsafe_text path >>= λ bad.
            if bad then done (err corrupt) else done (parse_fields path (drop plen p)))
    answered path (true, e) l s z = rw e tt
    answered path (false, e) l s z = rw e (
        from_path path (parse_fields path (drop plen p)) (l, s, z, e)
          (parse_fields-PathOf path (drop plen p)))

parse_entry-EntryTaken : (p : List ℕ) → EntryTaken (parse_entry p)
unfolding parse_entry parse_sized
parse_entry-EntryTaken p = sized (next_varint p)
  where
    sized : (o : Option (ℕ × List ℕ)) → EntryTaken (parse_sized o)
    sized none = tt
    sized (some (plen, rest)) = parse_path-EntryTaken plen rest

abbrev EntriesTaken : ℕ → Outcome (Result (List IndexEntry × List ℕ)) → Type 0
EntriesTaken n (done (ok (entries, rest))) = (length entries ≡ n) × All Named entries
EntriesTaken n (done (err x)) = Unit
EntriesTaken n fail = ⊥
EntriesTaken n fault = ⊥
EntriesTaken n hang = ⊥

one_more :
    (n : ℕ) (e : IndexEntry) (m : Outcome (Result (List IndexEntry × List ℕ)))
    → Named e
    → EntriesTaken n m
    → EntriesTaken (suc n) (m >>= λ more. done (add_entry e more))
unfolding add_entry
one_more n e (done (ok (entries, rest))) h (l, t) = (ap suc l, (h, t))
one_more n e (done (err x)) h t = tt
one_more n e fail h t = t
one_more n e fault h t = t
one_more n e hang h t = t

parse_entries-EntriesTaken : (n : ℕ) (p : List ℕ) → EntriesTaken n (parse_entries n p)
unfolding parse_entries
parse_entries-EntriesTaken zero p = (refl, tt)
parse_entries-EntriesTaken (suc n) p =
    first (parse_entry p) (parse_entry-EntryTaken p) (λ rest. parse_entries-EntriesTaken n rest)
  where
    first :
        (m : Outcome (Result (IndexEntry × List ℕ)))
        → EntryTaken m
        → ((rest : List ℕ) → EntriesTaken n (parse_entries n rest))
        → EntriesTaken (suc n) (
            m >>= λ r. elim r [
              | err x ↦ done (err x)
              | ok (e, rest) ↦ parse_entries n rest >>= λ more. done (add_entry e more)
            ])
    first (done (ok (e, rest))) h more = one_more n e (parse_entries n rest) h (more rest)
    first (done (err x)) h more = tt
    first fail h more = h
    first fault h more = h
    first hang h more = h

path_keys-done :
    (malloc : ℕ → Bool) (paths : List (List ℕ))
    → (r : Result (List (List ℕ))) × (path_keys malloc false paths ≡ done r)
unfolding path_keys
path_keys-done malloc [] = (ok [], refl)
path_keys-done malloc (path ∷ paths) =
    let (r, e) = path_keys-done malloc paths in
    if_rule (λ (m : Outcome (Result (List (List ℕ)))). (r : Result (List (List ℕ))) × (m ≡ done r))
      (malloc (length path + 1)) (λ _. rw e (add_key (normalize_archive_path true path) r, refl))
      (λ _. (err nomem, refl))

validate-done :
    (qsort : List (List ℕ) → List (List ℕ)) (malloc : ℕ → Bool) (paths : List (List ℕ))
    → (r : Result (Unit {0})) × (validate_archive_destinations qsort malloc paths false ≡ done r)
unfolding validate_archive_destinations
validate-done qsort malloc [] = (ok tt, refl)
validate-done qsort malloc (path ∷ []) = (ok tt, refl)
validate-done qsort malloc (path ∷ next ∷ paths) =
    let (r, e) = path_keys-done malloc (path ∷ next ∷ paths) in
    if_rule (λ (m : Outcome (Result (Unit {0}))). (r : Result (Unit {0})) × (m ≡ done r))
      (malloc (length (path ∷ next ∷ paths) * 8)) (λ _. rw e (check_keys qsort r, refl))
      (λ _. (err nomem, refl))

-- It returns; entries that it gives out are within the limits, and their paths are named.
abbrev pub Accepted : Outcome (Result (List IndexEntry)) → Type 0
Accepted (done (ok entries)) =
    (length entries * sizeof_entry ≤ max_index_alloc_bytes) × All Named entries
Accepted (done (err x)) = Unit
Accepted fail = ⊥
Accepted fault = ⊥
Accepted hang = ⊥

module _ (qsort : List (List ℕ) → List (List ℕ)) (malloc : ℕ → Bool) where
  accept_entries-Accepted :
      (n : ℕ) (m : Outcome (Result (List IndexEntry × List ℕ)))
      → n * sizeof_entry ≤ max_index_alloc_bytes
      → EntriesTaken n m
      → Accepted (m >>= λ r. accept_entries qsort malloc r)
  unfolding accept_entries
  accept_entries-Accepted n (done (ok (entries, rest))) h (l, t) =
      let (r, e) = validate-done qsort malloc (map (λ (e : IndexEntry). e.path) entries) in
      if_rule Accepted (length rest == 0)
        (λ _. if_rule Accepted (malloc (length entries * 8)) (λ _. rw e (valid r)) (λ _. tt))
        (λ _. tt)
    where
      valid :
          (r : Result (Unit {0}))
          → Accepted (elim r [ err x ↦ done (err x) | ok u ↦ done (ok entries) ])
      valid (err x) = tt
      valid (ok u) = (omega (arith, l), t)
  accept_entries-Accepted n (done (err x)) h t = tt
  accept_entries-Accepted n fail h t = t
  accept_entries-Accepted n fault h t = t
  accept_entries-Accepted n hang h t = t

  -- parse_index returns on any bytes. Where it gives out entries, their array has at most 256 MiB, and
  -- each path has 1 to 4095 bytes, no zero byte, and no text that zupt_path_has_unsafe_text rejects.
  pub parse_index-Accepted : (buf : List ℕ) → Accepted (parse_index qsort malloc buf)
  unfolding parse_index parse_found parse_counted
  parse_index-Accepted buf = counted (next_varint buf)
    where
      counted : (o : Option (ℕ × List ℕ)) → Accepted (parse_found qsort malloc o)
      counted none = tt
      counted (some (count, p)) =
          if_rule Accepted (ltb max_files count) (λ _. tt)
            λ _.
              if_rule Accepted (ltb (length p / min_index_entry_bytes) count) (λ _. tt)
                λ _.
                  if_rule Accepted (ltb (max_index_alloc_bytes / sizeof_entry) count) (λ _. tt)
                    λ f.
                      if_rule Accepted (count == 0)
                        (λ _. if_rule Accepted (length p == 0) (λ _. (omega arith, tt)) (λ _. tt))
                        λ _.
                          if_rule Accepted (malloc (count * sizeof_entry))
                            (λ _.
                              accept_entries-Accepted count (parse_entries count p) (ground arith)
                                (parse_entries-EntriesTaken count p))
                            (λ _. tt)
