-- ===== src/Filelist/Holds.antt =====
-- The list of input files against the sequence of the names added (zupt-5.2.10/src/zupt_format.c).
use zupt_web.Base.{
  ℕ, ◌+◌, ◌*◌, ◌≤◌, ◌<◌, ltb, leb, if_rule, Bool, false, Bool-cases, ◌&&◌, ◌||◌, ◌≡◌, ◌⊎◌, inl, inr,
  refl, sym, ap, ◌∙◌, subst, List, [], ◌∷◌, ◌++◌, append_assoc, append-nil, Option, some, none, map,
  length, length-append, arith,
}
use zupt_web.Destinations.{normalize_archive_path}
use zupt_web.Index.{max_files}
use zupt_web.Filelist.{
  ℤ, pos, negsuc, FileList, filelist_init, filelist_mark_failed, new_capacity, grow, put_names,
  filelist_add,
}

-- The names of the files, and of their places in the archive.
abbrev pub disk_names : List (List ℕ × List ℕ) → List (List ℕ)
disk_names files = map (λ (f : List ℕ × List ℕ). f.0) files

abbrev pub archive_names : List (List ℕ × List ℕ) → List (List ℕ)
archive_names files = map (λ (f : List ℕ × List ℕ). normalize_archive_path false f.1) files

-- The calls of zupt_filelist_add for a sequence of files.
abbrev pub filelist_adds : (ℕ → Bool) → List (List ℕ × List ℕ) → FileList → FileList
filelist_adds malloc [] fl = fl
filelist_adds malloc ((disk, arc) ∷ files) fl =
    filelist_adds malloc files (filelist_add malloc fl disk arc)

-- The files that a list holds. A list not marked as failed has their names, in their order, and the places
-- for them; of one marked as failed, there were too many files or a request that was not granted.
abbrev pub Held :
    (ℕ → Bool) → List (List ℕ × List ℕ) → List (List ℕ) → List (List ℕ) → ℕ → ℤ → Type 0
Held malloc files paths arc_paths count (pos c) =
    (paths ≡ disk_names files)
    × (arc_paths ≡ archive_names files)
    × (count ≡ length files)
    × (count ≤ c)
    × (c ≤ max_files)
Held malloc files paths arc_paths count (negsuc c) =
    (max_files < length files) ⊎ ((size : ℕ) × (malloc size ≡ false))

abbrev pub Holds : (ℕ → Bool) → List (List ℕ × List ℕ) → FileList → Type 0
Holds malloc files fl = Held malloc files fl.paths fl.arc_paths fl.count fl.capacity

new_capacity_room : (c : ℕ) → c < max_files → (c < new_capacity c) × (new_capacity c ≤ max_files)
unfolding new_capacity
new_capacity_room c h = (ground arith, ground arith)

map_behind {ℓ κ} :
    {A : Type ℓ} {B : Type κ} (f : A → B) (xs : List A) (x : A)
    → map f (xs ++ (x ∷ [])) ≡ map f xs ++ (f x ∷ [])
map_behind f [] x = refl
map_behind f (y ∷ xs) x = ap (λ l. f y ∷ l) (map_behind f xs x)

-- One of two requests was not granted.
denied :
    (malloc : ℕ → Bool) (m n : ℕ)
    → (malloc m && malloc n) ≡ false
    → (size : ℕ) × (malloc size ≡ false)
denied malloc m n h = elim (Bool-cases (malloc m)) [ inl e ↦ (n, ground arith) | inr e ↦ (m, e) ]

-- What the growth gives for a list that is not full.
abbrev Room : (ℕ → Bool) → ℕ → Option ℕ → Type 0
Room malloc count none = (size : ℕ) × (malloc size ≡ false)
Room malloc count (some c) = (count < c) × (c ≤ max_files)

grow-Room :
    (malloc : ℕ → Bool) (count c : ℕ)
    → count < max_files
    → count ≤ c
    → c ≤ max_files
    → Room malloc count (grow malloc count c)
unfolding grow
grow-Room malloc count c few l top =
    let bytes = new_capacity c * 8 in
    if_rule (Room malloc count) (leb c count)
      (λ full.
        if_rule (Room malloc count) (malloc bytes && malloc bytes)
          (λ _. let (r, t) = new_capacity_room c (ground arith) in (omega (arith, l, r), t))
          (λ e. denied malloc bytes bytes e))
      (λ free. (ground arith, top))

module _ (malloc : ℕ → Bool) (files : List (List ℕ × List ℕ)) (disk arc : List ℕ) where
  put_names-Holds :
      (paths arc_paths : List (List ℕ)) (count c c' : ℕ)
      → Held malloc files paths arc_paths count (pos c)
      → count < c'
      → c' ≤ max_files
      → Holds malloc (files ++ ((disk, arc) ∷ [])) (
          put_names malloc
            record { paths = paths; arc_paths = arc_paths; count = count; capacity = pos c }
            c'
            disk
            arc)
  unfolding put_names filelist_mark_failed
  put_names-Holds paths arc_paths count c c' (p, a, n, l, m) room top =
      if_rule (Holds malloc (files ++ ((disk, arc) ∷ [])))
        (malloc (length disk + 1) && malloc (length arc + 1))
        (λ _. (
          ap (λ l. l ++ (disk ∷ [])) p ∙ sym (map_behind (λ f. f.0) files (disk, arc)),
          ap (λ l. l ++ (normalize_archive_path false arc ∷ [])) a
              ∙ sym (map_behind (λ f. normalize_archive_path false f.1) files (disk, arc)),
          omega (arith, n, length-append files ((disk, arc) ∷ [])),
          omega arith,
          top,
        ))
        (λ e. inr (denied malloc (length disk + 1) (length arc + 1) e))

  grown-Holds :
      (paths arc_paths : List (List ℕ)) (count c : ℕ)
      → Held malloc files paths arc_paths count (pos c)
      → (o : Option ℕ) → Room malloc count o
      → Holds malloc (files ++ ((disk, arc) ∷ [])) (elim o [
        | none ↦
            filelist_mark_failed
              record { paths = paths; arc_paths = arc_paths; count = count; capacity = pos c }
        | some c' ↦
            put_names malloc
              record { paths = paths; arc_paths = arc_paths; count = count; capacity = pos c }
              c'
              disk
              arc
      ])
  unfolding filelist_mark_failed
  grown-Holds paths arc_paths count c h none d = inr d
  grown-Holds paths arc_paths count c h (some c') (r, t) =
      put_names-Holds paths arc_paths count c c' h r t

  filelist_add-Held :
      (paths arc_paths : List (List ℕ)) (count : ℕ) (capacity : ℤ)
      → Held malloc files paths arc_paths count capacity
      → Holds malloc (files ++ ((disk, arc) ∷ [])) (
          filelist_add malloc
            record { paths = paths; arc_paths = arc_paths; count = count; capacity = capacity }
            disk
            arc)
  unfolding filelist_add filelist_mark_failed
  filelist_add-Held paths arc_paths count (pos c) (p, a, n, l, t) =
      if_rule (Holds malloc (files ++ ((disk, arc) ∷ [])))
        (ltb max_files c || ltb c count || leb max_files count)
        (λ e. inl (ground (arith, length-append files ((disk, arc) ∷ []))))
        (λ e.
          grown-Holds paths arc_paths count c (p, a, n, l, t) (grow malloc count c)
            (grow-Room malloc count c (ground arith) l t))
  filelist_add-Held paths arc_paths count (negsuc c) (inl l) =
      inl (omega (arith, length-append files ((disk, arc) ∷ [])))
  filelist_add-Held paths arc_paths count (negsuc c) (inr d) = inr d

filelist_adds-more :
    (malloc : ℕ → Bool) (files more : List (List ℕ × List ℕ)) (fl : FileList)
    → Holds malloc files fl
    → Holds malloc (files ++ more) (filelist_adds malloc more fl)
filelist_adds-more malloc files [] fl h = subst (λ l. Holds malloc l fl) (sym (append-nil files)) h
filelist_adds-more malloc files ((disk, arc) ∷ more) fl h =
    subst (λ l. Holds malloc l (filelist_adds malloc more (filelist_add malloc fl disk arc)))
      (append_assoc files ((disk, arc) ∷ []) more)
      (filelist_adds-more malloc (files ++ ((disk, arc) ∷ [])) more
        (filelist_add malloc fl disk arc)
        (filelist_add-Held malloc files disk arc fl.paths fl.arc_paths fl.count fl.capacity h))

-- After zupt_filelist_add for each file of a sequence, from the empty list: a list that is not marked as
-- failed has the disk name and the normalized archive name of each file, in their order, and at least as
-- many places and at most ZUPT_MAX_FILES; and where it is marked as failed, there were more than
-- ZUPT_MAX_FILES files or a request that the allocator does not grant.
pub filelist_adds-Holds :
    (malloc : ℕ → Bool) (files : List (List ℕ × List ℕ))
    → Holds malloc files (filelist_adds malloc files filelist_init)
filelist_adds-Holds malloc files =
    filelist_adds-more malloc [] files filelist_init (refl, refl, refl, omega arith, omega arith)
