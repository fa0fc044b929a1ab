-- ===== src/Filelist.antt =====
-- The list of input files: zupt_filelist_t and its functions in zupt-5.2.10/src/zupt_format.c and
-- zupt-5.2.10/src/zupt_internal.h. `paths` and `arc_paths` hold the names in use, of the two arrays with
-- `capacity` places; a path is the list of its bytes. An `int` is an integer, of which `negsuc n` is
-- -n - 1. `malloc` says which requests the allocator grants; `strdup` asks it too.
pub mod Holds
mod Tests
use zupt_web.Base.{
  ℕ, suc, ◌+◌, ◌*◌, ltb, leb, ◌==◌, if◌then◌else◌, Bool, true, false, ◌&&◌, ◌||◌, List, [], ◌∷◌,
  ◌++◌, Option, some, none, length,
}
use zupt_web.Destinations.{normalize_archive_path}
use zupt_web.Index.{max_files}

pub data ℤ : Type 0 where
  pos : ℕ → ℤ
  negsuc : ℕ → ℤ

pub record FileList : Type 0 where
  pub paths : List (List ℕ)
  pub arc_paths : List (List ℕ)
  pub count : ℕ
  pub capacity : ℤ

abbrev pub filelist_init : FileList
filelist_init = record { paths = []; arc_paths = []; count = 0; capacity = pos 0 }

-- The names go back to the allocator.
abbrev pub filelist_free : FileList → FileList
filelist_free fl = filelist_init

unfoldable pub filelist_failed : FileList → Bool
filelist_failed fl = elim fl.capacity [ pos c ↦ false | negsuc c ↦ true ]

-- `if (capacity >= 0) capacity = -capacity - 1`
unfoldable pub filelist_mark_failed : FileList → FileList
filelist_mark_failed fl = elim fl.capacity [
  | pos c ↦ record {
    paths = fl.paths;
    arc_paths = fl.arc_paths;
    count = fl.count;
    capacity = negsuc c;
  }
  | negsuc c ↦ fl
]

-- `new_cap`
unfoldable pub new_capacity : ℕ → ℕ
new_capacity capacity =
    let new_cap = if capacity == 0 then 256 else capacity * 2 in
    if ltb new_cap capacity || ltb max_files new_cap then max_files else new_cap

module _ (malloc : ℕ → Bool) where
  -- The capacity behind the growth, of a list with `capacity` places.
  unfoldable pub grow : ℕ → ℕ → Option ℕ
  unfolding new_capacity
  grow count capacity =
      let bytes = new_capacity capacity * 8 in
      if leb capacity count
      then if malloc bytes && malloc bytes then some (new_capacity capacity) else none
      else some capacity

  -- The two names are copied and put behind the others.
  unfoldable pub put_names : FileList → ℕ → List ℕ → List ℕ → FileList
  unfolding filelist_mark_failed normalize_archive_path
  put_names fl capacity disk arc =
      let grown : FileList = record {
        paths = fl.paths;
        arc_paths = fl.arc_paths;
        count = fl.count;
        capacity = pos capacity;
      } in
      let added : FileList = record {
        paths = fl.paths ++ (disk ∷ []);
        arc_paths = fl.arc_paths ++ (normalize_archive_path false arc ∷ []);
        count = suc fl.count;
        capacity = pos capacity;
      } in
      if malloc (length disk + 1) && malloc (length arc + 1)
      then added
      else filelist_mark_failed grown

  unfoldable pub filelist_add : FileList → List ℕ → List ℕ → FileList
  unfolding filelist_mark_failed grow put_names
  filelist_add fl disk arc = elim fl.capacity [
    | negsuc c ↦ filelist_mark_failed fl
    | pos capacity ↦
        let grown : FileList = elim (grow fl.count capacity) [
          | none ↦ filelist_mark_failed fl
          | some c ↦ put_names fl c disk arc
        ] in
        if ltb max_files capacity || ltb capacity fl.count || leb max_files fl.count
        then filelist_mark_failed fl
        else grown
  ]
