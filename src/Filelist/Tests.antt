-- ===== src/Filelist/Tests.antt =====
-- The list of input files at concrete inputs.
use zupt_web.Base.{ℕ, Bool, true, leb, ◌≡◌, refl, List, [], ◌∷◌}
use zupt_web.Filelist.{filelist_init, filelist_failed, filelist_add}
use zupt_web.Filelist.Holds.{Holds, filelist_adds, filelist_adds-Holds}

abbrev grants : ℕ → Bool
grants n = true

-- An allocator that has no room for the two arrays.
abbrev short_names : ℕ → Bool
short_names n = leb n 100

abbrev files : List (List ℕ × List ℕ)
files = (0x61 ∷ [], 0x61 ∷ []) ∷ (0x62 ∷ [], 0x63 ∷ 0x5c ∷ 0x62 ∷ []) ∷ []

-- A failed list, and a file added behind it.
failed-stays :
    filelist_failed (filelist_add grants (filelist_add short_names filelist_init [] []) [] [])
    ≡ true
unfolding filelist_add filelist_failed
failed-stays = refl

filelist_adds-Holds_example : Holds grants files (filelist_adds grants files filelist_init)
filelist_adds-Holds_example = filelist_adds-Holds grants files
