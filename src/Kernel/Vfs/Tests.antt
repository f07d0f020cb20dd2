-- ===== src/Kernel/Vfs/Tests.antt =====
-- Runs with the mounts "/" and "/a", whose file systems are 1 and 2.
use mathlib.Core.Option.{some-injective}
use plum_os.Prelude.{
  ℕ, ◌≡◌, refl, ap, subst, ◌≢◌, ◌↔◌, ◌⊎◌, true, false, none, some, List, [], ◌∷◌, arith, length,
}
use plum_os.Std.CString.{char_at, IsText}
use plum_os.Kernel.Vfs.{slash, Mount, mount, mount_matches, open_path}
use plum_os.Kernel.Vfs.Longest.{Above, mount_matches_lem}
use plum_os.Kernel.Vfs.Table.{IsMountTable, mount-IsMountTable}
use plum_os.Kernel.Vfs.Open.{Longest, NoneAbove, Leads, open_path_lem}

abbrev top : List ℕ
top = 47 ∷ []

abbrev in_a : List ℕ
in_a = 47 ∷ 97 ∷ []

-- "/a/b"
abbrev file_in_a : List ℕ
file_in_a = 47 ∷ 97 ∷ 47 ∷ 98 ∷ []

abbrev mounts : List (Mount ℕ)
mounts = record { path = top; fs = 1 } ∷ record { path = in_a; fs = 2 } ∷ []

in_a-IsText : IsText in_a
in_a-IsText = (omega arith, (omega arith, tt))

file_in_a-IsText : IsText file_in_a
file_in_a-IsText = (omega arith, (omega arith, (omega arith, (omega arith, tt))))

mounts-IsMountTable : IsMountTable mounts
mounts-IsMountTable = record {
  absolute = ((omega arith, tt), refl, (in_a-IsText, refl, tt));
  distinct = (((λ e. let n = ap length e in absurd (omega arith)), tt), (tt, tt));
}

mount_matches_lem_example : (mount_matches file_in_a in_a ≡ true) ↔ Above in_a file_in_a
mount_matches_lem_example = mount_matches_lem in_a file_in_a in_a-IsText file_in_a-IsText

mount-IsMountTable_example :
    IsMountTable (mount (some file_in_a) (some 3) mounts).1
    × ((mount (some file_in_a) (some 3) mounts).0 ≡ false
        → (mount (some file_in_a) (some 3) mounts).1 ≡ mounts)
mount-IsMountTable_example =
    mount-IsMountTable (some file_in_a) (some 3) mounts
      (λ q e. subst IsText (some-injective _ _ e) file_in_a-IsText) mounts-IsMountTable

open_path_lem_example :
    ((open_path mounts (some file_in_a) ≡ none)
      × ((char_at file_in_a 0 ≢ slash) ⊎ NoneAbove file_in_a mounts))
    ⊎ ((m : Mount ℕ) × (rel : List ℕ) × (open_path mounts (some file_in_a) ≡ some (m.fs, rel))
        × Longest file_in_a mounts m
        × Leads m.path rel file_in_a)
open_path_lem_example = open_path_lem mounts file_in_a mounts-IsMountTable file_in_a-IsText
