-- ===== src/Kernel/Syscall/Tests.antt =====
-- Runs with one mount, whose file system opens every path as object 5. The state of the drivers is
-- the list of the objects that were closed.
use plum_os.Prelude.{
  ℕ, zero, suc, ◌≡◌, refl, sym, ap, ◌∙◌, ◌⊎◌, inl, inr, Option, none, some, List, [], ◌∷◌, arith,
  Option-cases, get_or, replicate,
}
use plum_os.Kernel.Vfs.{Mount, open_path, best_mount, mount_matches, len_of, relative_path}
use plum_os.Std.CString.{strlen, strlen_from, strncmp, strncmp_from}
use plum_os.Kernel.Process.{empty_entry, max_fds}
use plum_os.Kernel.Syscall.{
  OpenFile, Objects, Files, alloc_fd, alloc_from, kclose, vfs_open, install, describe,
  create_open_file, kopen_object, kopen,
}
use plum_os.Kernel.Syscall.Table.{AllUsed, FirstFree}
use plum_os.Kernel.Syscall.Open.{Failed, opened, found, after_open, kopen_lem}
use plum_os.Kernel.Syscall.Keep.{FdCall, opens, closes, run_calls, run_calls-IsLinked}
use plum_os.Kernel.Syscall.Linked.{file_at, IsLinked}
use mathlib.Core.Option.{some-injective}
use plum_os.Kernel.Syscall.Close.{IsFdTable, Closed, kopen-kclose}

abbrev drivers : Objects ℕ ℕ (List ℕ)
drivers = record {
  open_file = λ fs rel flags w. (some 5, w);
  read = λ o buf size w. (0, w);
  write = λ o buf size w. (size, w);
  seek = λ o offset whence w. (offset, w);
  stat = λ o buf w. (0, w);
  truncate = λ o size w. (0, w);
  close = λ o w. o ∷ w;
}

abbrev mounts : List (Mount ℕ)
mounts = record { path = 47 ∷ []; fs = 1 } ∷ []

-- "/a"
abbrev file_a : Option (List ℕ)
file_a = some (47 ∷ 97 ∷ [])

-- What `new` returns.
abbrev address : Option ℕ
address = some 800

abbrev nothing_open : Files ℕ (List ℕ)
nothing_open = record {
  open_files = λ a. none;
  fd_table = replicate max_fds empty_entry;
  world = [];
}

all_clean : (n fd : ℕ) → (get_or (replicate n empty_entry) fd empty_entry).flags ≡ 0
all_clean zero fd = refl
all_clean (suc n) zero = refl
all_clean (suc n) (suc fd) = all_clean n fd

nothing_open-IsFdTable : IsFdTable nothing_open.fd_table
nothing_open-IsFdTable = record { size = refl; clean = λ fd h. all_clean 64 fd }

-- `kopen("/a", 0)` with a new open file at address 800.
abbrev once_open : Files ℕ (List ℕ)
once_open = opened 0 800 5 0 nothing_open

kopen_a : kopen drivers address mounts file_a 0 nothing_open ≡ (0, once_open)
unfolding kopen kopen_object describe install create_open_file alloc_fd alloc_from vfs_open
    open_path best_mount mount_matches len_of relative_path strlen strlen_from strncmp strncmp_from
kopen_a = refl

kopen_lem_example :
    (Failed drivers
        (after_open drivers mounts file_a 0 nothing_open)
        (found drivers mounts file_a 0 nothing_open).0
        (kopen drivers address mounts file_a 0 nothing_open)
      × (((found drivers mounts file_a 0 nothing_open).0 ≡ none)
          ⊎ (address ≡ none)
          ⊎ AllUsed nothing_open.fd_table))
    ⊎ ((o : ℕ) × (a fd : ℕ) × ((found drivers mounts file_a 0 nothing_open).0 ≡ some o)
        × (address ≡ some a)
        × FirstFree nothing_open.fd_table fd
        × (kopen drivers address mounts file_a 0 nothing_open
            ≡ (fd, opened 0 a o fd (after_open drivers mounts file_a 0 nothing_open))))
kopen_lem_example = kopen_lem drivers mounts file_a 0 address nothing_open (λ a e. refl)

kopen-kclose_example :
    (o : ℕ) × ((found drivers mounts file_a 0 nothing_open).0 ≡ some o)
    × Closed drivers
        (after_open drivers mounts file_a 0 nothing_open)
        o
        0
        (kclose drivers 0 once_open)
kopen-kclose_example =
    kopen-kclose drivers mounts file_a 0 address nothing_open (λ a e. refl) 0 once_open
      nothing_open-IsFdTable kopen_a (omega arith)

all_free : (n fd : ℕ) → file_at (replicate n empty_entry) fd ≡ none
all_free zero fd = refl
all_free (suc n) zero = refl
all_free (suc n) (suc fd) = all_free n fd

none-some : {A : Type 0} {x : A} {o : Option A} → o ≡ none → o ≡ some x → ⊥
none-some h e = cc

nothing_open-IsLinked : IsLinked nothing_open.fd_table nothing_open.open_files
nothing_open-IsLinked = record {
  size = refl;
  held = λ fd a h. absurd (none-some (all_free 64 fd) h);
  once = λ fd fd' a h h'. absurd (none-some (all_free 64 fd) h);
  used = λ a f h. absurd (none-some refl h);
}

-- A heap with room for two open files.
abbrev new_of : (ℕ → Option (OpenFile ℕ)) → Option ℕ
new_of files = elim (files 800) [
  | none ↦ some 800
  | some f ↦ elim (files 900) [ none ↦ some 900 | some g ↦ none ]
]

new_of-fresh : (files : ℕ → Option (OpenFile ℕ)) (a : ℕ) → new_of files ≡ some a → files a ≡ none
new_of-fresh files a h = elim (Option-cases (files 800)) [
  | inl e ↦ let at : a ≡ 800 = some-injective _ _ (sym h ∙ rw (e, new_of) refl) in ap files at ∙ e
  | inr (f, e) ↦ elim (Option-cases (files 900)) [
    | inl e' ↦
        let at : a ≡ 900 = some-injective _ _ (sym h ∙ rw (e, e', new_of) refl) in ap files at ∙ e'
    | inr (g, e') ↦
        let full : new_of files ≡ none = rw (e, e', new_of) refl in absurd (none-some full h)
  ]
]

-- The third call finds no memory.
abbrev some_calls : List FdCall
some_calls =
    opens file_a 0 ∷ opens file_a 0 ∷ opens file_a 0 ∷ closes 0 ∷ closes 7 ∷ opens file_a 0 ∷ []

run_calls-IsLinked_example :
    IsLinked
      (run_calls drivers mounts new_of some_calls nothing_open).fd_table
      (run_calls drivers mounts new_of some_calls nothing_open).open_files
run_calls-IsLinked_example =
    run_calls-IsLinked drivers mounts new_of new_of-fresh some_calls nothing_open
      nothing_open-IsLinked
