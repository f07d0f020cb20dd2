-- ===== src/Kernel/Syscall/Keep.antt =====
-- The descriptor table and the open files of one thread over calls of `kopen` and `kclose`.
use plum_os.Prelude.{
  ℕ, ◌≡◌, refl, sym, ap, ◌∙◌, subst, inl, inr, true, Option, none, some, List, [], ◌∷◌, arith, ltb,
  Option-cases, set,
}
use plum_os.Kernel.Vfs.{Mount}
use plum_os.Kernel.Process.{max_fds, empty_entry}
use plum_os.Kernel.Syscall.{
  OpenFile, Objects, Files, put, file_of, release_fd, release_open_file, kclose, kopen,
}
use plum_os.Kernel.Syscall.Open.{kopen_lem}
use plum_os.Kernel.Syscall.Close.{kclose-some, kclose-none}
use plum_os.Kernel.Syscall.Linked.{
  IsLinked, IsLinked-same, IsLinked-opened, IsLinked-closed, file_of-some,
}

-- A call of `kopen`, with the path and the flags, or of `kclose`.
pub data FdCall : Type 0 where
  opens : Option (List ℕ) → ℕ → FdCall
  closes : ℕ → FdCall

module _ {FS Obj W : Type 0} (ops : Objects FS Obj W) where
  abbrev pub Linked : Files Obj W → Type 0
  Linked s = IsLinked s.fd_table s.open_files

  release-held :
      (a position flags : ℕ) (o : Obj) (s : Files Obj W)
      → s.open_files a
        ≡ some (record { object = some o; position = position; flags = flags; ref_count = 1 })
      → ((release_open_file ops (some a) s).fd_table ≡ s.fd_table)
        × ((release_open_file ops (some a) s).open_files ≡ put s.open_files a none)
  unfolding release_open_file
  release-held a position flags o s e =
      (rw (e, release_open_file) refl, rw (e, release_open_file) refl)

  kclose-Linked : (fd : ℕ) (s : Files Obj W) → Linked s → Linked (kclose ops fd s).1
  unfolding release_fd
  kclose-Linked fd s v = elim (Option-cases (file_of fd s)) [
    | inl e ↦ subst (λ r. Linked r.1) (sym (kclose-none ops fd s e)) v
    | inr ((a, o), e) ↦
        let (small, leads) = file_of-some fd a o s v e in
        let (o', position, flags, f) = v.held fd a leads in
        let in_range : ltb fd max_fds ≡ true = ground arith in
        let freed : Files Obj W = record s { fd_table = (release_fd s.fd_table fd).1 } in
        let (table, files) = release-held a position flags o' freed f in
        let table' : freed.fd_table ≡ set s.fd_table fd empty_entry = rw in_range refl in
        subst (λ r. Linked r.1) (sym (kclose-some ops fd a o s e))
          (IsLinked-same _ _ _ _ (table ∙ table') (λ x. ap (λ g. g x) files)
            (IsLinked-closed s.fd_table s.open_files fd a leads small v))
  ]

module _ {FS Obj W : Type 0} (ops : Objects FS Obj W) (mounts : List (Mount FS))
    (new : (ℕ → Option (OpenFile Obj)) → Option ℕ) where
  -- The state after some calls, in order. `new` is what the heap does, by the open files.
  unfoldable pub run_calls : List FdCall → Files Obj W → Files Obj W
  run_calls [] s = s
  run_calls (opens path flags ∷ calls) s =
      run_calls calls (kopen ops (new s.open_files) mounts path flags s).1
  run_calls (closes fd ∷ calls) s = run_calls calls (kclose ops fd s).1

  module _
      (fresh : (files : ℕ → Option (OpenFile Obj)) (a : ℕ)
        → new files ≡ some a
        → files a ≡ none) where
    kopen-Linked :
        (path : Option (List ℕ)) (flags : ℕ) (s : Files Obj W)
        → Linked ops s
        → Linked ops (kopen ops (new s.open_files) mounts path flags s).1
    kopen-Linked path flags s v =
        elim (kopen_lem ops mounts path flags (new s.open_files) s (fresh s.open_files)) [
          | inl (failed, _) ↦ IsLinked-same _ _ _ _ failed.table failed.files v
          | inr (o, a, fd, _, at, first, run) ↦
              subst (λ r. Linked ops r.1) (sym run)
                (IsLinked-opened s.fd_table s.open_files fd a flags o first
                  (fresh s.open_files a at) v)
        ]

    -- Suppose that `new` never gives the address of an open file. If in a table of `MAX_FDS` entries
    -- each descriptor in use leads to an open file with an object and one reference, no two of them
    -- lead to the same one, and there is no open file that no descriptor leads to, then this is so
    -- after any sequence of calls of `kopen` and `kclose`, whether they fail or not: no entry in use
    -- is overwritten, and no open file is lost or released too early.
    pub run_calls-IsLinked :
        (calls : List FdCall) (s : Files Obj W)
        → IsLinked s.fd_table s.open_files
        → IsLinked (run_calls calls s).fd_table (run_calls calls s).open_files
    unfolding run_calls
    run_calls-IsLinked [] s v = v
    run_calls-IsLinked (opens path flags ∷ calls) s v =
        run_calls-IsLinked calls _ (kopen-Linked path flags s v)
    run_calls-IsLinked (closes fd ∷ calls) s v =
        run_calls-IsLinked calls _ (kclose-Linked ops fd s v)
