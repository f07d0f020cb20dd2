-- ===== src/Kernel/Syscall/Close.antt =====
-- `kclose` of a descriptor that `kopen` returned.
use plum_os.Prelude.{
  ℕ, zero, suc, ◌<◌, ◌≡◌, refl, sym, ap, ap₂, ◌∙◌, subst, ◌≢◌, inl, inr, true, false, Option, none,
  some, List, [], ◌∷◌, arith, ltb, leb, Bool-cases, length, get_or, set, get_or-set_self,
}
use plum_os.Kernel.Vfs.{Mount}
use plum_os.Kernel.Process.{FdEntry, empty_entry, max_fds}
use plum_os.Kernel.Syscall.{
  minus_one, Objects, Files, release_fd, put, file_of, on_file, release_open_file, kclose, kopen,
  kread, kwrite, klseek, kfstat, kftruncate,
}
use plum_os.Kernel.Syscall.Table.{FirstFree, given}
use plum_os.Kernel.Syscall.Open.{
  new_file, opened, put_self, put_back, release_last, found, after_open, kopen_lem,
}

set-set : {A : Type 0} (xs : List A) (i : ℕ) (v w : A) → set (set xs i v) i w ≡ set xs i w
set-set [] i v w = refl
set-set (x ∷ xs) zero v w = refl
set-set (x ∷ xs) (suc i) v w = ap (◌∷◌ x) (set-set xs i v w)

set-get_or : {A : Type 0} (xs : List A) (i : ℕ) (d : A) → set xs i (get_or xs i d) ≡ xs
set-get_or [] i d = refl
set-get_or (x ∷ xs) zero d = refl
set-get_or (x ∷ xs) (suc i) d = ap (◌∷◌ x) (set-get_or xs i d)

pub FirstFree-free :
    (table : List FdEntry) (fd : ℕ)
    → FirstFree table fd
    → (fd < length table) × ((get_or table fd empty_entry).file ≡ none)
FirstFree-free [] fd h = absurd h
FirstFree-free (e ∷ es) zero h = (omega arith, h)
FirstFree-free (e ∷ es) (suc fd) h = let (lt, r) = FirstFree-free es fd h.1 in (omega arith, r)

-- A table of the size of the array, whose free entries have no flags.
pub record IsFdTable (table : List FdEntry) : Type 0 where
  pub size : length table ≡ max_fds
  pub clean :
      (fd : ℕ) → (get_or table fd empty_entry).file ≡ none → (get_or table fd empty_entry).flags ≡ 0

free_entry : (e : FdEntry) → e.file ≡ none → e.flags ≡ 0 → record { file = none; flags = 0 } ≡ e
free_entry e f g = ap₂ (λ x y. record { file = x; flags = y }) (sym f) (sym g)

module _ {Obj W : Type 0} where
  file_of-opened :
      (flags a fd : ℕ) (o : Obj) (s : Files Obj W)
      → fd < length s.fd_table
      → fd < max_fds
      → file_of fd (opened flags a o fd s) ≡ some (a, o)
  unfolding file_of
  file_of-opened flags a fd o s h k =
      let small : leb max_fds fd ≡ false = ground arith in
      rw
        (
          small,
          get_or-set_self s.fd_table fd _ empty_entry h,
          put_self s.open_files a (some (new_file flags o)),
        )
        refl

  pub file_of-released :
      (fd : ℕ) (s : Files Obj W)
      → (get_or s.fd_table fd empty_entry).file ≡ none
      → file_of fd s ≡ none
  unfolding file_of
  file_of-released fd s h = elim (Bool-cases (leb max_fds fd)) [
    | inl e ↦ rw (e, file_of) refl
    | inr e ↦ rw (e, h, file_of) refl
  ]

module _ {FS Obj W : Type 0} (ops : Objects FS Obj W) where
  on_file-released :
      (fd : ℕ) (s : Files Obj W)
      → file_of fd s ≡ none
      → (call : Obj → W → ℕ × W) → on_file ops fd call s ≡ (minus_one, s)
  unfolding on_file
  on_file-released fd s h call = rw (h, on_file) refl

  -- `kclose` on its two paths.
  pub kclose-some :
      (fd a : ℕ) (o : Obj) (s : Files Obj W)
      → file_of fd s ≡ some (a, o)
      → kclose ops fd s
        ≡ (0, release_open_file ops (some a) (record s { fd_table = (release_fd s.fd_table fd).1 }))
  unfolding kclose
  kclose-some fd a o s e = rw (e, kclose) refl

  pub kclose-none :
      (fd : ℕ) (s : Files Obj W) → file_of fd s ≡ none → kclose ops fd s ≡ (minus_one, s)
  unfolding kclose
  kclose-none fd s e = rw (e, kclose) refl

  -- `kclose` of a descriptor that has just been opened.
  kclose-opened :
      (flags a fd : ℕ) (o : Obj) (s : Files Obj W)
      → IsFdTable s.fd_table
      → FirstFree s.fd_table fd
      → kclose ops fd (opened flags a o fd s) ≡ (
        0,
        record s {
          open_files = put (put s.open_files a (some (new_file flags o))) a none;
          world = ops.close o s.world;
        },
      )
  unfolding release_fd
  kclose-opened flags a fd o s v first =
      let (inside, free) = FirstFree-free s.fd_table fd first in
      let small : fd < max_fds = omega (arith, v.size) in
      let open_now = opened flags a o fd s in
      let in_range : ltb fd max_fds ≡ true = ground arith in
      let back : set (given s.fd_table fd a) fd empty_entry ≡ s.fd_table =
        set-set s.fd_table fd _ empty_entry
        ∙ ap (set s.fd_table fd) (free_entry _ free (v.clean fd free))
        ∙ set-get_or s.fd_table fd empty_entry in
      let table : (release_fd open_now.fd_table fd).1 ≡ s.fd_table = rw in_range back in
      kclose-some fd a o open_now (file_of-opened flags a fd o s inside small)
      ∙ ap (λ z. (0, z))
          (release_last ops a flags o
            (record open_now { fd_table = (release_fd open_now.fd_table fd).1 })
            (put_self s.open_files a _))
      ∙ ap
          (λ t. (
            0,
            record s {
              open_files = put (put s.open_files a (some (new_file flags o))) a none;
              fd_table = t;
              world = ops.close o s.world;
            },
          ))
          table

-- Descriptor `fd` is closed in `s`: every call on it, and closing it again, returns -1 and changes
-- nothing.
pub record IsDead {FS Obj W : Type 0} (ops : Objects FS Obj W) (fd : ℕ) (s : Files Obj W)
    : Type 0 where
  pub reads : (buf n : ℕ) → kread ops fd buf n s ≡ (minus_one, s)
  pub writes : (buf n : ℕ) → kwrite ops fd buf n s ≡ (minus_one, s)
  pub seeks : (offset whence : ℕ) → klseek ops fd offset whence s ≡ (minus_one, s)
  pub stats : (buf : ℕ) → kfstat ops fd buf s ≡ (minus_one, s)
  pub truncates : (size : ℕ) → kftruncate ops fd size s ≡ (minus_one, s)
  pub closes : kclose ops fd s ≡ (minus_one, s)

-- What closing descriptor `fd` leaves of a call that opened `o` in `s`.
pub record Closed {FS Obj W : Type 0} (ops : Objects FS Obj W) (s : Files Obj W) (o : Obj) (fd : ℕ)
    (r : ℕ × Files Obj W) : Type 0 where
  pub result : r.0 ≡ 0
  pub table : r.1.fd_table ≡ s.fd_table
  pub files : (x : ℕ) → r.1.open_files x ≡ s.open_files x
  pub world : r.1.world ≡ ops.close o s.world
  pub dead : IsDead ops fd r.1

module _ {FS Obj W : Type 0} (ops : Objects FS Obj W) where
  IsDead-released : (fd : ℕ) (s : Files Obj W) → file_of fd s ≡ none → IsDead ops fd s
  unfolding kread kwrite klseek kfstat kftruncate
  IsDead-released fd s h = record {
    reads = λ buf n. on_file-released ops fd s h (λ o. ops.read o buf n);
    writes = λ buf n. on_file-released ops fd s h (λ o. ops.write o buf n);
    seeks = λ offset whence. on_file-released ops fd s h (λ o. ops.seek o offset whence);
    stats = λ buf. on_file-released ops fd s h (λ o. ops.stat o buf);
    truncates = λ size. on_file-released ops fd s h (λ o. ops.truncate o size);
    closes = kclose-none ops fd s h;
  }

module _ {FS Obj W : Type 0} (ops : Objects FS Obj W) (mounts : List (Mount FS))
    (path : Option (List ℕ)) (flags : ℕ) (address : Option ℕ) (s : Files Obj W)
    (fresh : (a : ℕ) → address ≡ some a → s.open_files a ≡ none) where
  -- In a table of `MAX_FDS` entries whose free ones have no flags, and with an address of `new` that
  -- is not in use, suppose that `kopen` returned a descriptor. Then `vfs.open` gave an object, and
  -- `kclose` of the descriptor right afterwards returns 0, closes that object, and leaves the table
  -- and the open files as they were before. In the state that it leaves, a read, a write, a seek, a
  -- stat, a truncation and another `kclose` of the descriptor return -1 and change nothing.
  pub kopen-kclose :
      (fd : ℕ) (s' : Files Obj W)
      → IsFdTable s.fd_table
      → kopen ops address mounts path flags s ≡ (fd, s')
      → fd ≢ minus_one
      → (o : Obj) × ((found ops mounts path flags s).0 ≡ some o)
        × Closed ops (after_open ops mounts path flags s) o fd (kclose ops fd s')
  kopen-kclose fd s' v run ne =
      let before = after_open ops mounts path flags s in
      elim (kopen_lem ops mounts path flags address s fresh) [
        | inl (failed, _) ↦ absurd (ne (sym (ap (λ r. r.0) run) ∙ failed.result))
        | inr (o, a, fd', got, new, first, run') ↦
            let same = sym run' ∙ run in
            let (inside, free) = FirstFree-free s.fd_table fd' first in
            let closed : Closed ops before o fd' (kclose ops fd' (opened flags a o fd' before)) =
              subst (Closed ops before o fd') (sym (kclose-opened ops flags a fd' o before v first))
                (record {
                  result = refl;
                  table = refl;
                  files = put_back s.open_files a _ (fresh a new);
                  world = refl;
                  dead = IsDead-released ops fd' _ (file_of-released fd' _ free);
                }) in
            (o, got, subst (λ r. Closed ops before o r.0 (kclose ops r.0 r.1)) same closed)
      ]
