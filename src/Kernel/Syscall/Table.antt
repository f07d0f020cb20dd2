-- ===== src/Kernel/Syscall/Table.antt =====
-- Which descriptor `alloc_fd` takes.
use plum_os.Prelude.{
  ℕ, zero, suc, ◌+◌, ◌≡◌, refl, ap, ◌∙◌, ◌≢◌, ◌⊎◌, inl, inr, none, some, List, [], ◌∷◌, arith,
  Option-cases, get_or, set,
}
use plum_os.Kernel.Process.{FdEntry, empty_entry}
use plum_os.Kernel.Syscall.{alloc_from, alloc_fd}

abbrev pub AllUsed : List FdEntry → Type 0
AllUsed [] = Unit {0}
AllUsed (e ∷ es) = (e.file ≢ none) × AllUsed es

-- Descriptor `fd` is the lowest that is free.
abbrev pub FirstFree : List FdEntry → ℕ → Type 0
FirstFree [] fd = ⊥
FirstFree (e ∷ es) zero = e.file ≡ none
FirstFree (e ∷ es) (suc fd) = (e.file ≢ none) × FirstFree es fd

-- The table with `file` at descriptor `fd`.
abbrev pub given : List FdEntry → ℕ → ℕ → List FdEntry
given table fd file = set table fd (record (get_or table fd empty_entry) { file = some file })

alloc_from-used :
    (n : ℕ) (e : FdEntry) (es : List FdEntry) (file f : ℕ)
    → e.file ≡ some f
    → alloc_from n (e ∷ es) file
      ≡ ((alloc_from (n + 1) es file).0, e ∷ (alloc_from (n + 1) es file).1)
unfolding alloc_from
alloc_from-used n e es file f h =
    ap
      (λ o. elim o [
        | none ↦ (some n, record e { file = some file } ∷ es)
        | some x ↦ ((alloc_from (n + 1) es file).0, e ∷ (alloc_from (n + 1) es file).1)
      ])
      h

alloc_from_lem :
    (n : ℕ) (table : List FdEntry) (file : ℕ)
    → ((alloc_from n table file ≡ (none, table)) × AllUsed table)
      ⊎ ((fd : ℕ) × (alloc_from n table file ≡ (some (n + fd), given table fd file))
          × FirstFree table fd)
unfolding alloc_from
alloc_from_lem n [] file = inl (refl, tt)
alloc_from_lem n (e ∷ es) file = elim (Option-cases e.file) [
  | inl free ↦
      let here : n ≡ n + 0 = omega arith in
      inr (0, rw free (ap (λ k. (some k, record e { file = some file } ∷ es)) here), free)
  | inr (f, used) ↦
      let taken : e.file ≢ none = λ h. cc in
      elim (alloc_from_lem (n + 1) es file) [
        | inl (run, all) ↦
            inl (alloc_from-used n e es file f used ∙ ap (λ r. (r.0, e ∷ r.1)) run, (taken, all))
        | inr (fd, run, first) ↦
            let on : n + 1 + fd ≡ n + suc fd = omega arith in
            inr (
              suc fd,
              alloc_from-used n e es file f used
                  ∙ ap (λ r. (r.0, e ∷ r.1)) run
                  ∙ ap (λ k. (some k, e ∷ given es fd file)) on,
              (taken, first),
            )
      ]
]

-- `alloc_fd` of an open file either fails, changes nothing, and every entry is in use; or it
-- returns the lowest descriptor that is free, and only that entry gets the file.
pub alloc_fd_lem :
    (table : List FdEntry) (file : ℕ)
    → ((alloc_fd table (some file) ≡ (none, table)) × AllUsed table)
      ⊎ ((fd : ℕ) × (alloc_fd table (some file) ≡ (some fd, given table fd file))
          × FirstFree table fd)
unfolding alloc_fd
alloc_fd_lem table file = elim (alloc_from_lem 0 table file) [
  | inl r ↦ inl r
  | inr (fd, run, first) ↦
      let at : 0 + fd ≡ fd = omega arith in
      inr (fd, run ∙ ap (λ k. (some k, given table fd file)) at, first)
]
