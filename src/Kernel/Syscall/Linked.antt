-- ===== src/Kernel/Syscall/Linked.antt =====
-- The open files and the descriptors that lead to them, over one call of `kopen` or `kclose`.
use mathlib.Core.Option
use mathlib.Core.Option.{some-injective}
use plum_os.Prelude.{
  ℕ, ◌≤◌, ◌<◌, ◌≡◌, refl, sym, ap, ◌∙◌, subst, ◌≢◌, ◌⊎◌, inl, inr, false, Option, none, some, List,
  arith, ltb, leb, ◌==◌, ltb→lt, ==_iff, Bool-cases, Option-cases, length, get_or, set, length-set,
  get_or-set_self, get_or-set_ne, get_or-out_of_range,
}
use plum_os.Kernel.Process.{FdEntry, empty_entry, max_fds}
use plum_os.Kernel.Syscall.{OpenFile, Files, put, file_of}
use plum_os.Kernel.Syscall.Table.{FirstFree, given}
use plum_os.Kernel.Syscall.Open.{new_file, put_self}
use plum_os.Kernel.Syscall.Close.{FirstFree-free, file_of-released}

-- The open file that descriptor `fd` leads to.
abbrev pub file_at : List FdEntry → ℕ → Option ℕ
file_at table fd = (get_or table fd empty_entry).file

-- A table of `MAX_FDS` entries. Each descriptor in use leads to an open file with an object and one
-- reference, no two lead to the same one, and there is no open file without a descriptor.
pub record IsLinked {Obj : Type 0} (table : List FdEntry) (files : ℕ → Option (OpenFile Obj))
    : Type 0 where
  pub size : length table ≡ max_fds
  pub held :
      (fd a : ℕ)
      → file_at table fd ≡ some a
      → (o : Obj) × (position flags : ℕ) × (files a
          ≡ some (record { object = some o; position = position; flags = flags; ref_count = 1 }))
  pub once : (fd fd' a : ℕ) → file_at table fd ≡ some a → file_at table fd' ≡ some a → fd ≡ fd'
  pub used : (a : ℕ) (f : OpenFile Obj) → files a ≡ some f → (fd : ℕ) × (file_at table fd ≡ some a)

none-some : {A : Type 0} {x : A} {o : Option A} → o ≡ none → o ≡ some x → ⊥
none-some h e = cc

file_at_self :
    (table : List FdEntry) (fd : ℕ) (e : FdEntry)
    → fd < length table
    → file_at (set table fd e) fd ≡ e.file
file_at_self table fd e lt = ap (λ x. x.file) (get_or-set_self table fd e empty_entry lt)

file_at_ne :
    (table : List FdEntry) (fd i : ℕ) (e : FdEntry)
    → fd ≢ i
    → file_at (set table fd e) i ≡ file_at table i
file_at_ne table fd i e ne = ap (λ x. x.file) (get_or-set_ne table fd i e empty_entry ne)

module _ {Obj : Type 0} where
  put-ne :
      (files : ℕ → Option (OpenFile Obj)) (a x : ℕ) (f : Option (OpenFile Obj))
      → x ≢ a
      → put files a f x ≡ files x
  put-ne files a x f ne = elim (Bool-cases (x == a)) [
    | inl e ↦ absurd (ne ((==_iff x a).0 e))
    | inr e ↦ rw e refl
  ]

  -- A change of the open files that leaves each of them as it was.
  pub IsLinked-same :
      (table table' : List FdEntry) (files files' : ℕ → Option (OpenFile Obj))
      → table' ≡ table
      → ((x : ℕ) → files' x ≡ files x)
      → IsLinked table files
      → IsLinked table' files'
  IsLinked-same table table' files files' same each v =
      subst (λ t. IsLinked t files') (sym same)
        (record {
          size = v.size;
          held = λ fd a h.
              let (o, position, flags, e) = v.held fd a h in (o, position, flags, each a ∙ e);
          once = v.once;
          used = λ a f h. v.used a f (sym (each a) ∙ h);
        })

  -- A new open file at an address that was not in use, at a free descriptor.
  pub IsLinked-opened :
      (table : List FdEntry) (files : ℕ → Option (OpenFile Obj)) (fd a flags : ℕ) (o : Obj)
      → FirstFree table fd
      → files a ≡ none
      → IsLinked table files
      → IsLinked (given table fd a) (put files a (some (new_file flags o)))
  IsLinked-opened table files fd a flags o first fresh v =
      let (inside, free) = FirstFree-free table fd first in
      let here : file_at (given table fd a) fd ≡ some a = file_at_self table fd _ inside in
      let other : (i : ℕ) → fd ≢ i → file_at (given table fd a) i ≡ file_at table i =
        λ i ne. file_at_ne table fd i _ ne in
      -- an old descriptor does not lead to the new file
      let apart : (i b : ℕ) → file_at table i ≡ some b → b ≢ a =
        λ i b h e. let (_, _, _, f) = v.held i b h in none-some fresh (ap files (sym e) ∙ f) in
      let kind : (i b : ℕ)
          → file_at (given table fd a) i ≡ some b
          → ((fd ≡ i) × (b ≡ a)) ⊎ ((fd ≢ i) × (file_at table i ≡ some b)) =
        λ i b h. elim (Bool-cases (fd == i)) [
          | inl e ↦
              let same = (==_iff fd i).0 e in
              inl (
                same,
                some-injective _ _ (sym h ∙ ap (file_at (given table fd a)) (sym same) ∙ here),
              )
          | inr e ↦ let ne : fd ≢ i = λ q. ground arith in inr (ne, sym (other i ne) ∙ h)
        ] in
      record {
        size = length-set table fd _ ∙ v.size;
        held = λ i b h. elim (kind i b h) [
          | inl (_, e) ↦
              (o, 0, flags, ap (put files a (some (new_file flags o))) e ∙ put_self files a _)
          | inr (_, h') ↦
              let (o', position, flags', f) = v.held i b h' in
              (o', position, flags', put-ne files a b _ (apart i b h') ∙ f)
        ];
        once = λ i k b h h'. elim (kind i b h) [
          | inl (e, q) ↦ elim (kind k b h') [
            | inl (e', q') ↦ sym e ∙ e'
            | inr (_, old) ↦ absurd (apart k b old q)
          ]
          | inr (_, old) ↦ elim (kind k b h') [
            | inl (e', q') ↦ absurd (apart i b old q')
            | inr (_, old') ↦ v.once i k b old old'
          ]
        ];
        used = λ b f h. elim (Bool-cases (b == a)) [
          | inl e ↦ (fd, here ∙ ap some (sym ((==_iff b a).0 e)))
          | inr e ↦
              let ne : b ≢ a = λ q. ground arith in
              let (i, old) = v.used b f (sym (put-ne files a b _ ne) ∙ h) in
              (i, other i (λ q. none-some free (ap (file_at table) q ∙ old)) ∙ old)
        ];
      }

  -- An open file and its descriptor are both let go.
  pub IsLinked-closed :
      (table : List FdEntry) (files : ℕ → Option (OpenFile Obj)) (fd a : ℕ)
      → file_at table fd ≡ some a
      → fd < max_fds
      → IsLinked table files
      → IsLinked (set table fd empty_entry) (put files a none)
  IsLinked-closed table files fd a leads small v =
      let inside : fd < length table = omega (arith, v.size) in
      let here : file_at (set table fd empty_entry) fd ≡ none = file_at_self table fd _ inside in
      let other : (i : ℕ) → fd ≢ i → file_at (set table fd empty_entry) i ≡ file_at table i =
        λ i ne. file_at_ne table fd i _ ne in
      let kind : (i b : ℕ)
          → file_at (set table fd empty_entry) i ≡ some b
          → (b ≢ a) × (file_at table i ≡ some b) =
        λ i b h. elim (Bool-cases (fd == i)) [
          | inl e ↦
              let same = (==_iff fd i).0 e in
              absurd (none-some here (ap (file_at (set table fd empty_entry)) same ∙ h))
          | inr e ↦
              let ne : fd ≢ i = λ q. ground arith in
              let old = sym (other i ne) ∙ h in
              (λ q. ne (v.once fd i b (leads ∙ ap some (sym q)) old), old)
        ] in
      record {
        size = length-set table fd _ ∙ v.size;
        held = λ i b h.
            let (ne, old) = kind i b h in
            let (o, position, flags, f) = v.held i b old in
            (o, position, flags, put-ne files a b _ ne ∙ f);
        once = λ i k b h h'. v.once i k b (kind i b h).1 (kind k b h').1;
        used = λ b f h. elim (Bool-cases (b == a)) [
          | inl e ↦
              let same = (==_iff b a).0 e in
              absurd (none-some (ap (put files a none) same ∙ put_self files a _) h)
          | inr e ↦
              let ne : b ≢ a = λ q. ground arith in
              let (i, old) = v.used b f (sym (put-ne files a b _ ne) ∙ h) in
              (
                i,
                other i
                      (λ q. ne (some-injective _ _ (sym old ∙ ap (file_at table) (sym q) ∙ leads)))
                    ∙ old,
              )
        ];
      }

module _ {Obj W : Type 0} where
  -- A descriptor in use is one that the calls accept.
  file_of-held :
      (fd a : ℕ) (s : Files Obj W)
      → IsLinked s.fd_table s.open_files
      → fd < max_fds
      → file_at s.fd_table fd ≡ some a
      → (o : Obj) × (file_of fd s ≡ some (a, o))
  unfolding file_of
  file_of-held fd a s v small leads =
      let (o, position, flags, f) = v.held fd a leads in
      let in_range : leb max_fds fd ≡ false = ground arith in (o, rw (in_range, leads, f) refl)

  -- What a descriptor that the calls accept leads to.
  pub file_of-some :
      (fd a : ℕ) (o : Obj) (s : Files Obj W)
      → IsLinked s.fd_table s.open_files
      → file_of fd s ≡ some (a, o)
      → (fd < max_fds) × (file_at s.fd_table fd ≡ some a)
  file_of-some fd a o s v h = elim (Option-cases (file_at s.fd_table fd)) [
    | inl none_ ↦ absurd (none-some (file_of-released fd s none_) h)
    | inr (b, leads) ↦ elim (Bool-cases (ltb fd max_fds)) [
      | inl lt ↦
          let small = ltb→lt fd max_fds lt in
          let (o', run) = file_of-held fd b s v small leads in
          (small, leads ∙ ap (Option.map (λ r. r.0)) (sym run ∙ h))
      | inr ge ↦ absurd (
          none-some
            (ap (λ x. x.file)
              (get_or-out_of_range s.fd_table fd empty_entry
                (let big : max_fds ≤ fd = ground arith in omega (arith, v.size))))
            leads)
    ]
  ]
