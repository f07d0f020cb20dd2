-- ===== src/Kernel/Vfs/Open.antt =====
-- Which mount `open` picks, and the path that it hands to that file system.
use plum_os.Prelude.{
  ℕ, suc, ◌+◌, ◌≤◌, ◌≡◌, refl, sym, ap, ap₂, ◌∙◌, ◌≢◌, ◌⊎◌, inl, inr, Bool, true, false, ◌&&◌,
  Option, none, some, List, [], ◌∷◌, ◌++◌, append-nil, arith, ltb, ◌==◌, if◌then◌else◌, ltb→lt,
  Bool-cases, length, drop, get_or-out_of_range,
}
use plum_os.Std.CString.{char_at, IsText}
use plum_os.Std.CString.Compare.{Begins, char_at-append, drop-append}
use plum_os.Kernel.Vfs.{slash, Mount, len_of, mount_matches, best_mount, relative_path, open_path}
use plum_os.Kernel.Vfs.Longest.{Above, len_of-text, mount_matches_lem, is_root}
use plum_os.Kernel.Vfs.Table.{IsTable, IsMountTable, Among}

-- `rel` leads from the mount point `p` to `path`.
abbrev pub Leads : List ℕ → List ℕ → List ℕ → Type 0
Leads p rel path =
    ((p ≡ slash ∷ []) × (path ≡ slash ∷ rel))
    ⊎ ((path ≡ p) × (rel ≡ []))
    ⊎ (path ≡ p ++ slash ∷ rel)

drop_behind : (p t : List ℕ) (c : ℕ) → drop (suc (length p)) (p ++ c ∷ t) ≡ t
drop_behind [] t c = refl
drop_behind (d ∷ p) t c = drop_behind p t c

module _ (p path : List ℕ) where
  abbrev root : Bool
  root = length p == 1 && char_at p 0 == slash

  relative_root : root ≡ true → relative_path path p (length p) ≡ drop 1 path
  unfolding relative_path
  relative_root r = rw r

  relative_below :
      (t : List ℕ) → root ≡ false → path ≡ p ++ slash ∷ t → relative_path path p (length p) ≡ t
  unfolding relative_path
  relative_below t r e =
      let next : char_at path (length p) ≡ slash =
        ap (λ k. char_at k (length p)) e ∙ char_at-append p (slash ∷ t) in
      let behind : length p + 1 ≡ suc (length p) = omega arith in
      rw (r, next) (ap₂ drop behind e ∙ drop_behind p t slash)

  relative_end : root ≡ false → path ≡ p → relative_path path p (length p) ≡ []
  unfolding relative_path
  relative_end r e =
      let next : char_at path (length p) ≡ 0 =
        ap (λ k. char_at k (length p)) e ∙ get_or-out_of_range p (length p) 0 (omega arith) in
      rw (r, next) (ap (drop (length p)) (e ∙ sym (append-nil p)) ∙ drop-append p [])

  Begins-of_Above : Above p path → root ≡ true → Begins (slash ∷ []) path
  Begins-of_Above (inl a) r = a.1
  Begins-of_Above (inr (inl e)) r = ([], e ∙ is_root p r)
  Begins-of_Above (inr (inr (t, e))) r = (slash ∷ t, e ∙ ap (λ k. k ++ slash ∷ t) (is_root p r))

  relative_lem : Above p path → Leads p (relative_path path p (length p)) path
  relative_lem a = elim (Bool-cases root) [
    | inl r ↦
        let (t, e) = Begins-of_Above a r in
        inl (is_root p r, e ∙ ap (λ k. slash ∷ k) (sym (relative_root r ∙ ap (drop 1) e)))
    | inr r ↦ elim a [
      | inl (q, b) ↦ let r' = ap (λ k. length k == 1 && char_at k 0 == slash) q in cc
      | inr (inl e) ↦ inr (inl (e, relative_end r e))
      | inr (inr (t, e)) ↦ inr (inr (e ∙ ap (λ k. p ++ slash ∷ k) (sym (relative_below t r e))))
    ]
  ]

module _ {FS : Type 0} where
  -- No mount of the list that matches the path has a mount point longer than `n`.
  abbrev pub Bounded : List ℕ → ℕ → List (Mount FS) → Type 0
  Bounded path n [] = Unit {0}
  Bounded path n (m ∷ ms) = (Above m.path path → length m.path ≤ n) × Bounded path n ms

  abbrev pub NoneAbove : List ℕ → List (Mount FS) → Type 0
  NoneAbove path [] = Unit {0}
  NoneAbove path (m ∷ ms) = ¬ Above m.path path × NoneAbove path ms

  Bounded-mono :
      (path : List ℕ) (n k : ℕ) (ms : List (Mount FS))
      → n ≤ k
      → Bounded path n ms
      → Bounded path k ms
  Bounded-mono path n k [] h b = tt
  Bounded-mono path n k (m ∷ ms) h b = ((λ a. omega (arith, b.0 a)), Bounded-mono path n k ms h b.1)

  -- A mount of the list that stands above the path, with the longest mount point of those that do.
  pub record Longest (path : List ℕ) (ms : List (Mount FS)) (m : Mount FS) : Type 0 where
    pub among : Among m ms
    pub above : Above m.path path
    pub bound : Bounded path (length m.path) ms

  step_hit :
      (path : List ℕ) (m : Mount FS) (ms : List (Mount FS)) (best : Option (Mount FS × ℕ))
      → mount_matches path m.path ≡ true
      → best_mount path best (m ∷ ms)
        ≡ best_mount path
            (elim best [
              | none ↦ some (m, len_of m.path)
              | some b ↦ if ltb b.1 (len_of m.path) then some (m, len_of m.path) else some b
            ])
            ms
  unfolding best_mount
  step_hit path m ms best e = rw e

  step_miss :
      (path : List ℕ) (m : Mount FS) (ms : List (Mount FS)) (best : Option (Mount FS × ℕ))
      → mount_matches path m.path ≡ false
      → best_mount path best (m ∷ ms) ≡ best_mount path best ms
  unfolding best_mount
  step_miss path m ms best e = rw e

  module _ (path : List ℕ) (tp : IsText path) where
    -- From a mount chosen before, the loop ends with that one or a longer one of the list.
    best_from_some :
        (ms : List (Mount FS)) (b : Mount FS)
        → IsTable ms
        → IsText b.path
        → Above b.path path
        → (m : Mount FS) × (best_mount path (some (b, length b.path)) ms ≡ some (m, length m.path))
          × ((b ≡ m) ⊎ Among m ms)
          × IsText m.path
          × Above m.path path
          × (length b.path ≤ length m.path)
          × Bounded path (length m.path) ms
    best_from_some [] b t tb a = (b, unfold best_mount in refl, inl refl, tb, a, omega arith, tt)
    best_from_some (x ∷ ms) b t tb a = elim (Bool-cases (mount_matches path x.path)) [
      | inr e ↦
          let (m, run, from, tm, above, le, bound) = best_from_some ms b t.2 tb a in
          (
            m,
            step_miss path x ms _ e ∙ run,
            elim from [ inl q ↦ inl q | inr q ↦ inr (inr q) ],
            tm,
            above,
            le,
            ((λ w. let e' = (mount_matches_lem x.path path t.0 tp).1 w in cc), bound),
          )
      | inl e ↦ elim (Bool-cases (ltb (length b.path) (length x.path))) [
        | inl l ↦
            let (m, run, from, tm, above, le, bound) =
              best_from_some ms x t.2 t.0 ((mount_matches_lem x.path path t.0 tp).0 e) in
            (
              m,
              step_hit path x ms _ e ∙ rw (len_of-text x.path t.0, l) run,
              elim from [ inl q ↦ inr (inl q) | inr q ↦ inr (inr q) ],
              tm,
              above,
              omega (arith, ltb→lt (length b.path) (length x.path) l),
              ((λ w. le), bound),
            )
        | inr l ↦
            let (m, run, from, tm, above, le, bound) = best_from_some ms b t.2 tb a in
            let le' : length x.path ≤ length b.path = ground arith in
            (
              m,
              step_hit path x ms _ e ∙ rw (len_of-text x.path t.0, l) run,
              elim from [ inl q ↦ inl q | inr q ↦ inr (inr q) ],
              tm,
              above,
              le,
              ((λ w. omega arith), bound),
            )
      ]
    ]

    best_from_none :
        (ms : List (Mount FS))
        → IsTable ms
        → ((best_mount path none ms ≡ none) × NoneAbove path ms)
          ⊎ ((m : Mount FS) × (best_mount path none ms ≡ some (m, length m.path))
              × IsText m.path
              × Longest path ms m)
    best_from_none [] t = inl (unfold best_mount in refl, tt)
    best_from_none (x ∷ ms) t = elim (Bool-cases (mount_matches path x.path)) [
      | inr e ↦
          let no_match : ¬ Above x.path path =
            λ w. let e' = (mount_matches_lem x.path path t.0 tp).1 w in cc in
          elim (best_from_none ms t.2) [
            | inl (run, n) ↦ inl (step_miss path x ms _ e ∙ run, (no_match, n))
            | inr (m, run, tm, l) ↦ inr (
              m,
              step_miss path x ms _ e ∙ run,
              tm,
              record {
                among = inr l.among;
                above = l.above;
                bound = ((λ w. absurd (no_match w)), l.bound);
              },
            )
          ]
      | inl e ↦
          let (m, run, from, tm, above, le, bound) =
            best_from_some ms x t.2 t.0 ((mount_matches_lem x.path path t.0 tp).0 e) in
          inr (
            m,
            step_hit path x ms _ e ∙ rw (len_of-text x.path t.0) run,
            tm,
            record { among = from; above = above; bound = ((λ w. le), bound) },
          )
    ]

  -- In a table with each mount point once, all of them absolute, `open` of a text gives nullptr, and
  -- the path is relative or under no mount point; or it hands the path from there to the file
  -- system of a mount that stands above the path, of these one with the longest mount point.
  pub open_path_lem :
      (ms : List (Mount FS)) (path : List ℕ)
      → IsMountTable ms
      → IsText path
      → ((open_path ms (some path) ≡ none) × ((char_at path 0 ≢ slash) ⊎ NoneAbove path ms))
        ⊎ ((m : Mount FS) × (rel : List ℕ) × (open_path ms (some path) ≡ some (m.fs, rel))
            × Longest path ms m
            × Leads m.path rel path)
  open_path_lem ms path v tp = elim (Bool-cases (char_at path 0 == slash)) [
    | inr a ↦ inl (unfold open_path in rw a, inl (ground arith))
    | inl a ↦ elim (best_from_none path tp ms v.absolute) [
      | inl (run, n) ↦ inl (unfold open_path in rw (a, run), inr n)
      | inr (m, run, tm, l) ↦ inr (
        m,
        relative_path path m.path (length m.path),
        unfold open_path in rw (a, run),
        l,
        relative_lem m.path path l.above,
      )
    ]
  ]
