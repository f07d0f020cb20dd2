-- ===== src/Kernel/Vfs/Table.antt =====
-- The mount table over calls of `mount`.
use plum_os.Prelude.{
  ℕ, ◌≡◌, refl, sym, ◌≢◌, ◌↔◌, ◌⊎◌, inl, inr, true, false, Option, none, some, List, [], ◌∷◌, ◌++◌,
  arith, ◌==◌, ==_iff, Bool-cases,
}
use plum_os.Std.CString.{char_at, IsText, strcmp, Difference, same, less, more}
use plum_os.Std.CString.Compare.{strcmp_lem}
use plum_os.Kernel.Vfs.{slash, Mount, is_same, equal_texts, is_mounted, mount}

module _ {FS : Type 0} where
  -- Every mount point is an absolute path.
  abbrev pub IsTable : List (Mount FS) → Type 0
  IsTable [] = Unit {0}
  IsTable (m ∷ ms) = IsText m.path × (char_at m.path 0 ≡ slash) × IsTable ms

  abbrev pub NotAt : List ℕ → List (Mount FS) → Type 0
  NotAt p [] = Unit {0}
  NotAt p (m ∷ ms) = (m.path ≢ p) × NotAt p ms

  -- No two mounts share a mount point.
  abbrev pub IsDistinct : List (Mount FS) → Type 0
  IsDistinct [] = Unit {0}
  IsDistinct (m ∷ ms) = NotAt m.path ms × IsDistinct ms

  abbrev pub Among : Mount FS → List (Mount FS) → Type 0
  Among m [] = ⊥
  Among m (x ∷ ms) = (x ≡ m) ⊎ Among m ms

is_same_lem : (o : Option Difference) → is_same o ≡ true → o ≡ some same
is_same_lem none h = cc
is_same_lem (some same) h = refl
is_same_lem (some (less d)) h = cc
is_same_lem (some (more d)) h = cc

equal_texts_lem : (a b : List ℕ) → IsText a → IsText b → (equal_texts a b ≡ true) ↔ (a ≡ b)
unfolding equal_texts
equal_texts_lem a b ta tb =
    let (run, same_iff) = strcmp_lem a b ta tb in
    ((λ h. same_iff.0 (is_same_lem (strcmp a b) h)), (λ e. rw (same_iff.1 e, equal_texts)))

module _ {FS : Type 0} where
  is_mounted-false :
      (p : List ℕ) (ms : List (Mount FS))
      → IsText p
      → IsTable ms
      → is_mounted p ms ≡ false
      → NotAt p ms
  unfolding is_mounted
  is_mounted-false p [] tp t h = tt
  is_mounted-false p (m ∷ ms) tp t h = elim (Bool-cases (equal_texts m.path p)) [
    | inl e ↦ absurd (ground arith)
    | inr e ↦ (
      (λ q. let e' = (equal_texts_lem m.path p t.0 tp).1 q in cc),
      is_mounted-false p ms tp t.2 (ground arith),
    )
  ]

  NotAt-append :
      (p : List ℕ) (ms : List (Mount FS)) (m : Mount FS)
      → NotAt p ms
      → m.path ≢ p
      → NotAt p (ms ++ m ∷ [])
  NotAt-append p [] m n h = (h, tt)
  NotAt-append p (x ∷ ms) m n h = (n.0, NotAt-append p ms m n.1 h)

  IsTable-append :
      (ms : List (Mount FS)) (m : Mount FS)
      → IsTable ms
      → IsText m.path
      → char_at m.path 0 ≡ slash
      → IsTable (ms ++ m ∷ [])
  IsTable-append [] m t a b = (a, b, tt)
  IsTable-append (x ∷ ms) m t a b = (t.0, t.1, IsTable-append ms m t.2 a b)

  IsDistinct-append :
      (ms : List (Mount FS)) (m : Mount FS)
      → IsDistinct ms
      → NotAt m.path ms
      → IsDistinct (ms ++ m ∷ [])
  IsDistinct-append [] m d n = (tt, tt)
  IsDistinct-append (x ∷ ms) m d n =
      (NotAt-append x.path ms m d.0 (λ e. n.0 (sym e)), IsDistinct-append ms m d.1 n.1)

  -- A table with each mount point once, all of them absolute.
  pub record IsMountTable (ms : List (Mount FS)) : Type 0 where
    pub absolute : IsTable ms
    pub distinct : IsDistinct ms

  -- `mount` at a text, or at a null pointer, keeps every mount point absolute and there only once;
  -- where it returns false it leaves the table as it was.
  pub mount-IsMountTable :
      (p : Option (List ℕ)) (fs : Option FS) (ms : List (Mount FS))
      → ((q : List ℕ) → p ≡ some q → IsText q)
      → IsMountTable ms
      → IsMountTable (mount p fs ms).1 × ((mount p fs ms).0 ≡ false → (mount p fs ms).1 ≡ ms)
  unfolding mount
  mount-IsMountTable none fs ms text v = (v, (λ _. refl))
  mount-IsMountTable (some p) none ms text v = (v, (λ _. refl))
  mount-IsMountTable (some p) (some fs) ms text v = elim (Bool-cases (char_at p 0 == slash)) [
    | inr a ↦ rw a (v, (λ _. refl))
    | inl a ↦ elim (Bool-cases (is_mounted p ms)) [
      | inl b ↦ rw (a, b) (v, (λ _. refl))
      | inr b ↦
          let t = text p refl in
          rw (a, b)
            (
              record {
                absolute = IsTable-append ms _ v.absolute t ((==_iff (char_at p 0) slash).0 a);
                distinct = IsDistinct-append ms _ v.distinct (is_mounted-false p ms t v.absolute b);
              },
              (λ h. cc),
            )
    ]
  ]
