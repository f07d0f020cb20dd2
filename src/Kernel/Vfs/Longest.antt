-- ===== src/Kernel/Vfs/Longest.antt =====
-- `open` serves a path by the longest mount point above it.
use plum_os.Prelude.{
  ℕ, ◌≡◌, refl, sym, ap, ◌∙◌, subst, ◌↔◌, ◌⊎◌, inl, inr, Bool, true, false, ◌&&◌, List, [], ◌∷◌,
  ◌++◌, append-nil, arith, ◌==◌, if◌then◌else◌, Bool-cases, length,
}
use plum_os.Std.CString.{char_at, IsText, strncmp}
use plum_os.Std.CString.Compare.{Begins, strlen_lem, strncmp_lem, IsText-append, char_at-append}
use plum_os.Kernel.Vfs.{slash, len_of, mount_matches}

-- The mount point `p` stands above `path`: it is the root, or the path itself, or a directory on
-- the way to it.
abbrev pub Above : List ℕ → List ℕ → Type 0
Above p path =
    ((p ≡ slash ∷ []) × Begins (slash ∷ []) path)
    ⊎ (path ≡ p)
    ⊎ ((t : List ℕ) × (path ≡ p ++ slash ∷ t))

pub len_of-text : (s : List ℕ) → IsText s → len_of s ≡ length s
unfolding len_of
len_of-text s t = rw (strlen_lem s t, len_of)

pub is_root : (p : List ℕ) → (length p == 1 && char_at p 0 == slash) ≡ true → p ≡ slash ∷ []
is_root [] h = cc
is_root (c ∷ []) h = ap (λ k. k ∷ []) (ground arith)
is_root (c ∷ d ∷ p) h = absurd (ground arith)

-- What follows a mount point in a path that it matches.
rest_cases :
    (t : List ℕ)
    → IsText t
    → (if char_at t 0 == 0 then true else char_at t 0 == slash) ≡ true
    → (t ≡ []) ⊎ ((u : List ℕ) × (t ≡ slash ∷ u))
rest_cases [] a h = inl refl
rest_cases (c ∷ t) a h = inr (t, ap (λ k. k ∷ t) (ground arith))

module _ (p path : List ℕ) (tp : IsText p) where
  abbrev root : Bool
  root = length p == 1 && char_at p 0 == slash

  module _ (e : mount_matches path p ≡ true) where
    matches-Begins : Begins p path
    unfolding mount_matches
    matches-Begins = elim (Bool-cases (strncmp path p (length p))) [
      | inl h ↦ (strncmp_lem p path tp).0 h
      | inr h ↦ absurd (let e' = rw (len_of-text p tp, h) at e in cc)
    ]

  mount_matches_rest :
      Begins p path
      → root ≡ false
      → mount_matches path p
        ≡ (if char_at path (length p) == 0 then true else char_at path (length p) == slash)
  unfolding mount_matches
  mount_matches_rest b r = rw (len_of-text p tp, (strncmp_lem p path tp).1 b, r)

  matches-Above : IsText path → mount_matches path p ≡ true → Above p path
  matches-Above tq h =
      let (t, e) = matches-Begins h in
      elim (Bool-cases root) [
        | inl r ↦ inl (is_root p r, (t, e ∙ ap (λ k. k ++ t) (is_root p r)))
        | inr r ↦
            let next : char_at path (length p) ≡ char_at t 0 =
              ap (λ k. char_at k (length p)) e ∙ char_at-append p t in
            elim (rest_cases t (IsText-append p t (subst IsText e tq)).1 (
              ap (λ k. if k == 0 then true else k == slash) (sym next)
              ∙ sym (mount_matches_rest (t, e) r)
              ∙ h)) [
                | inl n ↦ inr (inl (e ∙ ap (λ k. p ++ k) n ∙ append-nil p))
                | inr (u, n) ↦ inr (inr (u, e ∙ ap (λ k. p ++ k) n))
              ]
      ]

  mount_matches-root :
      Begins p path → root ≡ true → mount_matches path p ≡ (char_at path 0 == slash)
  unfolding mount_matches
  mount_matches-root b r = rw (len_of-text p tp, (strncmp_lem p path tp).1 b, r)

  Begins-matches :
      (t : List ℕ)
      → path ≡ p ++ t
      → (char_at t 0 ≡ 0) ⊎ (char_at t 0 ≡ slash)
      → mount_matches path p ≡ true
  Begins-matches t e n =
      let next : char_at path (length p) ≡ char_at t 0 =
        ap (λ k. char_at k (length p)) e ∙ char_at-append p t in
      elim (Bool-cases root) [
        | inl r ↦
            mount_matches-root (t, e) r
            ∙ ap (λ k. char_at k 0 == slash) (e ∙ ap (λ k. k ++ t) (is_root p r))
        | inr r ↦
            mount_matches_rest (t, e) r
            ∙ ap (λ k. if k == 0 then true else k == slash) next
            ∙ elim n [ inl z ↦ rw z | inr z ↦ rw z ]
      ]

  Above-matches : Above p path → mount_matches path p ≡ true
  Above-matches (inl (r, b)) =
      let root_of : root ≡ true = ap (λ k. length k == 1 && char_at k 0 == slash) r in
      mount_matches-root (subst (λ k. Begins k path) (sym r) b) root_of
      ∙ ap (λ k. char_at k 0 == slash) b.1
  Above-matches (inr (inl e)) = Begins-matches [] (e ∙ sym (append-nil p)) (inl refl)
  Above-matches (inr (inr (t, e))) = Begins-matches (slash ∷ t) e (inr refl)

-- For texts, `mount_matches` accepts exactly the paths that the mount point stands above: for the
-- root the absolute paths, and for another one itself and what goes on behind it with a slash.
pub mount_matches_lem :
    (p path : List ℕ) → IsText p → IsText path → (mount_matches path p ≡ true) ↔ Above p path
mount_matches_lem p path tp tq = (matches-Above p path tp tq, Above-matches p path tp)
