-- ===== src/Std/CString/Compare.antt =====
-- strlen, strcmp and strncmp on texts.
use mathlib.Core.Option
use mathlib.Core.Option.{some-injective}
use plum_os.Prelude.{
  ℕ, zero, suc, ◌+◌, ◌<◌, ◌≡◌, refl, sym, ap, ap₂, ◌∙◌, ◌↔◌, inl, inr, true, some, List, [], ◌∷◌,
  ◌++◌, arith, ◌==◌, if◌then◌else◌, ==_iff, ne→==_false, Bool-cases, length, drop,
}
use plum_os.Std.CString.{
  char_at, IsText, Difference, same, less, more, difference, strcmp_from, strcmp, strncmp_from,
  strncmp, strlen_from, strlen,
}

-- The bytes behind the first.
abbrev rest_of : List ℕ → List ℕ
rest_of [] = []
rest_of (c ∷ s) = s

char_at-suc : (s : List ℕ) (i : ℕ) → char_at s (suc i) ≡ char_at (rest_of s) i
char_at-suc [] i = refl
char_at-suc (c ∷ s) i = refl

one_on : (i : ℕ) → suc i + 1 ≡ suc (i + 1)
one_on i = omega arith

strlen_from-suc :
    (fuel i : ℕ) (s : List ℕ)
    → strlen_from fuel (suc i) s ≡ Option.map suc (strlen_from fuel i (rest_of s))
unfolding strlen_from
strlen_from-suc zero i s = refl
strlen_from-suc (suc fuel) i s =
    rw (char_at-suc s i, one_on i, strlen_from-suc fuel (i + 1) s) (ground arith)

strlen_from_lem :
    (fuel : ℕ) (s : List ℕ) → IsText s → length s < fuel → strlen_from fuel 0 s ≡ some (length s)
unfolding strlen_from
strlen_from_lem zero s t h = absurd (omega arith)
strlen_from_lem (suc fuel) [] t h = refl
strlen_from_lem (suc fuel) (c ∷ s) t h = rw (
  ne→==_false c 0 (omega arith),
  strlen_from-suc fuel 0 (c ∷ s),
  strlen_from_lem fuel s t.1 (omega arith),
)

-- `strlen` of a text ends, and counts its bytes.
pub strlen_lem : (s : List ℕ) → IsText s → strlen s ≡ some (length s)
unfolding strlen
strlen_lem s t = strlen_from_lem (length s + 1) s t (omega arith)

strncmp_from-suc :
    (n i : ℕ) (s t : List ℕ) → strncmp_from n (suc i) s t ≡ strncmp_from n i (rest_of s) (rest_of t)
unfolding strncmp_from
strncmp_from-suc zero i s t = refl
strncmp_from-suc (suc n) i s t =
    rw (char_at-suc s i, char_at-suc t i, one_on i, strncmp_from-suc n (i + 1) s t)

strcmp_from-suc :
    (fuel i : ℕ) (s t : List ℕ)
    → strcmp_from fuel (suc i) s t ≡ strcmp_from fuel i (rest_of s) (rest_of t)
unfolding strcmp_from
strcmp_from-suc zero i s t = refl
strcmp_from-suc (suc fuel) i s t =
    rw (char_at-suc s i, char_at-suc t i, one_on i, strcmp_from-suc fuel (i + 1) s t)

-- One text begins another.
abbrev pub Begins : List ℕ → List ℕ → Type 0
Begins p s = (t : List ℕ) × (s ≡ p ++ t)

strncmp_from_hit :
    (n : ℕ) (s t : List ℕ)
    → (char_at s 0 == char_at t 0) ≡ true
    → 0 < char_at s 0
    → strncmp_from (suc n) 0 s t ≡ strncmp_from n 1 s t
unfolding strncmp_from
strncmp_from_hit n s t e h = rw (e, ne→==_false (char_at s 0) 0 (omega arith))

strncmp_from_lem : (p s : List ℕ) → IsText p → (strncmp_from (length p) 0 s p ≡ true) ↔ Begins p s
unfolding strncmp_from
strncmp_from_lem [] s t = ((λ _. (s, refl)), (λ _. refl))
strncmp_from_lem (d ∷ p) [] t = ((λ h. absurd (ground arith)), (λ b. cc b.1))
strncmp_from_lem (d ∷ p) (c ∷ s) t = elim (Bool-cases (c == d)) [
  | inl e ↦
      let same : c ≡ d = (==_iff c d).0 e in
      let ih = strncmp_from_lem p s t.1 in
      let step =
        strncmp_from_hit (length p) (c ∷ s) (d ∷ p) e (omega arith)
        ∙ strncmp_from-suc (length p) 0 (c ∷ s) (d ∷ p) in
      (
        (λ h. let (x, q) = ih.0 (sym step ∙ h) in (x, ap₂ ◌∷◌ same q)),
        (λ b. step ∙ ih.1 (b.0, ap rest_of b.1)),
      )
  | inr e ↦ (
    (λ h. absurd (ground arith)),
    (λ b. let q : c ≡ d = ap (λ l. char_at l 0) b.1 in absurd (ground arith)),
  )
]

-- `strncmp` over the length of a text `p` tells exactly whether the other string begins with `p`.
pub strncmp_lem : (p s : List ℕ) → IsText p → (strncmp s p (length p) ≡ true) ↔ Begins p s
unfolding strncmp
strncmp_lem p s t = strncmp_from_lem p s t

-- The order that `strcmp` reports: the difference at the first place where the texts differ.
pub order : List ℕ → List ℕ → Difference
order [] [] = same
order [] (d ∷ t) = less d
order (c ∷ s) [] = more c
order (c ∷ s) (d ∷ t) = if c == d then order s t else difference c d

strcmp_from_lem :
    (fuel : ℕ) (s t : List ℕ)
    → IsText s
    → IsText t
    → length s < fuel
    → strcmp_from fuel 0 s t ≡ some (order s t)
unfolding strcmp_from order
strcmp_from_lem zero s t a b h = absurd (omega arith)
strcmp_from_lem (suc fuel) [] [] a b h = refl
strcmp_from_lem (suc fuel) [] (d ∷ t) a b h = ground arith
strcmp_from_lem (suc fuel) (c ∷ s) [] a b h = ground arith
strcmp_from_lem (suc fuel) (c ∷ s) (d ∷ t) a b h =
    rw (strcmp_from-suc fuel 0 (c ∷ s) (d ∷ t), strcmp_from_lem fuel s t a.1 b.1 (omega arith))
      (ground arith)

order_same : (s t : List ℕ) → IsText s → IsText t → order s t ≡ same → s ≡ t
unfolding order
order_same [] [] a b h = refl
order_same [] (d ∷ t) a b h = cc
order_same (c ∷ s) [] a b h = cc
order_same (c ∷ s) (d ∷ t) a b h = elim (Bool-cases (c == d)) [
  | inl e ↦ ap₂ ◌∷◌ ((==_iff c d).0 e) (order_same s t a.1 b.1 (rw e at h))
  | inr e ↦ absurd (ground arith)
]

order_self : (s : List ℕ) → order s s ≡ same
unfolding order
order_self [] = refl
order_self (c ∷ s) = rw ((==_iff c c).1 refl) (order_self s)

-- `strcmp` ends on texts, reports their order, and returns 0 exactly if they are equal.
pub strcmp_lem :
    (s t : List ℕ)
    → IsText s
    → IsText t
    → (strcmp s t ≡ some (order s t)) × ((strcmp s t ≡ some same) ↔ (s ≡ t))
unfolding strcmp
strcmp_lem s t a b =
    let run = strcmp_from_lem (length s + 1) s t a b (omega arith) in
    (
      run,
      (
        (λ h. order_same s t a b (some-injective _ _ (sym run ∙ h))),
        (λ e. run ∙ ap (λ w. some (order s w)) (sym e) ∙ ap some (order_self s)),
      ),
    )

pub IsText-append : (p s : List ℕ) → IsText (p ++ s) → IsText p × IsText s
IsText-append [] s t = (tt, t)
IsText-append (c ∷ p) s t = let (a, b) = IsText-append p s t.1 in ((t.0, a), b)

-- The byte where a text ends, in a text that goes on with `s`.
pub char_at-append : (p s : List ℕ) → char_at (p ++ s) (length p) ≡ char_at s 0
char_at-append [] s = refl
char_at-append (c ∷ p) s = char_at-append p s

pub drop-append : (p s : List ℕ) → drop (length p) (p ++ s) ≡ s
drop-append [] s = refl
drop-append (c ∷ p) s = drop-append p s
