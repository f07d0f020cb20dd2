-- ===== src/Std/Memory/Move.antt =====
-- What memmove, memset and memcmp do, byte by byte.
use plum_os.Prelude.{
  ℕ, zero, suc, ◌+◌, ◌≤◌, ◌<◌, ◌≡◌, refl, ap, ◌∙◌, subst, ◌≢◌, ◌↔◌, ◌⊎◌, inl, inr, true, arith, ltb,
  ◌==◌, ltb→lt, ==_iff, ne→==_false, Bool-cases,
}
use plum_os.Std.Memory.{
  Bytes, store, move_up, move_down, memmove, fill_from, memset, equal_from, memcmp,
}

store_hit : (m : Bytes) (a v x : ℕ) → x ≡ a → store m a v x ≡ v
store_hit m a v x e = rw ((==_iff x a).1 e) refl

store_miss : (m : Bytes) (a v x : ℕ) → x ≢ a → store m a v x ≡ m x
store_miss m a v x h = rw (ne→==_false x a h) refl

pub move_up_out :
    (n i d s : ℕ) (m : Bytes) (x : ℕ) → (x < d + i) ⊎ (d + i + n ≤ x) → move_up n i d s m x ≡ m x
unfolding move_up
move_up_out zero i d s m x h = refl
move_up_out (suc n) i d s m x h =
    move_up_out n (i + 1) d s _ x (ground arith) ∙ store_miss m (d + i) _ x (ground arith)

pub move_up_in :
    (n i d s : ℕ) (m : Bytes) (k : ℕ)
    → (d < s) ⊎ (s + i + n ≤ d)
    → i ≤ k
    → k < i + n
    → move_up n i d s m (d + k) ≡ m (s + k)
unfolding move_up
move_up_in zero i d s m k lt lo hi = absurd (omega arith)
move_up_in (suc n) i d s m k lt lo hi = elim (Bool-cases (i == k)) [
  | inl e ↦
      let same : i ≡ k = (==_iff i k).0 e in
      let at : d + k ≡ d + i = omega arith in
      move_up_out n (i + 1) d s _ (d + k) (inl (omega arith))
      ∙ store_hit m (d + i) _ (d + k) at
      ∙ ap (λ z. m (s + z)) same
  | inr e ↦
      move_up_in n (i + 1) d s _ k (ground arith) (ground arith) (omega arith)
      ∙ store_miss m (d + i) _ (s + k) (ground arith)
]

move_down_out : (n d s : ℕ) (m : Bytes) (x : ℕ) → (x < d) ⊎ (d + n ≤ x) → move_down n d s m x ≡ m x
unfolding move_down
move_down_out zero d s m x h = refl
move_down_out (suc n) d s m x h =
    move_down_out n d s _ x (ground arith) ∙ store_miss m (d + n) _ x (ground arith)

move_down_in :
    (n d s : ℕ) (m : Bytes) (k : ℕ) → s ≤ d → k < n → move_down n d s m (d + k) ≡ m (s + k)
unfolding move_down
move_down_in zero d s m k le hi = absurd (omega arith)
move_down_in (suc n) d s m k le hi = elim (Bool-cases (n == k)) [
  | inl e ↦
      let same : n ≡ k = (==_iff n k).0 e in
      let at : d + k ≡ d + n = omega arith in
      move_down_out n d s _ (d + k) (inr (omega arith))
      ∙ store_hit m (d + n) _ (d + k) at
      ∙ ap (λ z. m (s + z)) same
  | inr e ↦ move_down_in n d s _ k le (ground arith) ∙ store_miss m (d + n) _ (s + k) (ground arith)
]

-- `memmove` gives each byte of the destination what the source had there before the call, and
-- leaves every other byte, also if the two ranges overlap.
pub memmove_lem :
    (dst src size : ℕ) (m : Bytes)
    → ((k : ℕ) → k < size → memmove dst src size m (dst + k) ≡ m (src + k))
      × ((x : ℕ) → (x < dst) ⊎ (dst + size ≤ x) → memmove dst src size m x ≡ m x)
unfolding memmove
memmove_lem dst src size m = elim (Bool-cases (ltb dst src)) [
  | inl e ↦
      let lt = ltb→lt dst src e in
      (
        (λ k h. rw e (move_up_in size 0 dst src m k (inl lt) (omega arith) (omega arith))),
        (λ x h. rw e (move_up_out size 0 dst src m x (ground arith))),
      )
  | inr e ↦ (
    (λ k h. rw e (move_down_in size dst src m k (ground arith) h)),
    (λ x h. rw e (move_down_out size dst src m x h)),
  )
]

fill_out :
    (n i d value : ℕ) (m : Bytes) (x : ℕ)
    → (x < d + i) ⊎ (d + i + n ≤ x)
    → fill_from n i d value m x ≡ m x
unfolding fill_from
fill_out zero i d value m x h = refl
fill_out (suc n) i d value m x h =
    fill_out n (i + 1) d value _ x (ground arith) ∙ store_miss m (d + i) _ x (ground arith)

fill_in :
    (n i d value : ℕ) (m : Bytes) (x : ℕ)
    → d + i ≤ x
    → x < d + i + n
    → fill_from n i d value m x ≡ value
unfolding fill_from
fill_in zero i d value m x lo hi = absurd (omega arith)
fill_in (suc n) i d value m x lo hi = elim (Bool-cases (x == d + i)) [
  | inl e ↦
      let same : x ≡ d + i = (==_iff x (d + i)).0 e in
      fill_out n (i + 1) d value _ x (inl (omega arith)) ∙ store_hit m (d + i) _ x same
  | inr e ↦ fill_in n (i + 1) d value _ x (ground arith) (omega arith)
]

-- `memset` gives every byte of its range the value, and leaves every other byte.
pub memset_lem :
    (dst value size x : ℕ) (m : Bytes)
    → (dst ≤ x → x < dst + size → memset dst value size m x ≡ value)
      × ((x < dst) ⊎ (dst + size ≤ x) → memset dst value size m x ≡ m x)
unfolding memset
memset_lem dst value size x m = (
  (λ lo hi. fill_in size 0 dst value m x (omega arith) (omega arith)),
  (λ h. fill_out size 0 dst value m x (ground arith)),
)

equal_from_lem :
    (n i p₁ p₂ : ℕ) (m : Bytes)
    → (equal_from n i p₁ p₂ m ≡ true) ↔ ((k : ℕ) → i ≤ k → k < i + n → m (p₁ + k) ≡ m (p₂ + k))
unfolding equal_from
equal_from_lem zero i p₁ p₂ m = ((λ _ k lo hi. absurd (omega arith)), (λ _. refl))
equal_from_lem (suc n) i p₁ p₂ m = elim (Bool-cases (m (p₁ + i) == m (p₂ + i))) [
  | inl e ↦
      let here : m (p₁ + i) ≡ m (p₂ + i) = (==_iff _ _).0 e in
      let (on, off) = equal_from_lem n (i + 1) p₁ p₂ m in
      (
        (λ h k lo hi. elim (Bool-cases (i == k)) [
          | inl q ↦ subst (λ z. m (p₁ + z) ≡ m (p₂ + z)) ((==_iff i k).0 q) here
          | inr q ↦ on (rw e at h) k (ground arith) (omega arith)
        ]),
        (λ h. rw e (off (λ k lo hi. h k (omega arith) (omega arith)))),
      )
  | inr e ↦ (
    (λ h. let x = rw e at h in cc),
    (λ h. let q = (==_iff _ _).1 (h i (omega arith) (omega arith)) in cc),
  )
]

-- `memcmp` returns true exactly if the two ranges hold the same bytes.
pub memcmp_lem :
    (src₁ src₂ size : ℕ) (m : Bytes)
    → (memcmp src₁ src₂ size m ≡ true) ↔ ((k : ℕ) → k < size → m (src₁ + k) ≡ m (src₂ + k))
unfolding memcmp
memcmp_lem src₁ src₂ size m =
    let (on, off) = equal_from_lem size 0 src₁ src₂ m in
    ((λ h k hi. on h k (omega arith) (omega arith)), (λ h. off (λ k lo hi. h k (omega arith))))
