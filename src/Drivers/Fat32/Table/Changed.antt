-- ===== src/Drivers/Fat32/Table/Changed.antt =====
-- Some entries of one cluster set to a value, and nothing else changed.
use plum_os.Prelude.{ℕ, ◌+◌, ◌<◌, ◌≡◌, refl, ◌∙◌, ◌≢◌, ◌⊎◌, inl, inr, false}
use plum_os.Drivers.LittleEndian.{le32-eq}
use plum_os.Drivers.Fat32.{FileSystem}
use plum_os.Drivers.Fat32.Table.{mirroring_disabled, active_fat}
use plum_os.Drivers.Fat32.Table.Entries.{entry, entry_address, Outside, Fits, entries_apart}

-- The tables in which an entry is kept: the active one alone, or all of them.
abbrev pub InUse : FileSystem → ℕ → Type 0
InUse fs k = (k < fs.fat.bpb.num_of_fats) × ((k ≡ active_fat fs) ⊎ (mirroring_disabled fs ≡ false))

-- The tables in use have the value in the entry of the cluster; all else is as it was.
pub record IsSetTo (fs : FileSystem) (In : ℕ → Type 0) (old new : ℕ → ℕ) (c value : ℕ)
    : Type 0 where
  pub here : (k : ℕ) → In k → entry fs new k c ≡ value
  pub elsewhere : (a : ℕ) → ((k : ℕ) → In k → Outside fs k c a) → new a ≡ old a

module _ {fs : FileSystem} where
  -- An entry that is none of those that were set is as it was.
  pub set_elsewhere :
      {In : ℕ → Type 0} {old new : ℕ → ℕ} {c value : ℕ} (j d : ℕ)
      → IsSetTo fs In old new c value
      → Fits fs c
      → Fits fs d
      → ((k : ℕ) → In k → (k ≢ j) ⊎ (c ≢ d))
      → entry fs new j d ≡ entry fs old j d
  set_elsewhere {In} {old} {new} {c} j d p fc fd ne =
      le32-eq new old (entry_address fs j d) (entry_address fs j d) (λ i lt.
        p.elsewhere (entry_address fs j d + i)
          (λ k m. entries_apart fs k j c d i fc fd (ne k m) lt))

  -- Some tables first, then others.
  pub set_both :
      {First Then In : ℕ → Type 0} {old mid new : ℕ → ℕ} {c value : ℕ}
      → Fits fs c
      → IsSetTo fs First old mid c value
      → IsSetTo fs Then mid new c value
      → ((k : ℕ) → In k → First k ⊎ Then k)
      → ((k : ℕ) → First k → In k)
      → ((k : ℕ) → Then k → In k)
      → ((k j : ℕ) → First j → Then k → k ≢ j)
      → IsSetTo fs In old new c value
  set_both {c = c} f p q which first_in then_in apart = record {
    here = λ k m. elim (which k m) [
      | inl a ↦ set_elsewhere k c q f f (λ j b. inl (apart j k a b)) ∙ p.here k a
      | inr b ↦ q.here k b
    ];
    elsewhere = λ a out.
        q.elsewhere a (λ k m. out k (then_in k m)) ∙ p.elsewhere a (λ k m. out k (first_in k m));
  }

  pub set_none :
      {In : ℕ → Type 0} {old : ℕ → ℕ} {c value : ℕ}
      → ((k : ℕ) → ¬ In k)
      → IsSetTo fs In old old c value
  set_none no_one = record { here = λ k m. absurd (no_one k m); elsewhere = λ a out. refl }
