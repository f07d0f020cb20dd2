-- ===== src/Drivers/Fat32/File/Seek.antt =====
-- `seek` goes to the exact sum, if the file has that place.
use plum_os.Prelude.{
  ℕ, ◌%◌, ◌≤◌, ◌≡◌, refl, ap, ◌∙◌, ◌≢◌, ◌⊎◌, inl, inr, none, some, arith, ltb, Bool-cases,
}
use plum_os.Prelude.Int.{ℤ, pos, negsuc, ◌+ℤ◌}
use plum_os.Drivers.Fat32.File.{File, seek, seek_from, seek_to, seek_base}

-- What the offset counts from: the beginning, the position or the end.
abbrev pub Base : File → ℕ → ℕ → Type 0
Base f whence base =
    ((whence % 256 ≡ 0) × (base ≡ 0))
    ⊎ (((whence % 256 ≡ 1) × (base ≡ f.position))
        ⊎ ((whence % 256 ≡ 2) × (base ≡ f.file.file_size)))

-- The numbers of an int64_t.
abbrev pub IsInt64 : ℤ → Type 0
IsInt64 (pos n) = n ≤ 9223372036854775807
IsInt64 (negsuc n) = n ≤ 9223372036854775807

seek_base_lem :
    (f : File) (whence base : ℕ)
    → Base f whence base
    → f.position ≤ 9223372036854775807
    → f.file.file_size ≤ 9223372036854775807
    → (seek_base f whence ≡ some (pos base)) × (base ≤ 9223372036854775807)
unfolding seek_base
seek_base_lem f whence base h a b = (ground arith, ground arith)

-- The checks for overflow refuse no place that a file has.
seek_from_lem :
    (f : File) (offset : ℤ) (base : ℕ)
    → IsInt64 offset
    → base ≤ 9223372036854775807
    → f.file.file_size ≤ 9223372036854775807
    → seek_from f offset (some (pos base)) ≡ seek_to f (pos base +ℤ offset)
unfolding seek_from seek_to
seek_from_lem f (pos n) base h a b = ground arith
seek_from_lem f (negsuc n) base h a b = ground arith

landed :
    (f : File) (z : ℤ)
    → ((n : ℕ)
        → n ≤ f.file.file_size
        → z ≡ pos n
        → seek_to f z ≡ (some n, record f { position = n }))
      × (((n : ℕ) → n ≤ f.file.file_size → z ≢ pos n) → seek_to f z ≡ (none, f))
unfolding seek_to
landed f (negsuc n) = (λ k le e. cc, λ h. refl)
landed f (pos n) = (
  λ k le e. ground arith,
  λ none_there. elim (Bool-cases (ltb f.file.file_size n)) [
    | inl past ↦ rw past refl
    | inr inside ↦ absurd (none_there n (ground arith) refl)
  ],
)

-- `seek` from the beginning, the position or the end of a file, with a position and a size that an
-- int64_t holds and any int64_t for the offset: if base and offset make a number that is not above
-- the size of the file, it returns that number and the position becomes it; if not, it returns -1 and
-- the file is as it was.
pub seek_lem :
    (f : File) (offset : ℤ) (whence base : ℕ)
    → Base f whence base
    → IsInt64 offset
    → f.position ≤ 9223372036854775807
    → f.file.file_size ≤ 9223372036854775807
    → ((n : ℕ)
        → n ≤ f.file.file_size
        → pos base +ℤ offset ≡ pos n
        → seek f offset whence ≡ (some n, record f { position = n }))
      × (((n : ℕ) → n ≤ f.file.file_size → pos base +ℤ offset ≢ pos n)
          → seek f offset whence ≡ (none, f))
unfolding seek
seek_lem f offset whence base h small a b =
    let (found, low) = seek_base_lem f whence base h a b in
    let run : seek f offset whence ≡ seek_to f (pos base +ℤ offset) =
      ap (seek_from f offset) found ∙ seek_from_lem f offset base small low b in
    let (yes_there, nowhere) = landed f (pos base +ℤ offset) in
    (λ n le e. run ∙ yes_there n le e, λ none_there. run ∙ nowhere none_there)
