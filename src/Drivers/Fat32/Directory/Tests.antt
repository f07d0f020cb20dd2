-- ===== src/Drivers/Fat32/Directory/Tests.antt =====
-- Directories of two entries.
use plum_os.Prelude.{
  ℕ, zero, suc, ◌+◌, ◌<◌, ◌≡◌, refl, true, ◌&&◌, some, [], ◌∷◌, arith, ltb, leb, ◌==◌,
  if◌then◌else◌,
}
use plum_os.Std.Memory.{Bytes}
use plum_os.Drivers.LittleEndian.{bytes_at, le16}
use plum_os.Drivers.Fat32.File.{entry_at}
use plum_os.Drivers.Fat32.Directory.{has_end, search}
use plum_os.Drivers.Fat32.Directory.Found.{search-after_dir}
use plum_os.Drivers.Fat32.Directory.LongName.{padded, place, IsName, search-long_name}
use plum_os.Std.CString.{strcmp}
use plum_os.Kernel.Vfs.{equal_texts}

-- A directory, then a file.
abbrev two_entries : Bytes
two_entries = λ x. if x == 11 then 16 else if x == 43 then 32 else 65

abbrev docs : Bytes
docs = λ x. if x == 0 then b'd' else 0

same_text : equal_texts (bytes_at 255 docs 0) (b'd' ∷ []) ≡ true
unfolding equal_texts strcmp
same_text = refl

docs_end : has_end 255 0 docs ≡ true
unfolding has_end
docs_end = refl

search-after_dir_example :
    search 2 0 two_entries docs (b'd' ∷ []) ≡ some (some (entry_at two_entries (0 + 32), 0 + 32))
search-after_dir_example =
    search-after_dir 0 0 two_entries docs (b'd' ∷ []) (λ e. absurd (omega arith)) refl refl refl
      (λ e. absurd (omega arith)) refl refl refl refl docs_end same_text

-- The entry with the long name of a file, "hi", and the entry of the file.
abbrev hi_entries : Bytes
hi_entries = λ x.
    if x == 0
    then 65
    else if x == 1
    then b'h'
    else if x == 3
    then b'i'
    else if x == 11
    then 15
    else if leb 7 x && ltb x 32
    then 255
    else if x == 32
    then b'H'
    else if x == 43
    then 32
    else 0

hi_chars : (k : ℕ) → k < 13 → le16 hi_entries (0 + place k) ≡ padded (b'h' ∷ b'i' ∷ []) k
hi_chars zero lt = refl
hi_chars (suc zero) lt = refl
hi_chars (suc (suc zero)) lt = refl
hi_chars (suc (suc (suc zero))) lt = refl
hi_chars (suc (suc (suc (suc zero)))) lt = refl
hi_chars (suc (suc (suc (suc (suc zero))))) lt = refl
hi_chars (suc (suc (suc (suc (suc (suc zero)))))) lt = refl
hi_chars (suc (suc (suc (suc (suc (suc (suc zero))))))) lt = refl
hi_chars (suc (suc (suc (suc (suc (suc (suc (suc zero)))))))) lt = refl
hi_chars (suc (suc (suc (suc (suc (suc (suc (suc (suc zero))))))))) lt = refl
hi_chars (suc (suc (suc (suc (suc (suc (suc (suc (suc (suc zero)))))))))) lt = refl
hi_chars (suc (suc (suc (suc (suc (suc (suc (suc (suc (suc (suc zero))))))))))) lt = refl
hi_chars (suc (suc (suc (suc (suc (suc (suc (suc (suc (suc (suc (suc zero)))))))))))) lt = refl
hi_chars (suc (suc (suc (suc (suc (suc (suc (suc (suc (suc (suc (suc (suc k))))))))))))) lt =
    absurd (omega arith)

hi-IsName : IsName (b'h' ∷ b'i' ∷ [])
hi-IsName zero lt = (omega arith, omega arith)
hi-IsName (suc zero) lt = (omega arith, omega arith)
hi-IsName (suc (suc k)) lt = absurd (omega arith)

search-long_name_example :
    search 2 0 hi_entries docs (b'h' ∷ b'i' ∷ [])
    ≡ some (some (entry_at hi_entries (0 + 32), 0 + 32))
search-long_name_example =
    search-long_name (b'h' ∷ b'i' ∷ []) 0 0 hi_entries docs hi-IsName (omega arith) refl refl
      hi_chars (λ e. absurd (omega arith)) refl refl refl refl
