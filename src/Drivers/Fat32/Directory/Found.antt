-- ===== src/Drivers/Fat32/Directory/Found.antt =====
-- Which name `open` compares with the path.
use plum_os.Prelude.{ℕ, suc, ◌+◌, ◌≡◌, refl, ◌∙◌, ◌≢◌, true, false, some, List, arith, ◌==◌}
use plum_os.Std.Memory.{Bytes}
use plum_os.Drivers.LittleEndian.{bytes_at}
use plum_os.Drivers.Fat32.File.{entry_at}
use plum_os.Drivers.Fat32.Directory.{
  is_deleted, is_long_name, is_dir, is_file, next_name, has_end, compare_name, is_match, search,
}
use plum_os.Kernel.Vfs.{equal_texts}

-- A round in which the search goes on with another long name.
pub search-next :
    (n o : ℕ) (b long_name next : Bytes) (path : List ℕ)
    → b o ≢ 0
    → is_match b o long_name path ≡ some false
    → next_name b o long_name ≡ some next
    → search (suc n) o b long_name path ≡ search n (o + 32) b next path
unfolding search
search-next n o b long_name next path used m e =
    let a : (b o == 0) ≡ false = ground arith in rw (a, m, e) refl

-- An entry of a file with the path for its long name is the result.
pub search-file :
    (n o : ℕ) (b long_name : Bytes) (path : List ℕ)
    → b o ≢ 0
    → is_deleted b o ≡ false
    → is_long_name b o ≡ false
    → is_dir b o ≡ false
    → is_file b o ≡ true
    → has_end 255 0 long_name ≡ true
    → equal_texts (bytes_at 255 long_name 0) path ≡ true
    → search (suc n) o b long_name path ≡ some (some (entry_at b o, o))
unfolding search is_match compare_name
search-file n o b long_name path used kept short not_dir file end same =
    let a : (b o == 0) ≡ false = ground arith in rw (a, kept, short, not_dir, file, end, same) refl

-- The long name of a directory is taken for that of the entry behind it: where the search comes to a
-- directory with the long name `path` behind it, ended within the array, and the entry that follows
-- is a file in use, then it gives that file, whatever its name.
pub search-after_dir :
    (n o : ℕ) (b long_name : Bytes) (path : List ℕ)
    → b o ≢ 0
    → is_deleted b o ≡ false
    → is_long_name b o ≡ false
    → is_dir b o ≡ true
    → b (o + 32) ≢ 0
    → is_deleted b (o + 32) ≡ false
    → is_long_name b (o + 32) ≡ false
    → is_dir b (o + 32) ≡ false
    → is_file b (o + 32) ≡ true
    → has_end 255 0 long_name ≡ true
    → equal_texts (bytes_at 255 long_name 0) path ≡ true
    → search (suc (suc n)) o b long_name path ≡ some (some (entry_at b (o + 32), o + 32))
unfolding next_name is_match
search-after_dir n o b long_name path used kept short dir used' kept' short' not_dir file end same =
    let name : next_name b o long_name ≡ some long_name = rw (kept, short, dir) refl in
    let no_match : is_match b o long_name path ≡ some false = rw (kept, short, dir) refl in
    search-next (suc n) o b long_name long_name path used no_match name
    ∙ search-file n (o + 32) b long_name path used' kept' short' not_dir file end same
