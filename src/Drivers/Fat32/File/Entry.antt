-- ===== src/Drivers/Fat32/File/Entry.antt =====
-- A directory entry written to memory and read back.
use plum_os.Prelude.{
  ℕ, ◌+◌, ◌*◌, ◌/◌, ◌%◌, ◌<◌, ◌≡◌, refl, sym, ap, ◌∙◌, List, [], ◌∷◌, arith, length,
}
use plum_os.Drivers.LittleEndian.{buffer_of}
use plum_os.Drivers.Fat32.{FileEntry}
use plum_os.Drivers.Fat32.File.{entry_bytes, entry_at}

-- The fields fit their types.
pub record IsFileEntry (e : FileEntry) : Type 0 where
  pub name : length e.file_name ≡ 11
  pub creation_time : e.creation_time < 65536
  pub creation_date : e.creation_date < 65536
  pub last_accessed_date : e.last_accessed_date < 65536
  pub first_cluster_high : e.first_cluster_high < 65536
  pub last_modification_time : e.last_modification_time < 65536
  pub last_modification_date : e.last_modification_date < 65536
  pub first_cluster_low : e.first_cluster_low < 65536
  pub file_size : e.file_size < 4294967296

le16_lem : (v : ℕ) → v < 65536 → (v % 256 + v / 256 % 256 * 256) % 65536 ≡ v
le16_lem v h = omega arith

le32_lem :
    (v : ℕ)
    → v < 4294967296
    → (v % 256 + v / 256 % 256 * 256 + v / 65536 % 256 * 65536 + v / 16777216 % 256 * 16777216)
        % 4294967296
      ≡ v
le32_lem v h = omega arith

-- With a name of eleven bytes.
entry_lem :
    (e : FileEntry) (a b c d f g i j k l m : ℕ)
    → e.file_name ≡ a ∷ b ∷ c ∷ d ∷ f ∷ g ∷ i ∷ j ∷ k ∷ l ∷ m ∷ []
    → IsFileEntry e
    → entry_at (buffer_of (entry_bytes e)) 0 ≡ e
unfolding entry_at
entry_lem e a b c d f g i j k l m name h =
    let e' : FileEntry = record e { file_name = a ∷ b ∷ c ∷ d ∷ f ∷ g ∷ i ∷ j ∷ k ∷ l ∷ m ∷ [] } in
    let same : e ≡ e' = λ t. record e { file_name = name t } in
    let core : entry_at (buffer_of (entry_bytes e')) 0 ≡ e' = λ t. record {
      file_name = e'.file_name;
      attributes = e.attributes;
      rsvd_windows_nt = e.rsvd_windows_nt;
      create_time_tenth = e.create_time_tenth;
      creation_time = le16_lem e.creation_time h.creation_time t;
      creation_date = le16_lem e.creation_date h.creation_date t;
      last_accessed_date = le16_lem e.last_accessed_date h.last_accessed_date t;
      first_cluster_high = le16_lem e.first_cluster_high h.first_cluster_high t;
      last_modification_time = le16_lem e.last_modification_time h.last_modification_time t;
      last_modification_date = le16_lem e.last_modification_date h.last_modification_date t;
      first_cluster_low = le16_lem e.first_cluster_low h.first_cluster_low t;
      file_size = le32_lem e.file_size h.file_size t;
    } in
    ap (λ z. entry_at (buffer_of (entry_bytes z)) 0) same ∙ core ∙ sym same

name_of :
    (e : FileEntry) (xs : List ℕ)
    → e.file_name ≡ xs
    → length xs ≡ 11
    → IsFileEntry e
    → entry_at (buffer_of (entry_bytes e)) 0 ≡ e
name_of e (a ∷ b ∷ c ∷ d ∷ f ∷ g ∷ i ∷ j ∷ k ∷ l ∷ m ∷ []) name n h =
    entry_lem e a b c d f g i j k l m name h
name_of e (a ∷ b ∷ c ∷ d ∷ f ∷ g ∷ i ∷ j ∷ k ∷ l ∷ m ∷ o ∷ xs) name n h = absurd (omega arith)
name_of e xs name n h = absurd (omega arith)

-- What `entry[i]` reads where an entry was written, with fields that fit their types and a name of
-- eleven bytes, is that entry.
pub entry_at-entry_bytes :
    (e : FileEntry) → IsFileEntry e → entry_at (buffer_of (entry_bytes e)) 0 ≡ e
entry_at-entry_bytes e h = name_of e e.file_name refl h.name h
