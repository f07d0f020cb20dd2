-- ===== src/Drivers/Fat32/Directory/LongName.antt =====
-- A long name that one directory entry has, as `open` reads it.
use plum_os.Prelude.{
  ℕ, zero, suc, ◌+◌, ◌-◌, ◌*◌, ◌%◌, ◌≤◌, ◌<◌, ◌≡◌, refl, sym, ap, ◌∙◌, subst, ◌≢◌, ◌⊎◌, inl, inr,
  true, false, some, List, arith, ltb, ◌==◌, if◌then◌else◌, ltb→lt, ==_iff, ne→==_false, Bool-cases,
  length, get_or-out_of_range,
}
use plum_os.Std.Memory.{Bytes, store}
use plum_os.Std.CString.{char_at, strcmp}
use plum_os.Kernel.Vfs.{equal_texts, is_same}
use plum_os.Drivers.LittleEndian.{le16, bytes_at}
use plum_os.Drivers.Fat32.File.{entry_at}
use plum_os.Drivers.Fat32.Directory.{
  put_chars, add_name, is_deleted, is_long_name, is_dir, is_file, next_name, has_end, is_match,
  search,
}
use plum_os.Drivers.Fat32.Directory.Terminated.{has_end-at, char_at-bytes_at, strcmp_from-agree}
use plum_os.Drivers.Fat32.Directory.Found.{search-next, search-file}

-- The characters of a name in its entry: the name, a terminator, and 0xFFFF to the end.
abbrev pub padded : List ℕ → ℕ → ℕ
padded name k =
    if ltb k (length name) then char_at name k else if k == length name then 0 else 65535

-- Where character `k` stands in an entry: in `name_1`, `name_2` or `name_3`.
abbrev pub place : ℕ → ℕ
place k = if ltb k 5 then 1 + k * 2 else if ltb k 11 then 14 + (k - 5) * 2 else 28 + (k - 11) * 2

-- A name of bytes other than 0.
abbrev pub IsName : List ℕ → Type 0
IsName name = (k : ℕ) → k < length name → (0 < char_at name k) × (char_at name k < 256)

put-taken :
    (n at : ℕ) (b l : Bytes) (idx c : ℕ)
    → le16 b at ≡ c
    → 0 < c
    → c < 256
    → idx < 255
    → put_chars (suc n) at b (l, idx) ≡ put_chars n (at + 2) b (store l idx c, idx + 1)
unfolding put_chars
put-taken n at b l idx c e pos small inside =
    let e1 : (c == 65535) ≡ false = ground arith in
    let e2 : (c == 0) ≡ false = ground arith in
    let e3 : ltb idx 255 ≡ true = ground arith in
    let e4 : c % 256 ≡ c = omega arith in
    let e5 : (idx + 1) % 256 ≡ idx + 1 = omega arith in rw (e, e1, e2, e3, e4, e5) refl

put-ended :
    (n at : ℕ) (b l : Bytes) (idx : ℕ)
    → le16 b at ≡ 0
    → idx < 255
    → put_chars (suc n) at b (l, idx) ≡ some (store l idx 0, idx)
unfolding put_chars
put-ended n at b l idx e inside = let e3 : ltb idx 255 ≡ true = ground arith in rw (e, e3) refl

put-skipped :
    (n at : ℕ) (b l : Bytes) (idx : ℕ)
    → le16 b at ≡ 65535
    → put_chars (suc n) at b (l, idx) ≡ put_chars n (at + 2) b (l, idx)
unfolding put_chars
put-skipped n at b l idx e = rw e refl

store-at : (l : Bytes) (i v j : ℕ) → j ≡ i → store l i v j ≡ v
store-at l i v j e = rw ((==_iff j i).1 e) refl

store-ne : (l : Bytes) (i v j : ℕ) → j ≢ i → store l i v j ≡ l j
store-ne l i v j ne = rw (ne→==_false j i ne) refl

module _ (name : List ℕ) (is_name : IsName name) where
  -- `s` characters of the name, with what is behind it, have been read.
  record Read (s : ℕ) (l : Bytes) (idx : ℕ) : Type 0 where
    pub at : ((s ≤ length name) × (idx ≡ s)) ⊎ ((length name < s) × (idx ≡ length name))
    pub bytes : (j : ℕ) → j < s → j ≤ length name → l j ≡ char_at name j

  Read-ended :
      (s t : ℕ) (l : Bytes) (idx : ℕ)
      → length name < s
      → length name < t
      → Read s l idx
      → Read t l idx
  Read-ended s t l idx lt lt' r = record {
    at = inr (lt', elim r.at [ inl (le, _) ↦ absurd (omega arith) | inr (_, e) ↦ e ]);
    bytes = λ j h le. r.bytes j (omega arith) le;
  }

  put_chars_lem :
      (n at s : ℕ) (b l : Bytes) (idx : ℕ)
      → ((k : ℕ) → k < n → le16 b (at + k * 2) ≡ padded name (s + k))
      → s + n < 255
      → Read s l idx
      → (l' : Bytes) × (idx' : ℕ) × (put_chars n at b (l, idx) ≡ some (l', idx'))
        × Read (s + n) l' idx'
  unfolding put_chars
  put_chars_lem zero at s b l idx chars small r =
      let z : s ≡ s + 0 = omega arith in (l, idx, refl, subst (λ t. Read t l idx) z r)
  put_chars_lem (suc n) at s b l idx chars small r =
      let on : (k : ℕ) → k < n → le16 b (at + 2 + k * 2) ≡ padded name (s + 1 + k) = λ k lt.
        let p : at + 2 + k * 2 ≡ at + (k + 1) * 2 = omega arith in
        let q : s + (k + 1) ≡ s + 1 + k = omega arith in
        ap (le16 b) p ∙ chars (k + 1) (omega arith) ∙ ap (padded name) q in
      let first : le16 b at ≡ padded name s =
        let p : at ≡ at + 0 * 2 = omega arith in
        let q : s + 0 ≡ s = omega arith in
        ap (le16 b) p ∙ chars 0 (omega arith) ∙ ap (padded name) q in
      let total : s + 1 + n ≡ s + suc n = omega arith in
      elim r.at [
        | inr (past, e) ↦
            let gap : padded name s ≡ 65535 = ground arith in
            let (l', idx', run, r') =
              put_chars_lem n (at + 2) (s + 1) b l idx on (omega arith)
                (Read-ended s (s + 1) l idx past (omega arith) r) in
            (
              l',
              idx',
              put-skipped n at b l idx (first ∙ gap) ∙ run,
              subst (λ t. Read t l' idx') total r',
            )
        | inl (le, e) ↦ elim (Bool-cases (ltb s (length name))) [
          | inl lt ↦
              let more : s < length name = ltb→lt s (length name) lt in
              let c = char_at name s in
              let (pos, byte) = is_name s more in
              let here : padded name s ≡ c = rw lt refl in
              let step : Read (s + 1) (store l idx c) (idx + 1) = record {
                at = inl (omega arith, omega arith);
                bytes = λ j lt' le'. elim (Bool-cases (j == idx)) [
                  | inl q ↦
                      let q' : j ≡ idx = (==_iff j idx).0 q in
                      store-at l idx c j q' ∙ ap (char_at name) (sym (q' ∙ e))
                  | inr q ↦
                      let ne : j ≢ idx = λ q'. ground arith in
                      store-ne l idx c j ne ∙ r.bytes j (ground arith) le'
                ];
              } in
              let (l', idx', run, r') =
                put_chars_lem n (at + 2) (s + 1) b (store l idx c) (idx + 1) on (omega arith)
                  step in
              (
                l',
                idx',
                put-taken n at b l idx c (first ∙ here) pos byte (omega arith) ∙ run,
                subst (λ t. Read t l' idx') total r',
              )
          | inr ge ↦
              let last : s ≡ length name = ground arith in
              let ended : padded name s ≡ 0 = ground arith in
              (
                store l idx 0,
                idx,
                put-ended n at b l idx (first ∙ ended) (omega arith),
                record {
                  at = inr (omega arith, omega arith);
                  bytes = λ j lt' le'. elim (Bool-cases (j == idx)) [
                    | inl q ↦
                        let q' : j ≡ idx = (==_iff j idx).0 q in
                        store-at l idx 0 j q' ∙ sym (get_or-out_of_range name j 0 (omega arith))
                    | inr q ↦
                        let ne : j ≢ idx = λ q'. ground arith in
                        store-ne l idx 0 j ne ∙ r.bytes j (ground arith) le'
                  ];
                },
              )
        ]
      ]

  -- The three parts of the entry at index `o`, the only one of the name, one after the other.
  add_name_lem :
      (o : ℕ) (b l : Bytes)
      → b o ≡ 65
      → length name < 13
      → ((k : ℕ) → k < 13 → le16 b (o + place k) ≡ padded name k)
      → (l' : Bytes) × (add_name b o l ≡ some l')
        × ((j : ℕ) → j ≤ length name → l' j ≡ char_at name j)
  unfolding add_name
  add_name_lem o b l one short chars =
      let part : (n s at : ℕ)
          → ((k : ℕ) → k < n → (s + k < 13) × (o + place (s + k) ≡ at + k * 2))
          → (k : ℕ) → k < n
          → le16 b (at + k * 2) ≡ padded name (s + k) =
        λ n s at h k lt. ap (le16 b) (sym (h k lt).1) ∙ chars (s + k) (h k lt).0 in
      let start : Read 0 l 0 = record {
        at = inl (omega arith, refl);
        bytes = λ j lt le. absurd (omega arith);
      } in
      let (l₁, i₁, run₁, r₁) =
        put_chars_lem 5 (o + 1) 0 b l 0 (part 5 0 (o + 1) (λ k lt. (omega arith, ground arith)))
          (omega arith) start in
      let (l₂, i₂, run₂, r₂) =
        put_chars_lem 6 (o + 14) 5 b l₁ i₁ (part 6 5 (o + 14) (λ k lt. (omega arith, ground arith)))
          (omega arith) r₁ in
      let (l₃, i₃, run₃, r₃) =
        put_chars_lem 2 (o + 28) 11 b l₂ i₂
          (part 2 11 (o + 28) (λ k lt. (omega arith, ground arith))) (omega arith) r₂ in
      (l₃, rw (one, run₁, run₂, run₃) refl, λ j le. r₃.bytes j (omega arith) le)

-- An entry that is not the search's result.
match-none :
    (o : ℕ) (b l : Bytes) (path : List ℕ)
    → is_long_name b o ≡ true
    → is_match b o l path ≡ some false
unfolding is_match
match-none o b l path long = ground arith

-- Suppose that the search comes to an entry of a long name, the first and last of its name, which has
-- fewer than 13 characters, bytes other than 0, with the terminator and 0xFFFF behind them in the three
-- parts of the entry; and that the entry behind it is a file in use with the archive bit. Then the
-- search for that name gives that file, whatever `long_name` held before, with no access outside of
-- the array.
pub search-long_name :
    (name : List ℕ) (n o : ℕ) (b long_name : Bytes)
    → IsName name
    → length name < 13
    → b o ≡ 65
    → is_long_name b o ≡ true
    → ((k : ℕ) → k < 13 → le16 b (o + place k) ≡ padded name k)
    → b (o + 32) ≢ 0
    → is_deleted b (o + 32) ≡ false
    → is_long_name b (o + 32) ≡ false
    → is_dir b (o + 32) ≡ false
    → is_file b (o + 32) ≡ true
    → search (suc (suc n)) o b long_name name ≡ some (some (entry_at b (o + 32), o + 32))
unfolding next_name equal_texts strcmp
search-long_name name n o b long_name is_name short one long chars used kept plain not_dir file =
    let (l, run, same_bytes) = add_name_lem name is_name o b long_name one short chars in
    let live : is_deleted b o ≡ false = ground arith in
    let next : next_name b o long_name ≡ some l = rw (live, long) run in
    let end_char : char_at name (length name) ≡ 0 =
      get_or-out_of_range name (length name) 0 (omega arith) in
    let end : has_end 255 0 l ≡ true =
      has_end-at 255 0 (length name) l (omega arith) (omega arith)
        (same_bytes (length name) (omega arith) ∙ end_char) in
    let text = bytes_at 255 l 0 in
    let agree : (j : ℕ) → j ≤ length name → char_at text j ≡ char_at name j = λ j le.
      let z : 0 + j ≡ j = omega arith in
      char_at-bytes_at 255 0 j l (omega arith) ∙ ap l z ∙ same_bytes j le in
    let equal : equal_texts text name ≡ true = ap is_same (
      strcmp_from-agree (length text + 1) 0 (length name) text name (omega arith) (omega arith)
        agree (agree (length name) (omega arith) ∙ end_char)) in
    search-next (suc n) o b long_name l name (λ e. absurd (omega arith))
      (match-none o b long_name name long) next
    ∙ search-file n (o + 32) b l name used kept plain not_dir file end equal
