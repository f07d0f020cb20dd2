-- ===== src/Kernel/Syscall/Open.antt =====
-- `kopen` on all its paths, and `kclose` of what it returned.
use plum_os.Prelude.{
  ℕ, ◌≡◌, refl, sym, ap, ◌∙◌, subst, ◌⊎◌, inl, inr, Option, none, some, List, ◌==◌, ==_iff,
  Bool-cases,
}
use plum_os.Kernel.Vfs.{Mount}
use plum_os.Kernel.Syscall.{
  minus_one, OpenFile, Objects, Files, put, create_open_file, close_object, release_open_file,
  vfs_open, install, describe, kopen_object, kopen,
}
use plum_os.Kernel.Syscall.Table.{AllUsed, FirstFree, given, alloc_fd_lem}

module _ {Obj : Type 0} where
  abbrev pub new_file : ℕ → Obj → OpenFile Obj
  new_file flags o = record { object = some o; position = 0; flags = flags; ref_count = 1 }

  pub put_self :
      (files : ℕ → Option (OpenFile Obj)) (a : ℕ) (f : Option (OpenFile Obj)) → put files a f a ≡ f
  put_self files a f = rw ((==_iff a a).1 refl) refl

  pub put_back :
      (files : ℕ → Option (OpenFile Obj)) (a : ℕ) (f : Option (OpenFile Obj))
      → files a ≡ none
      → (x : ℕ) → put (put files a f) a none x ≡ files x
  put_back files a f fresh x = elim (Bool-cases (x == a)) [
    | inl e ↦ rw e (sym (ap files ((==_iff x a).0 e) ∙ fresh))
    | inr e ↦ rw e refl
  ]

module _ {Obj W : Type 0} where
  -- The open file at `a` for object `o`, which descriptor `fd` leads to.
  abbrev pub opened : ℕ → ℕ → Obj → ℕ → Files Obj W → Files Obj W
  opened flags a o fd s = record s {
    open_files = put s.open_files a (some (new_file flags o));
    fd_table = given s.fd_table fd a;
  }

module _ {FS Obj W : Type 0} (ops : Objects FS Obj W) where
  -- What is left of a call that failed: -1, the table and the open files of `s`, and the object
  -- closed, if there was one.
  pub record Failed (s : Files Obj W) (object : Option Obj) (r : ℕ × Files Obj W) : Type 0 where
    pub result : r.0 ≡ minus_one
    pub table : r.1.fd_table ≡ s.fd_table
    pub files : (x : ℕ) → r.1.open_files x ≡ s.open_files x
    pub closed : r.1.world ≡ close_object ops object s.world

  pub release_last :
      (a flags : ℕ) (o : Obj) (s : Files Obj W)
      → s.open_files a ≡ some (new_file flags o)
      → release_open_file ops (some a) s
        ≡ record s { open_files = put s.open_files a none; world = ops.close o s.world }
  unfolding release_open_file close_object
  release_last a flags o s e = rw (e, release_open_file) refl

  abbrev Outcome : ℕ → Option ℕ → Option Obj → Files Obj W → ℕ × Files Obj W → Type 0
  Outcome flags address object s r =
      (Failed s object r × ((object ≡ none) ⊎ (address ≡ none) ⊎ AllUsed s.fd_table))
      ⊎ ((o : Obj) × (a fd : ℕ) × (object ≡ some o)
          × (address ≡ some a)
          × FirstFree s.fd_table fd
          × (r ≡ (fd, opened flags a o fd s)))

  describe_lem :
      (flags a : ℕ) (o : Obj) (s : Files Obj W)
      → s.open_files a ≡ none
      → Outcome flags (some a) (some o) s (kopen_object ops (some a) flags (some o) s)
  unfolding kopen_object create_open_file describe install
  describe_lem flags a o s fresh =
      let s' : Files Obj W = record s {
        open_files = put s.open_files a (some (new_file flags o));
      } in
      elim (alloc_fd_lem s.fd_table a) [
        | inl (run, full) ↦
            let back = release_last a flags o s' (put_self s.open_files a _) in
            inl (
              subst (Failed s (some o))
                  (sym (
                    ap (λ r. install ops a r.0 (record s' { fd_table = r.1 })) run
                    ∙ ap (λ z. (minus_one, z)) back))
                  (unfold close_object in
                    record {
                      result = refl;
                      table = refl;
                      files = put_back s.open_files a _ fresh;
                      closed = refl;
                    }),
              inr (inr full),
            )
        | inr (fd, run, first) ↦ inr (
          o,
          a,
          fd,
          refl,
          refl,
          first,
          ap (λ r. install ops a r.0 (record s' { fd_table = r.1 })) run,
        )
      ]

  kopen_object_lem :
      (flags : ℕ) (address : Option ℕ) (object : Option Obj) (s : Files Obj W)
      → ((a : ℕ) → address ≡ some a → s.open_files a ≡ none)
      → Outcome flags address object s (kopen_object ops address flags object s)
  unfolding kopen_object create_open_file describe close_object
  kopen_object_lem flags address none s fresh =
      inl (record { result = refl; table = refl; files = λ x. refl; closed = refl }, inl refl)
  kopen_object_lem flags none (some o) s fresh =
      inl (record { result = refl; table = refl; files = λ x. refl; closed = refl }, inr (inl refl))
  kopen_object_lem flags (some a) (some o) s fresh = describe_lem flags a o s (fresh a refl)

module _ {FS Obj W : Type 0} (ops : Objects FS Obj W) (mounts : List (Mount FS))
    (path : Option (List ℕ)) (flags : ℕ) (s : Files Obj W) where
  -- What `vfs.open` returns, and what it leaves.
  abbrev pub found : Option Obj × W
  found = vfs_open ops mounts path flags s.world

  abbrev pub after_open : Files Obj W
  after_open = record s { world = found.1 }

module _ {FS Obj W : Type 0} (ops : Objects FS Obj W) (mounts : List (Mount FS))
    (path : Option (List ℕ)) (flags : ℕ) (address : Option ℕ) (s : Files Obj W)
    (fresh : (a : ℕ) → address ≡ some a → s.open_files a ≡ none) where
  abbrev object_found : Option Obj × W
  object_found = found ops mounts path flags s

  abbrev state_found : Files Obj W
  state_found = after_open ops mounts path flags s

  -- If `new` does not return an address in use, `kopen` either fails, because `vfs.open` gave no
  -- object, `new` gave nullptr or every entry of the table is in use: it returns -1, leaves the
  -- table and the open files, and closes the object that it had; or it returns the lowest free
  -- descriptor, which leads to a new open file on the object.
  pub kopen_lem :
      (Failed ops state_found object_found.0 (kopen ops address mounts path flags s)
        × ((object_found.0 ≡ none) ⊎ (address ≡ none) ⊎ AllUsed s.fd_table))
      ⊎ ((o : Obj) × (a fd : ℕ) × (object_found.0 ≡ some o)
          × (address ≡ some a)
          × FirstFree s.fd_table fd
          × (kopen ops address mounts path flags s ≡ (fd, opened flags a o fd state_found)))
  unfolding kopen
  kopen_lem = kopen_object_lem ops flags address object_found.0 state_found fresh
