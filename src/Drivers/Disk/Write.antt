-- ===== src/Drivers/Disk/Write.antt =====
-- `write_bytes` stores the bytes at an address, and nothing else.
use native.Mathlib.Nat.{mod-lt, div-add-mod}
use plum_os.Prelude.{
  ℕ, zero, suc, ◌+◌, ◌-◌, ◌*◌, ◌/◌, ◌%◌, ◌≤◌, ◌<◌, ◌≡◌, refl, sym, ap, ◌∙◌, subst, ◌≢◌, ◌⊎◌, inl,
  inr, Bool, true, false, none, some, arith, ltb, ◌==◌, if◌then◌else◌, ltb→lt, ==_iff, ne→==_false,
  Bool-cases, Option-cases, word, add64,
}
use plum_os.Std.Memory.{Bytes}
use plum_os.Drivers.Disk.{SectorPort, splice, write_back, write_chunk, write_loop, write_bytes}
use plum_os.Drivers.Disk.Port.{IsPort, flat, flat_at}
use plum_os.Drivers.Disk.Read.{chunk_of, splice_in, splice_out}

module _ {S : Type 0} {port : SectorPort S} {sector_size : ℕ} (w : IsPort port sector_size) where
  -- What is left of a write of `n` bytes of a buffer from index `i` on at address `p`, ended by
  -- `done`: if it went through, these bytes are at `p` and the rest of the disk is as it was.
  pub record Stored (p n i : ℕ) (buffer : Bytes) (s : S) (done : Bool) (s' : S) : Type 0 where
    pub stored : done ≡ true → (k : ℕ) → k < n → flat w s' (p + k) ≡ buffer (i + k)
    pub beside : done ≡ true → (a : ℕ) → (a < p) ⊎ (p + n ≤ a) → flat w s' a ≡ flat w s a

  failed : {p n i : ℕ} {buffer : Bytes} {s s' : S} → Stored p n i buffer s false s'
  failed = record { stored = λ h. cc; beside = λ h. cc }

  -- A sector is written with `c` bytes of the buffer at `o`; the others are as they were.
  written :
      (c l o i : ℕ) (old buffer : Bytes) (s s₁ : S)
      → o + c ≤ sector_size
      → 0 < c
      → ((x : ℕ) → x < sector_size → (x < o) ⊎ (o + c ≤ x) → old x ≡ w.byte s l x)
      → ((k x : ℕ) → w.byte s₁ k x ≡ w.byte s k x)
      → Stored
          (l * sector_size + o)
          c
          i
          buffer
          s
          (port.write_sector l (splice old o buffer i c) s₁).0
          (port.write_sector l (splice old o buffer i c) s₁).1
  written c l o i old buffer s s₁ fits pos rest same =
      let new = splice old o buffer i c in
      let s₂ = (port.write_sector l new s₁).1 in
      record {
        stored = λ done k lt.
            let at : l * sector_size + (o + k) ≡ l * sector_size + o + k = omega arith in
            ap (flat w s₂) (sym at)
            ∙ flat_at w s₂ l (o + k) (omega arith)
            ∙ w.write_holds l new s₁ (o + k) done (omega arith)
            ∙ splice_in old buffer o i c k lt;
        beside = λ done a out. elim (Bool-cases (a / sector_size == l)) [
          | inr e ↦
              let other : a / sector_size ≢ l = ground arith in
              w.write_keeps l new s₁ _ _ other ∙ same _ _
          | inl e ↦
              let here : a / sector_size ≡ l = (==_iff _ _).0 e in
              let x = a % sector_size in
              let small = mod-lt a w.size_pos in
              let whole : sector_size * l + x ≡ a =
                ap (λ z. sector_size * z + x) (sym here) ∙ div-add-mod a sector_size in
              let turn : l * sector_size ≡ sector_size * l = grind arith in
              let outside : (x < o) ⊎ (o + c ≤ x) = elim out [
                | inl p ↦ inl (omega arith)
                | inr p ↦ inr (omega arith)
              ] in
              ap (λ z. w.byte s₂ z x) here
              ∙ w.write_holds l new s₁ x done small
              ∙ splice_out old buffer o i c x outside
              ∙ rest x small outside
              ∙ ap (λ z. w.byte s z x) (sym here)
        ];
      }

  write_chunk-whole :
      (c l o i : ℕ) (temp buffer : Bytes) (s : S)
      → (c == sector_size) ≡ true
      → write_chunk port sector_size c l o i temp buffer s ≡ (
        (port.write_sector l (splice temp o buffer i c) s).0,
        splice temp o buffer i c,
        (port.write_sector l (splice temp o buffer i c) s).1,
      )
  unfolding write_chunk
  write_chunk-whole c l o i temp buffer s e =
      ap
        (λ b.
          write_back port sector_size c l o i temp buffer
            (if b then (some temp, s) else port.read_sector l s))
        e

  write_chunk-part :
      (c l o i : ℕ) (temp buffer old : Bytes) (s : S)
      → (c == sector_size) ≡ false
      → (port.read_sector l s).0 ≡ some old
      → write_chunk port sector_size c l o i temp buffer s ≡ (
        (port.write_sector l (splice old o buffer i c) (port.read_sector l s).1).0,
        splice old o buffer i c,
        (port.write_sector l (splice old o buffer i c) (port.read_sector l s).1).1,
      )
  unfolding write_chunk
  write_chunk-part c l o i temp buffer old s e q =
      ap
        (λ b.
          write_back port sector_size c l o i temp buffer
            (if b then (some temp, s) else port.read_sector l s))
        e
      ∙ ap (λ x. write_back port sector_size c l o i temp buffer (x, (port.read_sector l s).1)) q

  write_chunk-failed :
      (c l o i : ℕ) (temp buffer : Bytes) (s : S)
      → (c == sector_size) ≡ false
      → (port.read_sector l s).0 ≡ none
      → write_chunk port sector_size c l o i temp buffer s ≡ (false, temp, (port.read_sector l s).1)
  unfolding write_chunk
  write_chunk-failed c l o i temp buffer s e q =
      ap
        (λ b.
          write_back port sector_size c l o i temp buffer
            (if b then (some temp, s) else port.read_sector l s))
        e
      ∙ ap (λ x. write_back port sector_size c l o i temp buffer (x, (port.read_sector l s).1)) q

  write_chunk_lem :
      (c l o i : ℕ) (temp buffer : Bytes) (s : S)
      → o + c ≤ sector_size
      → 0 < c
      → (r : Bool × Bytes × S) × (write_chunk port sector_size c l o i temp buffer s ≡ r)
        × Stored (l * sector_size + o) c i buffer s r.0 r.2
  write_chunk_lem c l o i temp buffer s fits pos = elim (Bool-cases (c == sector_size)) [
    | inl e ↦
        let full : c ≡ sector_size = (==_iff _ _).0 e in
        (
          _,
          write_chunk-whole c l o i temp buffer s e,
          written c l o i temp buffer s s fits pos
              (λ x lt out. absurd (elim out [ inl a ↦ omega arith | inr a ↦ omega arith ]))
              (λ k x. refl),
        )
    | inr e ↦ elim (Option-cases (port.read_sector l s).0) [
      | inl q ↦ (_, write_chunk-failed c l o i temp buffer s e q, failed)
      | inr (old, q) ↦ (
        _,
        write_chunk-part c l o i temp buffer old s e q,
        written c l o i old buffer s _ fits pos (λ x lt out. w.read_holds l s old x q lt)
            (λ k x. w.read_keeps l s k x),
      )
    ]
  ]

  -- A sector and what is written behind it.
  then_rest :
      (n c l o i : ℕ) (buffer : Bytes) (s s₁ s₂ : S) (done : Bool)
      → c ≡ chunk_of n (sector_size - o)
      → o < sector_size
      → Stored (l * sector_size + o) c i buffer s true s₁
      → Stored ((l + 1) * sector_size) (n - c) (i + c) buffer s₁ done s₂
      → Stored (l * sector_size + o) n i buffer s done s₂
  then_rest n c l o i buffer s s₁ s₂ done ce ho f g =
      let small : (c ≤ n) × (o + c ≤ sector_size) = ground arith in
      let full : (n ≡ c) ⊎ (o + c ≡ sector_size) = ground arith in
      let row : (l + 1) * sector_size ≡ l * sector_size + sector_size = grind arith in
      record {
        stored = λ ok k lt. elim (Bool-cases (ltb k c)) [
          | inl e ↦
              let kc = ltb→lt k c e in
              g.beside ok (l * sector_size + o + k)
                (elim full [ inl a ↦ inl (omega arith) | inr a ↦ inl (omega arith) ])
              ∙ f.stored refl k kc
          | inr e ↦
              let kc : c ≤ k = ground arith in
              let here : i + c + (k - c) ≡ i + k = omega arith in
              let there : (l + 1) * sector_size + (k - c) ≡ l * sector_size + o + k = elim full [
                | inl a ↦ absurd (omega arith)
                | inr a ↦ omega arith
              ] in
              ap (flat w s₂) (sym there) ∙ g.stored ok (k - c) (omega arith) ∙ ap buffer here
        ];
        beside = λ ok a out.
            g.beside ok a (elim full [
              | inl q ↦ elim (Bool-cases (ltb a ((l + 1) * sector_size))) [
                | inl e ↦ inl (ltb→lt _ _ e)
                | inr e ↦ inr (ground arith)
              ]
              | inr q ↦ elim out [ inl p ↦ inl (omega arith) | inr p ↦ inr (omega arith) ]
            ])
            ∙ f.beside refl a (elim out [ inl p ↦ inl p | inr p ↦ inr (omega arith) ]);
      }

  write_loop-next :
      (fuel n l o i : ℕ) (temp buffer temp' : Bytes) (s s' : S)
      → (n == 0) ≡ false
      → l < word - 1
      → write_chunk port sector_size (chunk_of n (sector_size - o)) l o i temp buffer s
        ≡ (true, temp', s')
      → write_loop port sector_size (suc fuel) n l o i temp buffer s
        ≡ write_loop port sector_size fuel
            (n - chunk_of n (sector_size - o))
            (l + 1)
            0
            (i + chunk_of n (sector_size - o))
            temp'
            buffer
            s'
  unfolding write_loop
  write_loop-next fuel n l o i temp buffer temp' s s' e lt q =
      let next : add64 l 1 ≡ l + 1 = omega arith in
      let ok = ap (λ r. r.0) q in
      rw (e, ok, next, write_loop)
        (ap
          (λ r.
            write_loop port sector_size fuel (n - chunk_of n (sector_size - o)) (l + 1) 0
              (i + chunk_of n (sector_size - o)) r.1 buffer r.2)
          q)

  write_loop-failed :
      (fuel n l o i : ℕ) (temp buffer temp' : Bytes) (s s' : S)
      → (n == 0) ≡ false
      → write_chunk port sector_size (chunk_of n (sector_size - o)) l o i temp buffer s
        ≡ (false, temp', s')
      → write_loop port sector_size (suc fuel) n l o i temp buffer s ≡ some (false, s')
  unfolding write_loop
  write_loop-failed fuel n l o i temp buffer temp' s s' e q =
      let ok = ap (λ r. r.0) q in rw (e, ok, write_loop) (ap (λ r. some (false, r.2)) q)

  nothing_stored : {p n i : ℕ} {buffer : Bytes} {s : S} → n ≡ 0 → Stored p n i buffer s true s
  nothing_stored e = record { stored = λ _ k lt. absurd (omega arith); beside = λ _ a out. refl }

  write_loop_lem :
      (fuel n l o i : ℕ) (temp buffer : Bytes) (s : S)
      → o < sector_size
      → n < fuel
      → l + n < word
      → (done : Bool) × (s' : S) × (write_loop port sector_size fuel n l o i temp buffer s
          ≡ some (done, s'))
        × Stored (l * sector_size + o) n i buffer s done s'
  unfolding write_loop
  write_loop_lem zero n l o i temp buffer s ho hn hl = absurd (omega arith)
  write_loop_lem (suc fuel) n l o i temp buffer s ho hn hl = elim (Bool-cases (n == 0)) [
    | inl e ↦ (true, s, rw e refl, nothing_stored ((==_iff n 0).0 e))
    | inr e ↦
        let c = chunk_of n (sector_size - o) in
        let some_left : 0 < n = ground arith in
        let pos : 0 < c = ground arith in
        let fits : o + c ≤ sector_size = ground arith in
        let ((done, temp', s'), run, f) = write_chunk_lem c l o i temp buffer s fits pos in
        elim done
            as (λ d.
              write_chunk port sector_size c l o i temp buffer s ≡ (d, temp', s')
              → Stored (l * sector_size + o) c i buffer s d s'
              → (done : Bool) × (s'' : S) × (write_loop port sector_size (suc fuel) n l o i temp
                    buffer s
                  ≡ some (done, s''))
                × Stored (l * sector_size + o) n i buffer s done s'') [
                  | false ↦ λ run f. (
                    false,
                    s',
                    write_loop-failed fuel n l o i temp buffer temp' s s' e run,
                    failed,
                  )
                  | true ↦ λ run f.
                      let zero_off : (l + 1) * sector_size + 0 ≡ (l + 1) * sector_size =
                        omega arith in
                      let (ok, s'', run', g) =
                        write_loop_lem fuel (n - c) (l + 1) 0 (i + c) temp' buffer s' w.size_pos
                          (omega arith) (omega arith) in
                      (
                        ok,
                        s'',
                        write_loop-next fuel n l o i temp buffer temp' s s' e (omega arith) run
                            ∙ run',
                        then_rest n c l o i buffer s s' s'' ok refl ho f
                            (subst (λ z. Stored z (n - c) (i + c) buffer s' ok s'') zero_off g),
                      )
                ]
          run f
  ]

  -- If there is memory for a sector and the sectors of the bytes have a number, `write_bytes` ends.
  -- If it returns true, the `count` bytes of the disk from byte `offset` of sector `start` on are
  -- those of the buffer, and every other byte of the disk is as it was.
  pub write_bytes_lem :
      (temp : Bytes) (start offset count : ℕ) (buffer : Bytes) (s : S)
      → start + offset / sector_size + count < word
      → (done : Bool) × (s' : S) × (write_bytes port sector_size
            (some temp)
            start
            offset
            count
            buffer
            s
          ≡ some (done, s'))
        × Stored (start * sector_size + offset) count 0 buffer s done s'
  unfolding write_bytes
  write_bytes_lem temp start offset count buffer s h = elim (Bool-cases (count == 0)) [
    | inl e ↦ (true, s, rw e refl, nothing_stored ((==_iff count 0).0 e))
    | inr e ↦
        let sized : (sector_size == 0) ≡ false =
          ne→==_false sector_size 0 (omega (arith, w.size_pos)) in
        let first : add64 start (offset / sector_size) ≡ start + offset / sector_size =
          omega arith in
        let whole : (start + offset / sector_size) * sector_size + offset % sector_size
            ≡ start * sector_size + offset =
          grind (arith, div-add-mod offset sector_size) in
        let enter : write_bytes port sector_size (some temp) start offset count buffer s
            ≡ write_loop port sector_size (count + 1) count (start + offset / sector_size)
                (offset % sector_size) 0 temp buffer s =
          rw (e, sized, first) refl in
        let (done, s', run, f) =
          write_loop_lem (count + 1) count (start + offset / sector_size) (offset % sector_size) 0
            temp buffer s (mod-lt offset w.size_pos) (omega arith) h in
        (done, s', enter ∙ run, subst (λ z. Stored z count 0 buffer s done s') whole f)
  ]
