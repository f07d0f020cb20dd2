-- ===== src/Drivers/Fat32/File/Complete.antt =====
-- On a disk that works, `read` reads all that there is.
use native.Mathlib.Nat.{mul-le-mul_right, mod-lt, div-add-mod, mul_comm}
use mathlib.Core.Option.{some-injective}
use plum_os.Prelude.{
  ℕ, zero, suc, ◌+◌, ◌-◌, ◌*◌, ◌/◌, ◌%◌, ◌^◌, ◌≤◌, ◌<◌, min, ◌≡◌, refl, sym, ap, ◌∙◌, subst, inl,
  inr, true, false, ◌||◌, Option, none, some, arith, ltb, leb, ◌==◌, if◌then◌else◌, Bool-cases,
  add64,
}
use plum_os.Std.Memory.{Bytes}
use plum_os.Drivers.Disk.{splice}
use plum_os.Drivers.Disk.Device.{Device, IsDevice, Works}
use plum_os.Drivers.Fat32.{FileSystem, calculate_lba}
use plum_os.Drivers.Fat32.Table.{active_fat, get_next_cluster}
use plum_os.Drivers.Fat32.Table.Entries.{IsVolume, entry}
use plum_os.Drivers.Fat32.Table.Get.{next_cluster, get_next-keeps, get_next-Works, link-in_range}
use plum_os.Drivers.Fat32.File.{
  File, Transfer, walk, read_loop, read_walked, read_transfer, finish, read,
}
use plum_os.Drivers.Fat32.File.Chain.{cluster_at, going_on, follow, walk-keeps}
use plum_os.Drivers.Fat32.File.Round.{
  cluster_small, cluster_read, cluster_read_keeps, chunk, unread, complete, broken, chain_end, on,
  round,
}
use plum_os.Drivers.Fat32.File.Loop.{chunk_lem}

-- The chain goes on at least as far as byte `top`.
abbrev pub Reaches : FileSystem → (ℕ → ℕ) → ℕ → ℕ → Type 0
Reaches fs d first top =
    (m : ℕ) → m * fs.cluster_size < top → (c : ℕ) × (cluster_at fs d first m ≡ some c)

-- A cluster that the volume has.
abbrev pub InVolume : FileSystem → ℕ → Type 0
InVolume fs c = (2 ≤ c) × (c ≤ fs.max_cluster)

going_on-some : (o : Option ℕ) (k : ℕ) → going_on o ≡ some k → (o ≡ some k) × ((k == 0) ≡ false)
going_on-some none k h = cc
going_on-some (some n) k h = (ground arith, ground arith)

suc_mul : (m n : ℕ) → suc m * n ≡ m * n + n
suc_mul m n = grind arith

read_fails : {A : Type 0} {o : Option A} → (b : A) × (o ≡ some b) → o ≡ none → ⊥
read_fails (b, e) h = cc

none-some : {A : Type 0} {a : A} {o : Option A} → o ≡ none → o ≡ some a → ⊥
none-some h e = cc

ended : {o : Option ℕ} {j k : ℕ} → o ≡ some j → o ≡ some k → (j == 0) ≡ true → (k == 0) ≡ false → ⊥
ended h e a b = absurd (ground arith)

succ_le : (m n : ℕ) → suc m ≤ m + suc n
succ_le m n = omega arith

index_of :
    (p b wanted : ℕ) → 0 < wanted → (p + 0 ≡ p / b * b + p % b) × ((0 + p / b) * b < p + wanted)
index_of p b wanted pos =
    let plain : 0 + p / b ≡ p / b = omega arith in
    let at : p + 0 ≡ p / b * b + p % b = omega (arith, div-add-mod p b, mul_comm b (p / b)) in
    (at, subst (λ z. z * b < p + wanted) (sym plain) (omega arith))

zero_ne : {k : ℕ} → k ≡ 0 → (k == 0) ≡ false → ⊥
zero_ne e h = absurd (ground arith)

in_volume :
    (fs : FileSystem) (d : ℕ → ℕ) (c k : ℕ)
    → next_cluster fs d c ≡ some k
    → (k == 0) ≡ false
    → InVolume fs k
in_volume fs d c k h ne = elim (link-in_range fs.max_cluster (entry fs d (active_fat fs) c) h) [
  | inl z ↦ absurd (zero_ne z ne)
  | inr r ↦ r
]

module _ {S : Type 0} {dev : Device S} {fs : FileSystem} {sector_size : ℕ}
    (w : IsDevice dev sector_size) (v : IsVolume fs sector_size) (works : Works dev)
    (few : active_fat fs < fs.fat.bpb.num_of_fats) where
  -- The cluster behind cluster `m` of a chain that goes on.
  follows :
      (d : ℕ → ℕ) (first m c k : ℕ) (s : S)
      → w.disk s ≡ d
      → InVolume fs c
      → cluster_at fs d first m ≡ some c
      → cluster_at fs d first (suc m) ≡ some k
      → ((get_next_cluster dev fs c s).0 ≡ some k) × ((k == 0) ≡ false) × InVolume fs k
  follows d first m c k s same vol at next =
      let link = sym (ap (follow fs d) at) ∙ next in
      let (link', ne) = going_on-some (next_cluster fs d c) k link in
      let (lo, hi) = vol in
      (
        get_next-Works w v c s works lo hi few ∙ ap (λ z. next_cluster fs z c) same ∙ link',
        ne,
        in_volume fs d c k link' ne,
      )

  next_link :
      (d : ℕ → ℕ) (first m c : ℕ) (s : S) (p wanted copied o ch : ℕ)
      → w.disk s ≡ d
      → InVolume fs c
      → cluster_at fs d first m ≡ some c
      → Reaches fs d first (p + wanted)
      → p + copied ≡ m * fs.cluster_size + o
      → o + ch ≡ fs.cluster_size
      → copied + ch < wanted
      → (k : ℕ) × (cluster_at fs d first (suc m) ≡ some k)
        × ((get_next_cluster dev fs c s).0 ≡ some k)
        × ((k == 0) ≡ false)
        × InVolume fs k
  next_link d first m c s p wanted copied o ch same vol at reach e whole less =
      let (k, next) = reach (suc m) (omega (arith, suc_mul m fs.cluster_size)) in
      let (link, ne, vol') = follows d first m c k s same vol at next in (k, next, link, ne, vol')

  read_loop_complete :
      (fuel wanted copied o c m first p : ℕ) (buffer : Bytes) (s : S) (d : ℕ → ℕ)
      → w.disk s ≡ d
      → cluster_at fs d first m ≡ some c
      → InVolume fs c
      → Reaches fs d first (p + wanted)
      → p + copied ≡ m * fs.cluster_size + o
      → o < fs.cluster_size
      → copied < wanted
      → wanted < copied + fuel
      → (t : Transfer S) × (read_loop dev fs fuel fs.cluster_size wanted copied o c buffer s
          ≡ some t)
        × (t.returned ≡ some wanted)
  unfolding read_loop
  read_loop_complete zero wanted copied o c m first p buffer s d same at vol reach e lt more
        fuel_left =
      absurd (omega arith)
  read_loop_complete (suc fuel) wanted copied o c m first p buffer s d same at vol reach e lt more
        fuel_left =
      let (some_bytes, within, room, rest) = chunk_lem w v wanted copied o lt more in
      let ch = chunk w v wanted copied o in
      let s' = (cluster_read w v c s).1 in
      let s'' = (get_next_cluster dev fs c s').1 in
      let kept = cluster_read_keeps w v c s ∙ same in
      let kept' = get_next-keeps w v c s' ∙ kept in
      let goes = λ (less : copied + ch < wanted).
        next_link d first m c s' p wanted copied o ch kept vol at reach e (rest less) less in
      elim (round w v fuel wanted copied o c buffer s) [
        | unread unreadable run ↦
            absurd
              (read_fails (works (calculate_lba fs c) 0 (fs.cluster_size % 2 ^ 32) s) unreadable)
        | complete temp got full run ↦
            let all : copied + ch ≡ wanted = omega arith in
            (
              record {
                returned = some (copied + ch);
                moved = copied + ch;
                buffer = splice buffer copied temp o ch;
                state = s';
              },
              run,
              ap some all,
            )
        | broken temp got less no_link run ↦
            let (k, next, link, ne, vol') = goes less in absurd (none-some no_link link)
        | chain_end temp k got less link last run ↦
            let (j, next, link', ne, vol') = goes less in absurd (ended link link' last ne)
        | on temp j got less link' ne' run ↦
            let (k, next, link, ne, vol') = goes less in
            let same_link = some-injective _ _ (sym link ∙ link') in
            let next_place : p + (copied + ch) ≡ suc m * fs.cluster_size + 0 =
              omega (arith, suc_mul m fs.cluster_size, rest less) in
            let (t, run', done) =
              read_loop_complete fuel wanted (copied + ch) 0 j (suc m) first p
                (splice buffer copied temp o ch) s'' d kept' (next ∙ ap some same_link)
                (subst (InVolume fs) same_link vol') reach next_place (omega arith) less
                (omega arith) in
            (t, run ∙ run', done)
      ]

  walk_complete :
      (n m c first : ℕ) (s : S) (d : ℕ → ℕ) (top : ℕ)
      → w.disk s ≡ d
      → cluster_at fs d first m ≡ some c
      → InVolume fs c
      → Reaches fs d first top
      → (m + n) * fs.cluster_size < top
      → (k : ℕ) × ((walk dev fs n c s).0 ≡ some k)
        × (cluster_at fs d first (m + n) ≡ some k)
        × InVolume fs k
  unfolding walk
  walk_complete zero m c first s d top same at vol reach lt =
      let here : m + 0 ≡ m = omega arith in (c, refl, ap (cluster_at fs d first) here ∙ at, vol)
  walk_complete (suc n) m c first s d top same at vol reach lt =
      let b = fs.cluster_size in
      let low = mul-le-mul_right b (succ_le m n) in
      let (j, next) = reach (suc m) (omega arith) in
      let (link, ne, vol') = follows d first m c j s same vol at next in
      let s' = (get_next_cluster dev fs c s).1 in
      let on : suc m + n ≡ m + suc n = omega arith in
      let run : walk dev fs (suc n) c s ≡ walk dev fs n j s' = rw (link, walk) (rw ne refl) in
      let (k, got, place, vol'') =
        walk_complete n (suc m) j first s' d top (get_next-keeps w v c s ∙ same) next vol' reach
          (subst (λ z. z * b < top) (sym on) lt) in
      (k, ap (λ r. r.0) run ∙ got, ap (cluster_at fs d first) (sym on) ∙ place, vol'')

  -- The loop, from the cluster of the position on.
  read_from_complete :
      (wanted : ℕ) (f : File) (buffer : Bytes) (s : S)
      → f.cluster_size ≡ fs.cluster_size
      → 0 < wanted
      → InVolume fs f.first_cluster
      → Reaches fs (w.disk s) f.first_cluster (f.position + wanted)
      → (t : Transfer S) × (read_walked dev fs true f wanted buffer
            (walk dev fs (f.position / f.cluster_size) f.first_cluster s)
          ≡ some t)
        × (t.returned ≡ some wanted)
  unfolding read_walked
  read_from_complete wanted f buffer s e pos vol reach =
      let b = fs.cluster_size in
      let p = f.position in
      let (big, small) = cluster_small v in
      let (place, below) = index_of p b wanted pos in
      let (c, got, at, vol') =
        walk_complete (p / b) 0 f.first_cluster f.first_cluster s (w.disk s) (p + wanted) refl refl
          vol reach below in
      let r = walk dev fs (p / b) f.first_cluster s in
      let whole : r ≡ (some c, r.1) = ap (λ z. (z, r.1)) got in
      let plain : 0 + p / b ≡ p / b = omega arith in
      let (t, run, done) =
        read_loop_complete (wanted + 1) wanted 0 (p % b) c (p / b) f.first_cluster p buffer r.1
          (w.disk s) (walk-keeps w v (p / b) f.first_cluster s)
          (ap (cluster_at fs (w.disk s) f.first_cluster) (sym plain) ∙ at) vol' reach place
          (mod-lt p big) pos (omega arith) in
      (
        t,
        ap (λ z. read_walked dev fs true f wanted buffer (walk dev fs (p / z) f.first_cluster s)) e
            ∙ ap (read_walked dev fs true f wanted buffer) whole
            ∙ ap (λ z. read_loop dev fs (wanted + 1) z wanted 0 (p % z) c buffer r.1) e
            ∙ run,
        done,
      )

  -- On a disk that works, `read` with memory for a cluster returns as many bytes as are asked for, or
  -- as the file has behind the position, if those are less: for a file with the cluster size of the
  -- volume, whose first cluster the volume has, at a sector that is not below 2, and whose chain of
  -- clusters in an active table that the volume has reaches to its end.
  pub read_complete :
      (f : File) (buffer : Bytes) (size : ℕ) (s : S)
      → f.cluster_size ≡ fs.cluster_size
      → 2 ≤ f.start_lba
      → InVolume fs f.first_cluster
      → Reaches fs (w.disk s) f.first_cluster f.file.file_size
      → (r : Option ℕ × File × Bytes × S) × (read dev fs true f buffer size s ≡ some r)
        × (r.0 ≡ some (min size (f.file.file_size - f.position)))
  unfolding read finish read_transfer
  read_complete f buffer size s e lba vol reach =
      let (big, small) = cluster_small v in
      let pos : 0 < f.cluster_size = subst (λ z. 0 < z) (sym e) big in
      let good : (f.cluster_size == 0 || ltb f.start_lba 2) ≡ false = ground arith in
      elim (Bool-cases (size == 0 || leb f.file.file_size f.position)) [
        | inl past ↦
            let all : min size (f.file.file_size - f.position) ≡ 0 = ground arith in
            let t : Transfer S = record {
              returned = some 0;
              moved = 0;
              buffer = buffer;
              state = s;
            } in
            let run : read_transfer dev fs true f buffer size s ≡ some t = rw (good, past) refl in
            (
              (some 0, record f { position = add64 f.position 0 }, buffer, s),
              ap (finish dev fs f) run,
              ap some (sym all),
            )
        | inr more ↦
            let left = f.file.file_size - f.position in
            let wanted = if ltb size left then size else left in
            let all : wanted ≡ min size left = ground arith in
            let any : 0 < wanted = ground arith in
            let inside : f.position + wanted ≤ f.file.file_size = ground arith in
            let (t, run, done) =
              read_from_complete wanted f buffer s e any vol (λ m lt. reach m (omega arith)) in
            let run' : read_transfer dev fs true f buffer size s ≡ some t = rw (good, more) run in
            (
              (t.returned, record f { position = add64 f.position t.moved }, t.buffer, t.state),
              ap (finish dev fs f) run',
              done ∙ ap some all,
            )
      ]
