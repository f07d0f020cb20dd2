-- ===== src/Drivers/Fat32/File/Loop.antt =====
-- The loop of `read` copies the bytes of the file, a chunk a round, and ends.
use mathlib.Core.Option.{some-injective}
use plum_os.Prelude.{
  ℕ, zero, suc, ◌+◌, ◌-◌, ◌*◌, ◌≤◌, ◌<◌, ◌≡◌, refl, sym, ap, ◌∙◌, subst, ◌⊎◌, inl, inr, Option,
  none, some, arith,
}
use plum_os.Std.Memory.{Bytes}
use plum_os.Drivers.Disk.{splice}
use plum_os.Drivers.Disk.Read.{splice_in, splice_out}
use plum_os.Drivers.Disk.Device.{Device, IsDevice}
use plum_os.Drivers.Fat32.{FileSystem}
use plum_os.Drivers.Fat32.Table.{get_next_cluster}
use plum_os.Drivers.Fat32.Table.Entries.{IsVolume}
use plum_os.Drivers.Fat32.Table.Get.{next_cluster, get_next-keeps, get_next-gives}
use plum_os.Drivers.Fat32.File.{Transfer, partial, read_loop}
use plum_os.Drivers.Fat32.File.Chain.{cluster_at, IsByte, IsByte-in_cluster, cluster_at-next}
use plum_os.Drivers.Fat32.File.Round.{
  cluster_read, cluster_read_lem, cluster_read_keeps, chunk, unread, complete, broken, chain_end,
  on, round,
}

split : (k n : ℕ) → (k < n) ⊎ (n ≤ k)
split k n = ground arith

suc_mul : (m n : ℕ) → suc m * n ≡ m * n + n
suc_mul m n = grind arith

partial-none : (n : ℕ) → partial n ≡ none → n ≡ 0
partial-none n h = ground arith

partial-some : (n k : ℕ) → partial n ≡ some k → n ≡ k
partial-some n k h = ground arith

module _ {S : Type 0} {dev : Device S} {fs : FileSystem} {sector_size : ℕ}
    (w : IsDevice dev sector_size) (v : IsVolume fs sector_size) where
  -- How a read from position `p` of the file ends that has come to byte `copied` of `wanted`.
  pub record Copied (d : ℕ → ℕ) (first p wanted copied : ℕ) (buffer : Bytes) (t : Transfer S)
      : Type 0 where
    pub same_disk : w.disk t.state ≡ d
    pub nothing : t.returned ≡ none → t.moved ≡ 0
    pub moves : (n : ℕ) → t.returned ≡ some n → (t.moved ≡ n) × (copied ≤ n) × (n ≤ wanted)
    pub bytes :
        (n k : ℕ)
        → t.returned ≡ some n
        → copied ≤ k
        → k < n
        → IsByte fs d sector_size first (p + k) (t.buffer k)
    pub beside : (n k : ℕ) → t.returned ≡ some n → (k < copied) ⊎ (n ≤ k) → t.buffer k ≡ buffer k

  pub chunk_lem :
      (wanted copied o : ℕ)
      → o < fs.cluster_size
      → copied < wanted
      → (0 < chunk w v wanted copied o)
        × (copied + chunk w v wanted copied o ≤ wanted)
        × (o + chunk w v wanted copied o ≤ fs.cluster_size)
        × (copied + chunk w v wanted copied o < wanted
            → o + chunk w v wanted copied o ≡ fs.cluster_size)
  chunk_lem wanted copied o lt more = (ground arith, ground arith, ground arith, λ h. ground arith)

  -- The bytes of a round w v are those of the file.
  chunk_bytes :
      (wanted copied o c m first p : ℕ) (buffer temp : Bytes) (s : S) (d : ℕ → ℕ) (k : ℕ)
      → w.disk s ≡ d
      → (cluster_read w v c s).0 ≡ some temp
      → cluster_at fs d first m ≡ some c
      → p + copied ≡ m * fs.cluster_size + o
      → o + chunk w v wanted copied o ≤ fs.cluster_size
      → copied ≤ k
      → k < copied + chunk w v wanted copied o
      → IsByte fs d sector_size first
          (p + k)
          (splice buffer copied temp o (chunk w v wanted copied o) k)
  chunk_bytes wanted copied o c m first p buffer temp s d k same got at e room lo hi =
      let i = k - copied in
      let here : copied + i ≡ k = omega arith in
      let ch = chunk w v wanted copied o in
      let less : i < ch = omega arith in
      let inside : o + i < fs.cluster_size = omega arith in
      IsByte-in_cluster fs d sector_size first m c (o + i) (splice buffer copied temp o ch k)
        (p + k) at inside (omega arith)
        (ap (splice buffer copied temp o ch) (sym here)
          ∙ splice_in buffer temp copied o ch i less
          ∙ cluster_read_lem w v c (o + i) s d same got inside)

  -- A loop that ends after byte `n`.
  ends :
      (d : ℕ → ℕ) (first p wanted copied n : ℕ) (buffer buffer' : Bytes) (r : Option ℕ) (s : S)
      → w.disk s ≡ d
      → (r ≡ none → n ≡ 0)
      → ((k : ℕ) → r ≡ some k → n ≡ k)
      → copied ≤ n
      → n ≤ wanted
      → ((k : ℕ) → copied ≤ k → k < n → IsByte fs d sector_size first (p + k) (buffer' k))
      → ((k : ℕ) → (k < copied) ⊎ (n ≤ k) → buffer' k ≡ buffer k)
      → Copied d first p wanted copied buffer
          (record { returned = r; moved = n; buffer = buffer'; state = s })
  ends d first p wanted copied n buffer buffer' r s same no_result result lo hi bytes beside =
      record {
        same_disk = same;
        nothing = no_result;
        moves = λ k e. (
          result k e,
          subst (λ z. copied ≤ z) (result k e) lo,
          subst (λ z. z ≤ wanted) (result k e) hi,
        );
        bytes = λ k j e a b. bytes j a (subst (λ z. j < z) (sym (result k e)) b);
        beside = λ k j e out. beside j (subst (λ z. (j < copied) ⊎ (z ≤ j)) (sym (result k e)) out);
      }

  -- A round w v that goes on.
  goes_on :
      (d : ℕ → ℕ) (first p wanted copied next : ℕ) (buffer buffer' : Bytes) (t : Transfer S)
      → copied ≤ next
      → ((k : ℕ) → copied ≤ k → k < next → IsByte fs d sector_size first (p + k) (buffer' k))
      → ((k : ℕ) → (k < copied) ⊎ (next ≤ k) → buffer' k ≡ buffer k)
      → Copied d first p wanted next buffer' t
      → Copied d first p wanted copied buffer t
  goes_on d first p wanted copied next buffer buffer' t le bytes beside q = record {
    same_disk = q.same_disk;
    nothing = q.nothing;
    moves = λ n e. (
      let (a, b, c) = q.moves n e in a,
      let (a, b, c) = q.moves n e in omega arith,
      let (a, b, c) = q.moves n e in c,
    );
    bytes = λ n k e a b. elim (split k next) [
      | inl before ↦
          subst (IsByte fs d sector_size first (p + k)) (sym (q.beside n k e (inl before)))
            (bytes k a before)
      | inr after ↦ q.bytes n k e after b
    ];
    beside = λ n k e out.
        let (a, b, c) = q.moves n e in
        q.beside n k e (elim out [ inl lt ↦ inl (omega arith) | inr gt ↦ inr gt ])
        ∙ beside k (elim out [ inl lt ↦ inl lt | inr gt ↦ inr (omega arith) ]);
  }

  pub read_loop_lem :
      (fuel wanted copied o c m first p : ℕ) (buffer : Bytes) (s : S) (d : ℕ → ℕ)
      → w.disk s ≡ d
      → cluster_at fs d first m ≡ some c
      → p + copied ≡ m * fs.cluster_size + o
      → o < fs.cluster_size
      → copied < wanted
      → wanted < copied + fuel
      → (t : Transfer S) × (read_loop dev fs fuel fs.cluster_size wanted copied o c buffer s
          ≡ some t)
        × Copied d first p wanted copied buffer t
  unfolding read_loop
  read_loop_lem zero wanted copied o c m first p buffer s d same at e lt more fuel_left =
      absurd (omega arith)
  read_loop_lem (suc fuel) wanted copied o c m first p buffer s d same at e lt more fuel_left =
      let (some_bytes, within, room, rest) = chunk_lem wanted copied o lt more in
      let ch = chunk w v wanted copied o in
      let s' = (cluster_read w v c s).1 in
      let kept = cluster_read_keeps w v c s ∙ same in
      let s'' = (get_next_cluster dev fs c s').1 in
      let kept' = get_next-keeps w v c s' ∙ kept in
      elim (round w v fuel wanted copied o c buffer s) [
        | unread unreadable run ↦ (
          record { returned = partial copied; moved = copied; buffer = buffer; state = s' },
          run,
          ends d first p wanted copied copied buffer buffer (partial copied) s' kept
              (partial-none copied) (partial-some copied) (omega arith) (omega arith)
              (λ k a b. absurd (omega arith)) (λ k out. refl),
        )
        | complete temp got full run ↦
            let buffer' = splice buffer copied temp o ch in
            (
              record {
                returned = some (copied + ch);
                moved = copied + ch;
                buffer = buffer';
                state = s';
              },
              run,
              ends d first p wanted copied (copied + ch) buffer buffer' (some (copied + ch)) s' kept
                  (λ h. cc) (λ k h. some-injective _ _ h) (omega arith) (omega arith)
                  (λ k a b.
                    chunk_bytes wanted copied o c m first p buffer temp s d k same got at e room a
                      b)
                  (λ k out. splice_out buffer temp copied o ch k out),
            )
        | broken temp got less no_link run ↦
            let buffer' = splice buffer copied temp o ch in
            (
              record {
                returned = partial (copied + ch);
                moved = copied + ch;
                buffer = buffer';
                state = s'';
              },
              run,
              ends d first p wanted copied (copied + ch) buffer buffer' (partial (copied + ch)) s''
                  kept' (partial-none (copied + ch)) (partial-some (copied + ch)) (omega arith)
                  (omega arith)
                  (λ k a b.
                    chunk_bytes wanted copied o c m first p buffer temp s d k same got at e room a
                      b)
                  (λ k out. splice_out buffer temp copied o ch k out),
            )
        | chain_end temp k got less link last run ↦
            let buffer' = splice buffer copied temp o ch in
            (
              record { returned = none; moved = 0; buffer = buffer'; state = s'' },
              run,
              record {
                same_disk = kept';
                nothing = λ h. refl;
                moves = λ n h. cc;
                bytes = λ n k h. cc;
                beside = λ n k h. cc;
              },
            )
        | on temp k got less link ne run ↦
            let buffer' = splice buffer copied temp o ch in
            let follows =
              ap (λ z. next_cluster fs z c) (sym kept) ∙ get_next-gives w v c s' k link in
            let whole = rest less in
            let next_place : p + (copied + ch) ≡ suc m * fs.cluster_size + 0 =
              omega (arith, suc_mul m fs.cluster_size) in
            let (t, run', done) =
              read_loop_lem fuel wanted (copied + ch) 0 k (suc m) first p buffer' s'' d kept'
                (cluster_at-next fs d first m c k at follows ne) next_place (omega arith) less
                (omega arith) in
            (
              t,
              run ∙ run',
              goes_on d first p wanted copied (copied + ch) buffer buffer' t (omega arith)
                  (λ j a b.
                    chunk_bytes wanted copied o c m first p buffer temp s d j same got at e room a
                      b)
                  (λ j out. splice_out buffer temp copied o ch j out) done,
            )
      ]
