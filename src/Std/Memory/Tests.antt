-- ===== src/Std/Memory/Tests.antt =====
-- Runs on a memory in which address `a` holds `a`.
use plum_os.Prelude.{ℕ, ◌+◌, ◌≤◌, ◌<◌, ◌≡◌, refl, ◌⊎◌, inr, some, arith}
use plum_os.Std.Memory.{Bytes, memmove, move_up, move_down, memcpy}
use plum_os.Std.Memory.Move.{memmove_lem}
use plum_os.Std.Memory.Copy.{memcpy_lem}

abbrev numbered : Bytes
numbered = λ a. a

-- The ranges from 10 and from 12 overlap.
overlap_up : memmove 12 10 4 numbered 14 ≡ 12
unfolding memmove move_up move_down
overlap_up = refl

memmove_lem_example :
    ((k : ℕ) → k < 4 → memmove 12 10 4 numbered (12 + k) ≡ 10 + k)
    × ((x : ℕ) → (x < 12) ⊎ (16 ≤ x) → memmove 12 10 4 numbered x ≡ x)
memmove_lem_example = memmove_lem 12 10 4 numbered

memcpy_lem_example :
    (m' : Bytes) × (memcpy 100 10 21 numbered ≡ some m')
    × ((k : ℕ) → k < 21 → m' (100 + k) ≡ 10 + k)
    × ((x : ℕ) → (x < 100) ⊎ (121 ≤ x) → m' x ≡ x)
memcpy_lem_example = memcpy_lem 100 10 21 numbered (inr (omega arith))
