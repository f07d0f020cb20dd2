-- ===== src/Drivers/LittleEndian.antt =====
-- Numbers of 16 and 32 bits in memory, the low byte first, as the kernel's packed structures and
-- `reinterpret_cast` have them.
use plum_os.Prelude.{
  ℕ, zero, suc, ◌+◌, ◌*◌, ◌/◌, ◌%◌, ◌<◌, ◌≡◌, refl, sym, ap, ◌∙◌, List, [], ◌∷◌, arith, get_or,
}
use plum_os.Std.Memory.{Bytes}

abbrev pub le16 : Bytes → ℕ → ℕ
le16 b i = (b i + b (i + 1) * 256) % 65536

abbrev pub le32 : Bytes → ℕ → ℕ
le32 b i = (b i + b (i + 1) * 256 + b (i + 2) * 65536 + b (i + 3) * 16777216) % 4294967296

abbrev pub bytes16 : ℕ → List ℕ
bytes16 v = (v % 256) ∷ (v / 256 % 256) ∷ []

abbrev pub bytes32 : ℕ → List ℕ
bytes32 v = (v % 256) ∷ (v / 256 % 256) ∷ (v / 65536 % 256) ∷ (v / 16777216 % 256) ∷ []

-- The buffer that holds these bytes from its beginning on.
abbrev pub buffer_of : List ℕ → Bytes
buffer_of bs = λ x. get_or bs x 0

pub le32-bytes32 : (v : ℕ) → v < 4294967296 → le32 (buffer_of (bytes32 v)) 0 ≡ v
le32-bytes32 v h = omega arith

pub le16-bytes16 : (v : ℕ) → v < 65536 → le16 (buffer_of (bytes16 v)) 0 ≡ v
le16-bytes16 v h = omega arith

-- `n` bytes from index `i` on.
abbrev pub bytes_at : ℕ → Bytes → ℕ → List ℕ
bytes_at zero b i = []
bytes_at (suc n) b i = b i ∷ bytes_at n b (suc i)

-- It depends on four bytes.
pub le32-eq :
    (b c : Bytes) (i j : ℕ) → ((k : ℕ) → k < 4 → b (i + k) ≡ c (j + k)) → le32 b i ≡ le32 c j
le32-eq b c i j h =
    let zero_i : i + 0 ≡ i = omega arith in
    let zero_j : j + 0 ≡ j = omega arith in
    let h0 = sym (ap b zero_i) ∙ h 0 (omega arith) ∙ ap c zero_j in
    rw (h0, h 1 (omega arith), h 2 (omega arith), h 3 (omega arith)) refl

pub le32-eq_buffer :
    (b c : Bytes) (j : ℕ) → ((k : ℕ) → k < 4 → b k ≡ c (j + k)) → le32 b 0 ≡ le32 c j
le32-eq_buffer b c j h =
    le32-eq b c 0 j (λ k lt. let here : 0 + k ≡ k = omega arith in ap b here ∙ h k lt)
