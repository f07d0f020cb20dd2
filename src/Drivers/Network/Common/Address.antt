-- ===== src/Drivers/Network/Common/Address.antt =====
-- Byte order, and addresses as texts.
use plum_os.Prelude.{ℕ, ◌+◌, ◌*◌, ◌/◌, ◌%◌, ◌≤◌, ◌<◌, ◌≡◌, refl, true, false, arith, leb}
use plum_os.Drivers.Network.Common.{bswap_16, bswap_32, make_ipv4, write_num}

-- To swap the bytes twice gives the number back, for 16 and for 32 bits, and swapping a 32-bit
-- address made of four bytes gives the one made of them in the other order.
pub bswap-bswap :
    (x y a b c d : ℕ)
    → x < 65536
    → y < 4294967296
    → a < 256
    → b < 256
    → c < 256
    → d < 256
    → (bswap_16 (bswap_16 x) ≡ x)
      × (bswap_32 (bswap_32 y) ≡ y)
      × (bswap_32 (make_ipv4 a b c d) ≡ make_ipv4 d c b a)
unfolding bswap_16 bswap_32 make_ipv4
bswap-bswap x y a b c d hx hy ha hb hc hd = (omega arith, omega arith, omega arith)

-- A number of three digits of which the middle one is zero is written without it: as the number of
-- the two others.
pub write_num_short :
    (h d : ℕ) → 1 ≤ h → h ≤ 2 → d < 10 → write_num (h * 100 + d) ≡ write_num (h * 10 + d)
unfolding write_num
write_num_short h d lo hi lt =
    let a : leb 100 (h * 100 + d) ≡ true = ground arith in
    let b : (h * 100 + d) % 100 ≡ d = omega arith in
    let c : (h * 100 + d) / 100 ≡ h = omega arith in
    let e : leb 10 d ≡ false = ground arith in
    let a' : leb 100 (h * 10 + d) ≡ false = ground arith in
    let e' : leb 10 (h * 10 + d) ≡ true = ground arith in
    let b' : (h * 10 + d) % 10 ≡ d = omega arith in
    let c' : (h * 10 + d) / 10 ≡ h = omega arith in rw (a, b, c, e, a', e', b', c') refl
