-- ===== src/Drivers/Network/Common/Tests.antt =====
-- Addresses and checksums.
use plum_os.Prelude.{ℕ, ◌+◌, ◌*◌, ◌%◌, ◌<◌, ◌≡◌, refl, false, some, [], ◌∷◌, arith}
use plum_os.Drivers.Network.Common.{make_ipv4, write_num, ipv4_to_str, checksum}
use plum_os.Drivers.Network.Common.Address.{write_num_short}
use plum_os.Drivers.Network.Common.Checksum.{word_sum, checksum_lem}

-- 105 and 15.
write_num_short_example : write_num (1 * 100 + 5) ≡ write_num (1 * 10 + 5)
write_num_short_example = write_num_short 1 5 (omega arith) (omega arith) (omega arith)

-- "10.105.0.1" is shown as "10.15.0.1".
shown : ipv4_to_str (make_ipv4 10 105 0 1) false ≡ ipv4_to_str (make_ipv4 10 15 0 1) false
unfolding ipv4_to_str make_ipv4
shown = refl

checksum_lem_example :
    (c : ℕ) × (checksum (255 ∷ 255 ∷ 1 ∷ []) ≡ some c)
    × (c < 65536)
    × ((word_sum (255 ∷ 255 ∷ 1 ∷ []) + c) % 65535 ≡ 0)
checksum_lem_example = checksum_lem (255 ∷ 255 ∷ 1 ∷ []) (omega arith)
