-- ===== src/Drivers/Network/Arp/Tests.antt =====
-- A request for the card with the address 10.0.0.1, from 10.0.0.2.
use plum_os.Prelude.{
  ℕ, ◌≤◌, ◌<◌, ◌≡◌, refl, ◌≢◌, ◌⊎◌, ◌||◌, some, List, [], ◌∷◌, ◌==◌, if◌then◌else◌, replicate,
}
use plum_os.Std.Memory.{Bytes}
use plum_os.Drivers.Network.Common.{bswap_16, bswap_32}
use plum_os.Drivers.Network.Arp.{header_at, remember, receive_arp, cached}
use plum_os.Drivers.Network.Arp.Cache.{Received, receive_arp_lem}

abbrev request : Bytes
request = λ x.
    if x == 21 || x == 41 then 1 else if x == 28 || x == 38 then 10 else if x == 31 then 2 else 0

abbrev card_mac : List ℕ
card_mac = 1 ∷ 2 ∷ 3 ∷ 4 ∷ 5 ∷ 6 ∷ []

receive_arp_lem_example :
    ((28 ≤ 42)
      → (header_at request 14).target_ip ≡ bswap_32 167772161
      → (bswap_16 (header_at request 14).opcode ≡ 1) ⊎ (bswap_16 (header_at request 14).opcode ≡ 2)
      → Received 167772161 card_mac request [] (receive_arp 167772161 card_mac request 42 []))
    × ((42 < 28)
          ⊎ (((header_at request 14).target_ip ≢ bswap_32 167772161)
              ⊎ ((bswap_16 (header_at request 14).opcode ≢ 1)
                  × (bswap_16 (header_at request 14).opcode ≢ 2)))
        → receive_arp 167772161 card_mac request 42 [] ≡ ([], []))
receive_arp_lem_example = receive_arp_lem 167772161 card_mac request 42 []

learned : cached (receive_arp 167772161 card_mac request 42 []).1 167772162 ≡ some (replicate 6 0)
unfolding receive_arp cached bswap_32 bswap_16 remember
learned = refl
