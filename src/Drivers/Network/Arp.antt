-- ===== src/Drivers/Network/Arp.antt =====
-- src/Drivers/Network/ARP: the cache of addresses, what a frame does to it, and the reply. The card
-- is its address and its MAC; frames to send are part of the results. The frame is a buffer.
pub mod Cache
mod Tests
use plum_os.Prelude.{
  ℕ, zero, suc, ◌+◌, not, Option, none, some, List, [], ◌∷◌, ltb, ◌==◌, if◌then◌else◌, replicate,
}
use plum_os.Std.Memory.{Bytes}
use plum_os.Drivers.LittleEndian.{le16, le32, bytes_at}
use plum_os.Drivers.Network.Common.{bswap_16, bswap_32}

pub record ArpEntry : Type 0 where
  pub ip : ℕ
  pub mac : List ℕ

pub record ArpHeader : Type 0 where
  pub hardware_type : ℕ
  pub protocol_type : ℕ
  pub mac_len : ℕ
  pub ip_len : ℕ
  pub opcode : ℕ
  pub sender_mac : List ℕ
  pub sender_ip : ℕ
  pub target_mac : List ℕ
  pub target_ip : ℕ

-- A frame that is sent: the MAC that it goes to, the type and what it carries.
pub record Sent : Type 0 where
  pub dst_mac : List ℕ
  pub ethertype : ℕ
  pub payload : ArpHeader

-- `(ARPHeader *)(frame + o)`
abbrev pub header_at : Bytes → ℕ → ArpHeader
header_at b o = record {
  hardware_type = le16 b o;
  protocol_type = le16 b (o + 2);
  mac_len = b (o + 4);
  ip_len = b (o + 5);
  opcode = le16 b (o + 6);
  sender_mac = bytes_at 6 b (o + 8);
  sender_ip = le32 b (o + 14);
  target_mac = bytes_at 6 b (o + 18);
  target_ip = le32 b (o + 24);
}

-- The loop over the cache, and the `push_back` behind it.
unfoldable pub remember : ArpEntry → List ArpEntry → List ArpEntry
remember entry [] = entry ∷ []
remember entry (e ∷ es) =
    let rest = remember entry es in
    if e.ip == entry.ip then record e { mac = entry.mac } ∷ es else e ∷ rest

-- The loop of `arp_lookup`.
unfoldable pub cached : List ArpEntry → ℕ → Option (List ℕ)
cached [] ip = none
cached (e ∷ es) ip = let rest = cached es ip in if e.ip == ip then some e.mac else rest

abbrev pub arp_ether_type : ℕ
arp_ether_type = bswap_16 2054

unfoldable pub reply_to : ℕ → List ℕ → Bytes → Sent
reply_to my_ip my_mac frame = record {
  dst_mac = bytes_at 6 frame 6;
  ethertype = arp_ether_type;
  payload = record {
    hardware_type = bswap_16 1;
    protocol_type = bswap_16 2048;
    mac_len = 6;
    ip_len = 4;
    opcode = bswap_16 2;
    sender_mac = my_mac;
    sender_ip = bswap_32 my_ip;
    target_mac = bytes_at 6 frame 6;
    target_ip = (header_at frame 14).sender_ip;
  };
}

-- The case for a request goes on into that for a reply.
unfoldable pub receive_arp : ℕ → List ℕ → Bytes → ℕ → List ArpEntry → List Sent × List ArpEntry
receive_arp my_ip my_mac frame len cache =
    let arp = header_at frame 14 in
    let entry : ArpEntry = record { ip = bswap_32 arp.sender_ip; mac = arp.sender_mac } in
    if ltb len 28
    then ([], cache)
    else if not (arp.target_ip == bswap_32 my_ip)
    then ([], cache)
    else if bswap_16 arp.opcode == 1
    then (reply_to my_ip my_mac frame ∷ [], remember entry cache)
    else if bswap_16 arp.opcode == 2
    then ([], remember entry cache)
    else ([], cache)

unfoldable pub send_arp : ℕ → List ℕ → ℕ → Sent
send_arp my_ip my_mac target_ip = record {
  dst_mac = replicate 6 255;
  ethertype = arp_ether_type;
  payload = record {
    hardware_type = bswap_16 1;
    protocol_type = bswap_16 2048;
    mac_len = 6;
    ip_len = 4;
    opcode = bswap_16 1;
    sender_mac = my_mac;
    sender_ip = bswap_32 my_ip;
    target_mac = replicate 6 0;
    target_ip = bswap_32 target_ip;
  };
}

-- The loop that waits, with `n` rounds left; `later` is the cache as interrupts leave it.
unfoldable pub wait_for : ℕ → ℕ → (ℕ → List ArpEntry) → ℕ → Option (List ℕ)
wait_for zero i later ip = none
wait_for (suc n) i later ip = elim (cached (later i) ip) [
  | none ↦ wait_for n (suc i) later ip
  | some mac ↦ some mac
]

unfoldable pub arp_lookup :
    ℕ → List ℕ → List ArpEntry → (ℕ → List ArpEntry) → ℕ → Option (List ℕ) × List Sent
arp_lookup my_ip my_mac cache later ip = elim (cached cache ip) [
  | some mac ↦ (some mac, [])
  | none ↦ (wait_for 100 0 later ip, send_arp my_ip my_mac ip ∷ [])
]
