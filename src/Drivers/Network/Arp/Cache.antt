-- ===== src/Drivers/Network/Arp/Cache.antt =====
-- The cache is a map, and a frame for this card teaches it the address of the sender.
use plum_os.Prelude.{
  ℕ, ◌≤◌, ◌<◌, ◌≡◌, refl, sym, ◌∙◌, subst, ◌≢◌, ◌⊎◌, inl, inr, true, false, none, some, List, [],
  ◌∷◌, arith, ltb, ◌==◌, if◌then◌else◌, ==_iff, ne→==_false, Bool-cases,
}
use plum_os.Std.Memory.{Bytes}
use plum_os.Drivers.LittleEndian.{le16, le32}
use plum_os.Drivers.Network.Common.{bswap_16, bswap_32}
use plum_os.Drivers.Network.Arp.{ArpEntry, Sent, header_at, remember, cached, reply_to, receive_arp}

cached-remember :
    (entry : ArpEntry) (cache : List ArpEntry) (ip : ℕ)
    → cached (remember entry cache) ip
      ≡ (if entry.ip == ip then some entry.mac else cached cache ip)
unfolding cached remember
cached-remember entry [] ip = refl
cached-remember entry (e ∷ es) ip = ground (arith, cached-remember entry es ip)

-- No address is in the cache twice.
abbrev pub Distinct : List ArpEntry → Type 0
Distinct [] = Unit {0}
Distinct (e ∷ es) = (cached es e.ip ≡ none) × Distinct es

remember-Distinct :
    (entry : ArpEntry) (cache : List ArpEntry) → Distinct cache → Distinct (remember entry cache)
unfolding cached remember
remember-Distinct entry [] d = (refl, tt)
remember-Distinct entry (e ∷ es) (none_there, d) = elim (Bool-cases (e.ip == entry.ip)) [
  | inl same ↦
      let run : remember entry (e ∷ es) ≡ record e { mac = entry.mac } ∷ es = rw same refl in
      subst Distinct (sym run) (none_there, d)
  | inr other ↦
      let run : remember entry (e ∷ es) ≡ e ∷ remember entry es = rw other refl in
      let apart : (entry.ip == e.ip) ≡ false = ground arith in
      let still : cached (remember entry es) e.ip ≡ none =
        cached-remember entry es e.ip ∙ rw apart none_there in
      subst Distinct (sym run) (still, remember-Distinct entry es d)
]

ne_one : {n : ℕ} → n ≡ 2 → (n == 1) ≡ false
ne_one e = ground arith

-- The frames that answer.
abbrev answer : ℕ → List ℕ → Bytes → List Sent
answer my_ip my_mac frame =
    if bswap_16 (header_at frame 14).opcode == 1 then reply_to my_ip my_mac frame ∷ [] else []

-- What a frame comes to.
pub record Received (my_ip : ℕ) (my_mac : List ℕ) (frame : Bytes) (cache : List ArpEntry)
    (r : List Sent × List ArpEntry) : Type 0 where
  pub learned :
      (ip : ℕ)
      → cached r.1 ip ≡ (
          if bswap_32 (header_at frame 14).sender_ip == ip
          then some (header_at frame 14).sender_mac
          else cached cache ip)
  pub distinct : Distinct cache → Distinct r.1
  pub sent :
      r.0
      ≡ (if bswap_16 (header_at frame 14).opcode == 1 then reply_to my_ip my_mac frame ∷ [] else [])

taken :
    (my_ip : ℕ) (my_mac : List ℕ) (frame : Bytes) (len : ℕ) (cache : List ArpEntry)
    → 28 ≤ len
    → (header_at frame 14).target_ip ≡ bswap_32 my_ip
    → (bswap_16 (header_at frame 14).opcode ≡ 1) ⊎ (bswap_16 (header_at frame 14).opcode ≡ 2)
    → (answer my_ip my_mac frame ≡ (
        if bswap_16 (header_at frame 14).opcode == 1 then reply_to my_ip my_mac frame ∷ [] else []))
      × (receive_arp my_ip my_mac frame len cache ≡ (
        answer my_ip my_mac frame,
        remember
            (record {
              ip = bswap_32 (header_at frame 14).sender_ip;
              mac = (header_at frame 14).sender_mac;
            })
            cache,
      ))
unfolding receive_arp
taken my_ip my_mac frame len cache long mine op =
    let a : ltb len 28 ≡ false = ground arith in
    let t : (le32 frame 38 == bswap_32 my_ip) ≡ true = (==_iff _ _).1 mine in
    (
      refl,
      elim op [
        | inl q ↦
            let o : (bswap_16 (le16 frame 20) == 1) ≡ true = (==_iff _ _).1 q in rw (a, t, o) refl
        | inr q ↦
            let o : (bswap_16 (le16 frame 20) == 1) ≡ false = ne_one q in
            let o' : (bswap_16 (le16 frame 20) == 2) ≡ true = (==_iff _ _).1 q in
            rw (a, t, o, o') refl
      ],
    )

refused :
    (my_ip : ℕ) (my_mac : List ℕ) (frame : Bytes) (len : ℕ) (cache : List ArpEntry)
    → (len < 28)
      ⊎ (((header_at frame 14).target_ip ≢ bswap_32 my_ip)
          ⊎ ((bswap_16 (header_at frame 14).opcode ≢ 1)
              × (bswap_16 (header_at frame 14).opcode ≢ 2)))
    → receive_arp my_ip my_mac frame len cache ≡ ([], cache)
unfolding receive_arp
refused my_ip my_mac frame len cache (inl short) =
    let a : ltb len 28 ≡ true = ground arith in rw a refl
refused my_ip my_mac frame len cache (inr (inl other)) =
    let t : (le32 frame 38 == bswap_32 my_ip) ≡ false = ne→==_false _ _ other in
    elim (Bool-cases (ltb len 28)) [ inl a ↦ rw a refl | inr a ↦ rw (a, t) refl ]
refused my_ip my_mac frame len cache (inr (inr (not_1, not_2))) =
    let o : (bswap_16 (le16 frame 20) == 1) ≡ false = ne→==_false _ _ not_1 in
    let o' : (bswap_16 (le16 frame 20) == 2) ≡ false = ne→==_false _ _ not_2 in
    elim (Bool-cases (ltb len 28)) [
      | inl a ↦ rw a refl
      | inr a ↦ elim (Bool-cases (le32 frame 38 == bswap_32 my_ip)) [
        | inl t ↦ rw (a, t, o, o') refl
        | inr t ↦ rw (a, t) refl
      ]
    ]

-- A frame with at least the 28 bytes of a header that asks for or tells the address of this card:
-- then the sender's address has the sender's MAC in the cache, every other address has what it had,
-- and a cache in which no address is twice has none twice; and one reply is sent for a request, and
-- nothing for an answer. Any other frame sends nothing and leaves the cache as it is.
pub receive_arp_lem :
    (my_ip : ℕ) (my_mac : List ℕ) (frame : Bytes) (len : ℕ) (cache : List ArpEntry)
    → ((28 ≤ len)
        → (header_at frame 14).target_ip ≡ bswap_32 my_ip
        → (bswap_16 (header_at frame 14).opcode ≡ 1) ⊎ (bswap_16 (header_at frame 14).opcode ≡ 2)
        → Received my_ip my_mac frame cache (receive_arp my_ip my_mac frame len cache))
      × ((len < 28)
            ⊎ (((header_at frame 14).target_ip ≢ bswap_32 my_ip)
                ⊎ ((bswap_16 (header_at frame 14).opcode ≢ 1)
                    × (bswap_16 (header_at frame 14).opcode ≢ 2)))
          → receive_arp my_ip my_mac frame len cache ≡ ([], cache))
unfolding receive_arp
receive_arp_lem my_ip my_mac frame len cache = (
  λ long mine op.
      let r = receive_arp my_ip my_mac frame len cache in
      let (to_send, run) = taken my_ip my_mac frame len cache long mine op in
      let arp = header_at frame 14 in
      let entry : ArpEntry = record { ip = bswap_32 arp.sender_ip; mac = arp.sender_mac } in
      subst (Received my_ip my_mac frame cache) (sym run) (record {
        learned = λ ip. cached-remember entry cache ip;
        distinct = remember-Distinct entry cache;
        sent = to_send;
      }),
  refused my_ip my_mac frame len cache,
)
