-- ===== src/Drivers/Network/Common.antt =====
-- src/Drivers/Network/Common.cpp. A uint16_t, uint32_t or char is a number; a text is a list.
pub mod Checksum
pub mod Address
mod Tests
use plum_os.Prelude.{
  ℕ, zero, suc, ◌+◌, ◌-◌, ◌*◌, ◌/◌, ◌%◌, Bool, Option, none, some, List, [], ◌∷◌, ◌++◌, leb, ◌==◌,
  if◌then◌else◌, length, take,
}

unfoldable pub bswap_16 : ℕ → ℕ
bswap_16 x = x * 256 % 65536 + x / 256

unfoldable pub bswap_32 : ℕ → ℕ
bswap_32 x = x % 256 * 16777216 + x / 256 % 256 * 65536 + x / 65536 % 256 * 256 + x / 16777216 % 256

unfoldable pub make_ipv4 : ℕ → ℕ → ℕ → ℕ → ℕ
make_ipv4 a b c d = a * 16777216 + b * 65536 + c * 256 + d

-- `write_num`: the characters that it appends. b'0' is 48.
unfoldable pub write_num : ℕ → List ℕ
write_num v =
    let v' = if leb 100 v then v % 100 else v in
    let v'' = if leb 10 v' then v' % 10 else v' in
    (if leb 100 v then (48 + v / 100) ∷ [] else [])
    ++ ((if leb 10 v' then (48 + v' / 10) ∷ [] else []) ++ (48 + v'') ∷ [])

-- The text, with no terminator. b'.' is 46.
unfoldable pub ipv4_to_str : ℕ → Bool → List ℕ
unfolding bswap_32 write_num
ipv4_to_str ip is_reversed =
    let x = if is_reversed then bswap_32 ip else ip in
    write_num (x / 16777216 % 256)
    ++ (46
        ∷ (write_num (x / 65536 % 256)
            ++ (46 ∷ (write_num (x / 256 % 256) ++ (46 ∷ write_num (x % 256))))))

-- The loop over the bytes, two at a time with the low byte first, and a last one by itself; `sum` is
-- a uint32_t.
unfoldable pub add_words : List ℕ → ℕ → ℕ
add_words [] sum = sum
add_words (a ∷ []) sum = (sum + a) % 4294967296
add_words (a ∷ b ∷ rest) sum = add_words rest ((sum + (a + b * 256)) % 4294967296)

-- The loop that folds the sum, on fuel; `none`: the fuel ran out.
unfoldable pub fold_sum : ℕ → ℕ → Option ℕ
fold_sum zero sum = none
fold_sum (suc fuel) sum =
    let rest = fold_sum fuel (sum % 65536 + sum / 65536) in
    if sum / 65536 == 0 then some sum else rest

abbrev pub complement : Option ℕ → Option ℕ
complement none = none
complement (some sum) = some (65535 - sum)

-- `(uint16_t)~sum`, for a sum below 2^16.
unfoldable pub checksum : List ℕ → Option ℕ
checksum bytes = complement (fold_sum 4 (add_words bytes 0))

-- The header that is summed before the data.
abbrev pub pseudo_header : ℕ → ℕ → ℕ → ℕ → List ℕ
pseudo_header src_ip dst_ip protocol len =
    let bytes =
      λ (x : ℕ). (x % 256) ∷ (x / 256 % 256) ∷ (x / 65536 % 256) ∷ (x / 16777216 % 256) ∷ [] in
    bytes (bswap_32 src_ip)
    ++ (bytes (bswap_32 dst_ip)
        ++ (0 ∷ (protocol % 256) ∷ (bswap_16 len % 256) ∷ (bswap_16 len / 256 % 256) ∷ []))

abbrev pub not_zero : Option ℕ → Option ℕ
not_zero none = none
not_zero (some sum) = some (if sum == 0 then 65535 else sum)

-- The data are the bytes from `data` on, `len` of them; `malloc` is taken to succeed.
unfoldable pub ipv4_checksum : ℕ → ℕ → ℕ → List ℕ → Option ℕ
unfolding checksum
ipv4_checksum src_ip dst_ip protocol bytes = not_zero (
    checksum (
      take ((12 + length bytes) % 65536)
        (pseudo_header src_ip dst_ip protocol (length bytes % 65536) ++ bytes)))
