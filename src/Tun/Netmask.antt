-- ===== src/Tun/Netmask.antt =====
-- `prefixlen_to_netmask` of src/tun.py and src/tun_windows.py, and `_netmask_to_cidr` of
-- src/config.py, which undoes it.
use vpn_app_ai.Prelude.{
  ℕ, zero, suc, ◌-◌, ◌*◌, ◌/◌, ◌^◌, ◌≤◌, ◌<◌, ◌≡◌, refl, ◌∷◌, ◌++◌, Bool, true, false, ◌&&◌,
  nat_beq, bit_and, arith, inl, inr,
}
use vpn_app_ai.Prelude.Result.{Result-cases, ok, raise}
use vpn_app_ai.Prelude.Texts.{int_of, digits_onto, strip_left, strip_right, is_space}
use vpn_app_ai.Crypto.Pki.{Text}
use vpn_app_ai.Ipv4.{show_octet, split}
use vpn_app_ai.Config.Parse.{ones, count_ones, netmask_to_cidr}

-- `(0xffffffff << (32 - prefix)) & 0xffffffff`, of a prefix of at most 32
unfoldable pub mask_of : ℕ → ℕ
mask_of prefix = bit_and (0xffffffff * 2 ^ (32 - prefix)) 0xffffffff

-- The octets of a number below 2 ^ 32, with dots between them.
unfoldable pub prefixlen_to_netmask : ℕ → Text
unfolding mask_of
prefixlen_to_netmask prefix =
    let mask = mask_of prefix in
    show_octet (bit_and (mask / 2 ^ 24) 0xff)
    ++ (b'.' ∷ show_octet (bit_and (mask / 2 ^ 16) 0xff)
        ++ (b'.' ∷ show_octet (bit_and (mask / 2 ^ 8) 0xff)
            ++ (b'.' ∷ show_octet (bit_and mask 0xff))))

reads_back : ℕ → Bool
reads_back prefix = elim (netmask_to_cidr (prefixlen_to_netmask prefix)) [
  | ok n ↦ nat_beq n prefix
  | raise x ↦ false
]

reads_back-ok :
    (prefix : ℕ)
    → reads_back prefix ≡ true
    → netmask_to_cidr (prefixlen_to_netmask prefix) ≡ ok prefix
unfolding reads_back
reads_back-ok prefix h = elim (Result-cases (netmask_to_cidr (prefixlen_to_netmask prefix))) [
  | inl (n, e) ↦ ground (arith, e)
  | inr (x, e) ↦ ground (arith, e)
]

all_below : ℕ → Bool
all_below zero = true
all_below (suc n) = let rest = all_below n in reads_back n && rest

all_below_33 : all_below 33 ≡ true
unfolding all_below reads_back prefixlen_to_netmask netmask_to_cidr mask_of show_octet split
    count_ones ones int_of digits_onto strip_left strip_right is_space
all_below_33 = refl

all_below-reads_back : (n m : ℕ) → m < n → all_below n ≡ true → reads_back m ≡ true
unfolding all_below
all_below-reads_back zero m h e = absurd (omega arith)
all_below-reads_back (suc n) m h e = ground (arith, all_below-reads_back n m)

-- The netmask of a prefix length of 0 to 32 is read back as that prefix length.
pub netmask_to_cidr-prefixlen_to_netmask :
    (prefix : ℕ) → prefix ≤ 32 → netmask_to_cidr (prefixlen_to_netmask prefix) ≡ ok prefix
netmask_to_cidr-prefixlen_to_netmask prefix h =
    reads_back-ok prefix (all_below-reads_back 33 prefix (omega arith) all_below_33)
