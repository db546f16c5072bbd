-- ===== src/Ipv4.antt =====
-- What the program uses of Python's `ipaddress`: IPv4 addresses as numbers and as dotted text, and
-- networks as a base address and a prefix length. A text is the list of its code points.
pub mod Shown
use vpn_app_ai.Prelude.{
  ℕ, zero, suc, ◌+◌, ◌-◌, ◌*◌, ◌/◌, ◌%◌, ◌^◌, Bool, true, false, ◌&&◌, ◌||◌, Option, none, some,
  List, [], ◌∷◌, ◌++◌, length, ltb, leb, nat_beq, if◌then◌else◌,
}
use vpn_app_ai.Prelude.Result.{Result, ok, raise, value_error, ◌>>=◌}
use vpn_app_ai.Crypto.Pki.{Text}

abbrev pub dot : ℕ
dot = b'.'

abbrev pub slash : ℕ
slash = b'/'

-- The decimal digits of a number below 1000.
unfoldable pub show_octet : ℕ → Text
show_octet n =
    if ltb n 10
    then (48 + n) ∷ []
    else if ltb n 100
    then (48 + n / 10) ∷ (48 + n % 10) ∷ []
    else (48 + n / 100) ∷ (48 + n / 10 % 10) ∷ (48 + n % 10) ∷ []

-- `str(IPv4Address(n))`
unfoldable pub show_ip : ℕ → Text
unfolding show_octet
show_ip n =
    show_octet (n / 2 ^ 24 % 256)
    ++ dot
      ∷ (show_octet (n / 2 ^ 16 % 256)
          ++ dot ∷ (show_octet (n / 2 ^ 8 % 256) ++ dot ∷ show_octet (n % 256)))

-- `text.split(sep)`: the first part, and the others.
unfoldable pub split : ℕ → Text → List Text
split sep [] = [] ∷ []
split sep (c ∷ cs) = push_char (nat_beq c sep) c (split sep cs)
  where
    push_char : Bool → ℕ → List Text → List Text
    push_char true c parts = [] ∷ parts
    push_char false c [] = (c ∷ []) ∷ []
    push_char false c (part ∷ parts) = (c ∷ part) ∷ parts

abbrev is_digit : ℕ → Bool
is_digit c = leb b'0' c && leb c b'9'

-- The number that decimal digits stand for, or none if some character is no digit.
unfoldable pub decimal_onto : ℕ → Text → Option ℕ
decimal_onto acc [] = some acc
decimal_onto acc (c ∷ cs) =
    let rest = decimal_onto (acc * 10 + (c - b'0')) cs in if is_digit c then rest else none

abbrev pub leading_zero : Text → Bool
leading_zero (c ∷ c' ∷ cs) = nat_beq c b'0'
leading_zero _ = false

-- One octet: one to three digits, no leading zero, at most 255.
unfoldable pub parse_octet : Text → Result ℕ
unfolding decimal_onto
parse_octet [] = raise value_error
parse_octet (c ∷ cs) =
    if ltb 3 (length (c ∷ cs)) || leading_zero (c ∷ cs)
    then raise value_error
    else elim (decimal_onto 0 (c ∷ cs)) [
      | none ↦ raise value_error
      | some n ↦ if ltb 255 n then raise value_error else ok n
    ]

unfoldable pub four_octets : List Text → Result ℕ
unfolding parse_octet
four_octets (a ∷ b ∷ c ∷ d ∷ []) = do
  w ← parse_octet a
  x ← parse_octet b
  y ← parse_octet c
  z ← parse_octet d
  ok (((w * 256 + x) * 256 + y) * 256 + z)
four_octets _ = raise value_error

-- `int(IPv4Address(text))`
unfoldable pub parse_ip : Text → Result ℕ
unfolding split four_octets
parse_ip text = four_octets (split dot text)

-- The prefix length whose netmask the number is, from `p` down.
unfoldable pub netmask_prefix : ℕ → ℕ → Option ℕ
netmask_prefix zero mask = if nat_beq mask 0 then some 0 else none
netmask_prefix (suc p) mask =
    let rest = netmask_prefix p mask in
    if nat_beq mask (2 ^ 32 - 2 ^ (32 - suc p)) then some (suc p) else rest

-- A netmask, or else a host mask.
unfoldable pub mask_prefix : ℕ → Result ℕ
unfolding netmask_prefix
mask_prefix mask = elim (netmask_prefix 32 mask) [
  | some p ↦ ok p
  | none ↦ elim (netmask_prefix 32 (2 ^ 32 - 1 - mask)) [ some p ↦ ok p | none ↦ raise value_error ]
]

-- What stands behind the slash: digits of at most 32, or a mask in dotted form.
unfoldable pub parse_prefix : Text → Result ℕ
unfolding parse_ip mask_prefix decimal_onto
parse_prefix [] = raise value_error
parse_prefix (c ∷ cs) = elim (decimal_onto 0 (c ∷ cs)) [
  | none ↦ (do mask ← parse_ip (c ∷ cs); mask_prefix mask)
  | some n ↦ if leb n 32 then ok n else raise value_error
]

-- An `IPv4Network` with `strict=False`: the host bits are dropped.
pub record Network : Type 0 where
  pub base : ℕ
  pub prefixlen : ℕ

abbrev pub host_count : ℕ → ℕ
host_count prefix = 2 ^ (32 - prefix)

abbrev pub make_network : ℕ → ℕ → Network
make_network ip prefix = record {
  base = ip / host_count prefix * host_count prefix;
  prefixlen = prefix;
}

unfoldable pub network_of_parts : List Text → Result Network
unfolding parse_prefix
network_of_parts (ip ∷ []) = do n ← parse_ip ip; ok (make_network n 32)
network_of_parts (ip ∷ prefix ∷ []) = do
  p ← parse_prefix prefix
  n ← parse_ip ip
  ok (make_network n p)
network_of_parts _ = raise value_error

unfoldable pub parse_network : Text → Result Network
unfolding split network_of_parts
parse_network text = network_of_parts (split slash text)

abbrev pub broadcast : Network → ℕ
broadcast n = n.base + host_count n.prefixlen - 1

-- `address + n` and `address - n`, which raise outside the range of addresses.
unfoldable pub add_ip : ℕ → ℕ → Result ℕ
add_ip ip n = if ltb (ip + n) (2 ^ 32) then ok (ip + n) else raise value_error

unfoldable pub sub_ip : ℕ → ℕ → Result ℕ
sub_ip ip n = if leb n ip then ok (ip - n) else raise value_error
