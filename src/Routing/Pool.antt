-- ===== src/Routing/Pool.antt =====
-- `IpPool` of src/routing.py.
pub mod Soundness
pub mod Release
pub mod Range
use vpn_app_ai.Prelude.{
  ℕ, ◌+◌, ◌-◌, Bool, true, false, Option, none, some, List, [], ◌∷◌, ◌++◌, length, leb, ltb,
  nat_beq, nat_eq, list_eq, if◌then◌else◌,
}
use vpn_app_ai.Prelude.Result.{Result, ok, raise, value_error, ◌>>=◌}
use vpn_app_ai.Prelude.Dict.{Dict, lookup, insert, remove}
use vpn_app_ai.Prelude.NatSet.{member, discard, add, minimum, range}
use vpn_app_ai.Crypto.Pki.{Text}
use vpn_app_ai.Ipv4.{Network, show_ip, parse_ip, parse_network, broadcast, add_ip, sub_ip, split}

pub record IpPool : Type 0 where
  pub network : Network
  pub server_ip : Text
  pub available : List ℕ
  pub allocated : Dict Text ℕ
  pub allocated_by_int : Dict ℕ Text

-- ASCII whitespace.
abbrev is_space : ℕ → Bool
is_space c =
    if nat_beq c 32
    then true
    else (if leb 9 c then leb c 13 else (if leb 28 c then leb c 31 else false))

unfoldable pub lstrip : Text → Text
lstrip [] = []
lstrip (c ∷ cs) = let rest = lstrip cs in if is_space c then rest else c ∷ cs

unfoldable pub rstrip : Text → Text
rstrip [] = []
rstrip (c ∷ cs) = keep c (rstrip cs)
  where
    keep : ℕ → Text → Text
    keep c [] = if is_space c then [] else c ∷ []
    keep c (d ∷ ds) = c ∷ d ∷ ds

-- `text.strip()`
unfoldable pub strip : Text → Text
unfolding lstrip rstrip
strip text = lstrip (rstrip text)

abbrev pub dash : ℕ
dash = b'-'

-- First and last address of "first-last"; the unpacking wants two parts.
unfoldable pub explicit_range : List Text → Result (ℕ × ℕ)
unfolding strip
explicit_range (first ∷ last ∷ []) = do
  a ← parse_ip (strip first)
  b ← parse_ip (strip last)
  ok (a, b)
explicit_range _ = raise value_error

unfoldable pub default_range : Network → Result (ℕ × ℕ)
default_range n = do a ← add_ip n.base 2; b ← sub_ip (broadcast n) 1; ok (a, b)

-- `pool_range and "-" in pool_range`; None and the empty text are false.
unfoldable pub pool_bounds : Network → Text → Result (ℕ × ℕ)
unfolding explicit_range default_range
pool_bounds n pool_range =
    if member dash pool_range then explicit_range (split dash pool_range) else default_range n

unfoldable pub new_pool : Text → Text → Result IpPool
unfolding pool_bounds
new_pool subnet pool_range = do
  n ← parse_network subnet
  server ← add_ip n.base 1
  (first, last) ← pool_bounds n pool_range
  ok (record {
    network = n;
    server_ip = show_ip server;
    available = range first (last + 1 - first);
    allocated = [];
    allocated_by_int = [];
  })

-- `allocate` with the least free address.
abbrev pub give : IpPool → Text → ℕ → Option Text × IpPool
give p client_id ip = (
  some (show_ip ip),
  record p {
    available = discard ip p.available;
    allocated = insert client_id ip p.allocated;
    allocated_by_int = insert ip client_id p.allocated_by_int;
  },
)

unfoldable pub allocate : IpPool → Text → Option Text × IpPool
allocate p client_id = elim p.available [
  | [] ↦ (none, p)
  | x ∷ xs ↦ give p client_id (minimum x xs)
]

unfoldable pub release : IpPool → Text → IpPool
release p client_id = elim (lookup client_id p.allocated) [
  | none ↦ p
  | some ip ↦ record p {
    available = add ip p.available;
    allocated = remove client_id p.allocated;
    allocated_by_int = remove ip p.allocated_by_int;
  }
]

unfoldable pub allocated_count : IpPool → ℕ
allocated_count p = length p.allocated

unfoldable pub get_client_ip : IpPool → Text → Option Text
get_client_ip p client_id = elim (lookup client_id p.allocated) [
  | none ↦ none
  | some ip ↦ some (show_ip ip)
]

unfoldable pub get_client_id_by_ip : IpPool → Text → Result (Option Text)
get_client_id_by_ip p text = do ip ← parse_ip text; ok (lookup ip p.allocated_by_int)
