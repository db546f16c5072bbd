-- ===== src/Routing/Pool/Range.antt =====
-- The addresses of an `IpPool` of src/routing.py are addresses: none is 2 ^ 32 or more.
use native.Mathlib.Omega.{pow_step}
use vpn_app_ai.Prelude.{
  ℕ, zero, suc, length, ◌||◌, ◌+◌, ◌-◌, ◌*◌, ◌/◌, ◌^◌, ◌≤◌, ◌<◌, ◌≡◌, sym, ap, subst, ◌∙◌, inl, inr,
  true, some, List, [], ◌∷◌, ltb, leb, nat_eq, list_eq, arith, Bool-cases, Option-cases,
}
use vpn_app_ai.Prelude.Result.{ok, >>=-eq-ok}
use vpn_app_ai.Prelude.Dict.{lookup, lookup-insert, lookup-remove}
use vpn_app_ai.Prelude.NatSet.{member, member-discard, member-add, range, member-range}
use vpn_app_ai.Crypto.Pki.{Text}
use vpn_app_ai.Ipv4.{
  Network, make_network, split, slash, dot, decimal_onto, leading_zero, parse_octet, four_octets,
  parse_ip, netmask_prefix, mask_prefix, parse_prefix, host_count, network_of_parts, parse_network,
  broadcast, add_ip, sub_ip,
}
use vpn_app_ai.Routing.Pool.{
  IpPool, strip, dash, explicit_range, default_range, pool_bounds, give, release, new_pool,
}

pub record IsInRange (p : IpPool) : Type 0 where
  pub free : (n : ℕ) → member n p.available ≡ true → n < 2 ^ 32
  pub held : (id : Text) (n : ℕ) → lookup id p.allocated ≡ some n → n < 2 ^ 32

pub give-IsInRange :
    (p : IpPool) (id : Text) (n : ℕ)
    → IsInRange p
    → member n p.available ≡ true
    → IsInRange (give p id n).1
give-IsInRange p id n h m = record {
  free = λ n' e. ground (arith, e, h.free n', member-discard n n' p.available);
  held =
      λ id' n' e. ground (arith, e, h.held id' n', h.free n m, lookup-insert id id' n p.allocated);
}

pub release-IsInRange : (p : IpPool) (id : Text) → IsInRange p → IsInRange (release p id)
unfolding release
release-IsInRange p id h = elim (Option-cases (lookup id p.allocated)) [
  | inl absent ↦ rw (absent, release) h
  | inr (n, e) ↦
      rw (e, release)
        (record {
          free = λ n' f. ground (arith, f, h.free n', h.held id n e, member-add n n' p.available);
          held = λ id' n' f. ground (arith, f, h.held id' n', lookup-remove id id' p.allocated);
        })
]

parse_octet-lt : (text : Text) (n : ℕ) → parse_octet text ≡ ok n → n < 256
unfolding parse_octet
parse_octet-lt [] n e = cc e
parse_octet-lt (c ∷ cs) n e = ground (
  arith,
  e,
  Option-cases (decimal_onto 0 (c ∷ cs)),
  Bool-cases (ltb 3 (length (c ∷ cs)) || leading_zero (c ∷ cs)),
)

four_octets-lt : (parts : List Text) (n : ℕ) → four_octets parts ≡ ok n → n < 2 ^ 32
unfolding four_octets
four_octets-lt (a ∷ b ∷ c ∷ d ∷ []) n e =
    let (w, ew, e1) = >>=-eq-ok (parse_octet a) _ e in
    let (x, ex, e2) = >>=-eq-ok (parse_octet b) _ e1 in
    let (y, ey, e3) = >>=-eq-ok (parse_octet c) _ e2 in
    let (z, ez, e4) = >>=-eq-ok (parse_octet d) _ e3 in
    let w_lt = parse_octet-lt a w ew in
    let x_lt = parse_octet-lt b x ex in
    let y_lt = parse_octet-lt c y ey in let z_lt = parse_octet-lt d z ez in ground (arith, e4)
four_octets-lt [] n e = cc e
four_octets-lt (a ∷ []) n e = cc e
four_octets-lt (a ∷ b ∷ []) n e = cc e
four_octets-lt (a ∷ b ∷ c ∷ []) n e = cc e
four_octets-lt (a ∷ b ∷ c ∷ d ∷ f ∷ more) n e = cc e

pub parse_ip-lt : (text : Text) (n : ℕ) → parse_ip text ≡ ok n → n < 2 ^ 32
unfolding parse_ip
parse_ip-lt text n e = four_octets-lt (split dot text) n e

netmask_prefix-le : (p mask q : ℕ) → netmask_prefix p mask ≡ some q → q ≤ p
unfolding netmask_prefix
netmask_prefix-le zero mask q e = ground (arith, e)
netmask_prefix-le (suc p) mask q e = ground (arith, e, netmask_prefix-le p mask q)

mask_prefix-le : (mask q : ℕ) → mask_prefix mask ≡ ok q → q ≤ 32
unfolding mask_prefix
mask_prefix-le mask q e = elim (Option-cases (netmask_prefix 32 mask)) [
  | inr (p, f) ↦ ground (arith, e, f, netmask_prefix-le 32 mask p f)
  | inl f ↦ elim (Option-cases (netmask_prefix 32 (2 ^ 32 - 1 - mask))) [
    | inr (p, g) ↦ ground (arith, e, f, g, netmask_prefix-le 32 (2 ^ 32 - 1 - mask) p g)
    | inl g ↦ ground (arith, e, f, g)
  ]
]

parse_prefix-le : (text : Text) (q : ℕ) → parse_prefix text ≡ ok q → q ≤ 32
unfolding parse_prefix
parse_prefix-le [] q e = cc e
parse_prefix-le (c ∷ cs) q e = elim (Option-cases (decimal_onto 0 (c ∷ cs))) [
  | inr (n, f) ↦ ground (arith, e, f)
  | inl f ↦
      let (mask, there, e') =
        >>=-eq-ok (parse_ip (c ∷ cs)) mask_prefix (rw (f, parse_prefix) at e) in
      mask_prefix-le mask q e'
]

pow_split : (a b : ℕ) → 2 ^ a * 2 ^ b ≡ 2 ^ (a + b)
pow_split zero b =
    let same : 2 ^ b ≡ 2 ^ (0 + b) = ap (λ (t : ℕ). 2 ^ t) (omega arith) in omega (arith, same)
pow_split (suc a) b =
    let same : 2 ^ suc (a + b) ≡ 2 ^ (suc a + b) = ap (λ (t : ℕ). 2 ^ t) (omega arith) in
    let twice : 2 ^ suc a ≡ 2 * 2 ^ a = pow_step 2 a in
    let twice' : 2 ^ suc (a + b) ≡ 2 * 2 ^ (a + b) = pow_step 2 (a + b) in
    let doubled : 2 * 2 ^ a * 2 ^ b ≡ 2 * (2 ^ a * 2 ^ b) = omega arith in
    ap (λ (t : ℕ). t * 2 ^ b) twice
    ∙ doubled
    ∙ ap (λ (t : ℕ). 2 * t) (pow_split a b)
    ∙ sym twice'
    ∙ same

below_multiple : (q k h : ℕ) → q * h < k * h → q * h + h ≤ k * h
below_multiple q zero h lt = omega (arith, lt)
below_multiple zero (suc k) h lt = omega arith
below_multiple (suc q) (suc k) h lt = omega (arith, below_multiple q k h (omega (arith, lt)))

-- The addresses of a network end at 2 ^ 32 or before.
Fits : Network → Type 0
Fits n = n.base + host_count n.prefixlen ≤ 2 ^ 32

make_network-Fits : (ip p : ℕ) → ip < 2 ^ 32 → p ≤ 32 → Fits (make_network ip p)
unfolding Fits
make_network-Fits ip p lt le =
    let h : ℕ = 2 ^ (32 - p) in
    let whole : 2 ^ p * h ≡ 2 ^ 32 =
      pow_split p (32 - p) ∙ ap (λ (t : ℕ). 2 ^ t) {y = 32} (omega (arith, le)) in
    omega (arith, whole, below_multiple (ip / h) (2 ^ p) h (omega (arith, whole, lt)))

parse_network-Fits : (text : Text) (n : Network) → parse_network text ≡ ok n → Fits n
unfolding parse_network network_of_parts
parse_network-Fits text n e = of_parts (split slash text) e
  where
    of_parts : (parts : List Text) → network_of_parts parts ≡ ok n → Fits n
    of_parts [] q = cc q
    of_parts (ip ∷ []) q =
        let (m, there, q') = >>=-eq-ok (parse_ip ip) _ q in
        let fits = make_network-Fits m 32 (parse_ip-lt ip m there) (omega arith) in
        subst Fits (cc q') fits
    of_parts (ip ∷ prefix ∷ []) q =
        let (p, there, q1) = >>=-eq-ok (parse_prefix prefix) _ q in
        let (m, found, q2) = >>=-eq-ok (parse_ip ip) _ q1 in
        let fits =
          make_network-Fits m p (parse_ip-lt ip m found) (parse_prefix-le prefix p there) in
        subst Fits (cc q2) fits
    of_parts (a ∷ b ∷ c ∷ more) q = cc q

explicit_range-lt : (parts : List Text) (b : ℕ × ℕ) → explicit_range parts ≡ ok b → b.1 < 2 ^ 32
unfolding explicit_range
explicit_range-lt [] b e = cc e
explicit_range-lt (x ∷ []) b e = cc e
explicit_range-lt (x ∷ y ∷ []) b e =
    let (m, first, e1) = >>=-eq-ok (parse_ip (strip x)) _ e in
    let (n, last, e2) = >>=-eq-ok (parse_ip (strip y)) _ e1 in
    let n_lt = parse_ip-lt (strip y) n last in ground (arith, e2)
explicit_range-lt (x ∷ y ∷ z ∷ more) b e = cc e

default_range-lt : (n : Network) (b : ℕ × ℕ) → Fits n → default_range n ≡ ok b → b.1 < 2 ^ 32
unfolding default_range sub_ip Fits
default_range-lt n b fits e =
    let (x, first, e1) = >>=-eq-ok (add_ip n.base 2) _ e in
    let (y, last, e2) = >>=-eq-ok (sub_ip (broadcast n) 1) _ e1 in
    ground (arith, e2, last, fits, Bool-cases (leb 1 (broadcast n)))

pool_bounds-lt :
    (n : Network) (text : Text) (b : ℕ × ℕ) → Fits n → pool_bounds n text ≡ ok b → b.1 < 2 ^ 32
unfolding pool_bounds
pool_bounds-lt n text b fits e = elim (Bool-cases (member dash text)) [
  | inl f ↦ explicit_range-lt (split dash text) b (rw (f, pool_bounds) at e)
  | inr f ↦ default_range-lt n b fits (rw (f, pool_bounds) at e)
]

-- Every address of a pool that was just made is below 2 ^ 32, and none is taken.
pub new_pool-IsInRange :
    (subnet text : Text) (p : IpPool) → new_pool subnet text ≡ ok p → IsInRange p
unfolding new_pool lookup
new_pool-IsInRange subnet text p e =
    let (n, net, e1) = >>=-eq-ok (parse_network subnet) _ e in
    let (server, own, e2) = >>=-eq-ok (add_ip n.base 1) _ e1 in
    let ((first, last), ends, e3) = >>=-eq-ok (pool_bounds n text) _ e2 in
    let last_lt = pool_bounds-lt n text (first, last) (parse_network-Fits subnet n net) ends in
    let free_is : range first (last + 1 - first) ≡ p.available = cc e3 in
    let none_held : p.allocated ≡ [] = cc e3 in
    record {
      free = λ m there.
          let within = member-range first (last + 1 - first) m (ap (member m) free_is ∙ there) in
          omega (arith, within, last_lt);
      held = λ id m there. cc (ap (lookup id) none_held, there);
    }
