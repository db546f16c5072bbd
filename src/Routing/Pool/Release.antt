-- ===== src/Routing/Pool/Release.antt =====
-- What a release gives back, and what it does not.
use vpn_app_ai.Prelude.{
  ℕ, ◌≡◌, refl, ap, inl, inr, true, false, none, some, nat_eq, list_eq, list_beq_iff, arith,
}
use vpn_app_ai.Prelude.Dict.{
  lookup, insert, remove, lookup-insert, lookup-remove, lookup-insert_self, remove-insert,
}
use vpn_app_ai.Prelude.NatSet.{member, discard, add, member-discard, member-add}
use vpn_app_ai.Crypto.Pki.{Text}
use vpn_app_ai.Routing.Pool.{IpPool, give, allocate, release}
use vpn_app_ai.Routing.Pool.Soundness.{IsSound, allocate_cases}

release_held :
    (p : IpPool) (id : Text) (ip : ℕ)
    → lookup id p.allocated ≡ some ip
    → release p id ≡ record p {
      available = add ip p.available;
      allocated = remove id p.allocated;
      allocated_by_int = remove ip p.allocated_by_int;
    }
unfolding release
release_held p id ip e = rw (e, release)

release_absent : (p : IpPool) (id : Text) → lookup id p.allocated ≡ none → release p id ≡ p
unfolding release
release_absent p id e = rw (e, release)

release-give :
    (p : IpPool) (id : Text) (ip : ℕ)
    → release (give p id ip).1 id ≡ record p {
      available = add ip (discard ip p.available);
      allocated = remove id (insert id ip p.allocated);
      allocated_by_int = remove ip (insert ip id p.allocated_by_int);
    }
release-give p id ip = release_held (give p id ip).1 id ip (lookup-insert_self id ip p.allocated)

-- Releasing what a client without an address was just given restores the records, entry for entry,
-- and the set of free addresses.
pub release-allocate :
    (p : IpPool) (id : Text)
    → IsSound p
    → lookup id p.allocated ≡ none
    → ((release (allocate p id).1 id).allocated ≡ p.allocated)
      × ((release (allocate p id).1 id).allocated_by_int ≡ p.allocated_by_int)
      × ((m : ℕ) → member m (release (allocate p id).1 id).available ≡ member m p.available)
release-allocate p id s fresh = elim (allocate_cases p id) [
  | inl (empty, e) ↦ rw (e, release_absent p id fresh) (refl, refl, λ m. refl)
  | inr (ip, m, least, e) ↦
      rw (e, release-give)
        (
          remove-insert id ip p.allocated fresh,
          remove-insert ip id p.allocated_by_int (s.free ip m),
          λ n. ground (
            arith,
            member-add ip n (discard ip p.available),
            member-discard ip n p.available,
            ap (λ (t : ℕ). member t p.available) {x = ip} {y = n},
          ),
        )
]

-- A client that is given a second address before it releases the first loses it for good: after its
-- release it holds nothing, and the first address is not free but still on record as its own.
pub second_allocation_leaks :
    (p : IpPool) (id : Text) (old free_ip : ℕ)
    → IsSound p
    → lookup id p.allocated ≡ some old
    → member free_ip p.available ≡ true
    → (lookup id (release (allocate p id).1 id).allocated ≡ none)
      × (member old (release (allocate p id).1 id).available ≡ false)
      × (lookup old (release (allocate p id).1 id).allocated_by_int ≡ some id)
unfolding member
second_allocation_leaks p id old free_ip s h some_free = elim (allocate_cases p id) [
  | inl (empty, e) ↦ cc (ap (member free_ip) empty, some_free)
  | inr (ip, m, least, e) ↦
      rw (e, release-give)
        (
          ground (arith, lookup-remove id id (insert id ip p.allocated), list_beq_iff id id),
          ground (
            arith,
            member-add ip old (discard ip p.available),
            member-discard ip old p.available,
            s.free old,
            s.held id old h,
            s.free ip m,
            ap (λ (t : ℕ). lookup t p.allocated_by_int) {x = ip} {y = old},
          ),
          ground (
            arith,
            lookup-remove ip old (insert ip id p.allocated_by_int),
            lookup-insert ip old id p.allocated_by_int,
            s.held id old h,
            s.free ip m,
            ap (λ (t : ℕ). lookup t p.allocated_by_int) {x = ip} {y = old},
          ),
        )
]
