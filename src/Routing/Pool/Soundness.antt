-- ===== src/Routing/Pool/Soundness.antt =====
-- No two clients hold one address, whatever calls are made in whatever order.
use vpn_app_ai.Prelude.{
  ℕ, ◌≤◌, ◌≡◌, ◌⊎◌, refl, ap, inl, inr, true, false, none, some, List, [], ◌∷◌, nat_beq, nat_eq,
  list_eq, list_beq_iff, if◌then◌else◌, arith, Option-cases,
}
use vpn_app_ai.Prelude.Result.{ok}
use vpn_app_ai.Prelude.Dict.{Dict, lookup, lookup-insert, lookup-remove, lookup-insert_self}
use vpn_app_ai.Prelude.NatSet.{
  member, minimum, member-discard, member-add, member-minimum, minimum-le,
}
use vpn_app_ai.Crypto.Pki.{Text}
use vpn_app_ai.Ipv4.{show_ip}
use vpn_app_ai.Routing.Pool.{IpPool, give, allocate, release, new_pool}

-- What a client holds is on record as its own, and nobody holds a free address.
pub record IsSound (p : IpPool) : Type 0 where
  pub held :
      (id : Text) (ip : ℕ)
      → lookup id p.allocated ≡ some ip
      → lookup ip p.allocated_by_int ≡ some id
  pub free : (ip : ℕ) → member ip p.available ≡ true → lookup ip p.allocated_by_int ≡ none

pub give-IsSound :
    (p : IpPool) (id : Text) (ip : ℕ)
    → IsSound p
    → member ip p.available ≡ true
    → IsSound (give p id ip).1
give-IsSound p id ip s m = record {
  held = λ id' ip' e. ground (
    arith,
    lookup-insert id id' ip p.allocated,
    lookup-insert ip ip' id p.allocated_by_int,
    list_beq_iff id id',
    s.held id' ip',
    s.free ip m,
    ap (λ (t : ℕ). lookup t p.allocated_by_int) {x = ip} {y = ip'},
  );
  free = λ ip' h. ground (
    arith,
    lookup-insert ip ip' id p.allocated_by_int,
    member-discard ip ip' p.available,
    s.free ip',
  );
}

-- `allocate` finds nothing free and changes nothing, or gives the least free address.
pub allocate_cases :
    (p : IpPool) (id : Text)
    → ((p.available ≡ []) × (allocate p id ≡ (none, p)))
      ⊎ ((ip : ℕ) × (member ip p.available ≡ true)
          × ((m : ℕ) → member m p.available ≡ true → ip ≤ m)
          × (allocate p id ≡ give p id ip))
unfolding allocate
allocate_cases p id = split_on p.available refl
  where
    split_on :
        (l : List ℕ)
        → p.available ≡ l
        → ((p.available ≡ []) × (allocate p id ≡ (none, p)))
          ⊎ ((ip : ℕ) × (member ip p.available ≡ true)
              × ((m : ℕ) → member m p.available ≡ true → ip ≤ m)
              × (allocate p id ≡ give p id ip))
    split_on [] e =
        inl
          (e, ap (λ (l : List ℕ). elim l [ [] ↦ (none, p) | y ∷ ys ↦ give p id (minimum y ys) ]) e)
    split_on (x ∷ xs) e = inr (
      minimum x xs,
      rw e (member-minimum x xs),
      λ m h. minimum-le x xs m (rw e at h),
      ap (λ (l : List ℕ). elim l [ [] ↦ (none, p) | y ∷ ys ↦ give p id (minimum y ys) ]) e,
    )

pub allocate-IsSound : (p : IpPool) (id : Text) → IsSound p → IsSound (allocate p id).1
allocate-IsSound p id s = elim (allocate_cases p id) [
  | inl (empty, e) ↦ rw e s
  | inr (ip, m, least, e) ↦ rw e (give-IsSound p id ip s m)
]

pub release-IsSound : (p : IpPool) (id : Text) → IsSound p → IsSound (release p id)
unfolding release
release-IsSound p id s = elim (Option-cases (lookup id p.allocated)) [
  | inl absent ↦ rw (absent, release) s
  | inr (ip, e) ↦
      rw (e, release)
        (record {
          held = λ id' ip' h. ground (
            arith,
            lookup-remove id id' p.allocated,
            lookup-remove ip ip' p.allocated_by_int,
            list_beq_iff id id',
            s.held id' ip',
            s.held id ip e,
            ap (λ (t : ℕ). lookup t p.allocated_by_int) {x = ip} {y = ip'},
          );
          free = λ ip' h. ground (
            arith,
            lookup-remove ip ip' p.allocated_by_int,
            member-add ip ip' p.available,
            s.free ip',
          );
        })
]

-- The calls that other code makes of the pool.
pub data Call : Type 0 where
  allocates releases : Text → Call

unfoldable pub step : IpPool → Call → IpPool
step p (allocates id) = (allocate p id).1
step p (releases id) = release p id

unfoldable pub run : IpPool → List Call → IpPool
run p [] = p
run p (c ∷ cs) = run (step p c) cs

pub run-IsSound : (p : IpPool) (cs : List Call) → IsSound p → IsSound (run p cs)
unfolding run step
run-IsSound p [] s = s
run-IsSound p (allocates id ∷ cs) s = run-IsSound (allocate p id).1 cs (allocate-IsSound p id s)
run-IsSound p (releases id ∷ cs) s = run-IsSound (release p id) cs (release-IsSound p id s)

new_pool-fresh :
    (subnet range : Text) (p : IpPool)
    → new_pool subnet range ≡ ok p
    → (p.allocated ≡ []) × (p.allocated_by_int ≡ [])
unfolding new_pool
new_pool-fresh subnet range p e = ground arith

pub new_pool-IsSound : (subnet range : Text) (p : IpPool) → new_pool subnet range ≡ ok p → IsSound p
unfolding lookup
new_pool-IsSound subnet range p e =
    let (a, b) = new_pool-fresh subnet range p e in
    record {
      held = λ id ip h. cc (ap (λ (d : Dict Text ℕ). lookup id d) a, h);
      free = λ ip h. ap (λ (d : Dict ℕ Text). lookup ip d) b;
    }

-- After any allocations and releases in any order, from a new pool on, two clients that hold the
-- same address are the same client.
pub address_is_exclusive :
    (subnet range : Text) (p : IpPool) (cs : List Call) (id id' : Text) (ip : ℕ)
    → new_pool subnet range ≡ ok p
    → lookup id (run p cs).allocated ≡ some ip
    → lookup id' (run p cs).allocated ≡ some ip
    → id ≡ id'
address_is_exclusive subnet range p cs id id' ip e h h' =
    let s = run-IsSound p cs (new_pool-IsSound subnet range p e) in
    cc (s.held id ip h, s.held id' ip h')

-- `allocate` answers with the text of the least free address, records it for the client and takes it
-- off the free ones; it answers None and changes nothing exactly if no address is free.
pub allocate-least :
    (p : IpPool) (id : Text)
    → ((p.available ≡ []) × (allocate p id ≡ (none, p)))
      ⊎ ((ip : ℕ) × (member ip p.available ≡ true)
          × ((m : ℕ) → member m p.available ≡ true → ip ≤ m)
          × ((allocate p id).0 ≡ some (show_ip ip))
          × (lookup id (allocate p id).1.allocated ≡ some ip)
          × (lookup ip (allocate p id).1.allocated_by_int ≡ some id)
          × ((m : ℕ)
              → member m (allocate p id).1.available
                ≡ (if nat_beq ip m then false else member m p.available)))
allocate-least p id = elim (allocate_cases p id) [
  | inl none_left ↦ inl none_left
  | inr (ip, m, least, e) ↦ rw e (
      inr (
        ip,
        m,
        least,
        refl,
        lookup-insert_self id ip p.allocated,
        lookup-insert_self ip id p.allocated_by_int,
        λ n. member-discard ip n p.available,
      ))
]
