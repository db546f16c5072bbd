-- ===== src/Tests/Addresses.antt =====
-- A pool of three addresses, and giving up root.
use vpn_app_ai.Prelude.{
  ℕ, ◌+◌, ◌≡◌, ◌≤◌, ◌⊎◌, refl, true, false, none, some, List, [], ◌∷◌, ◌++◌, ◌*◌, ◌^◌, nat_beq,
  nat_eq, list_eq, if◌then◌else◌,
}
use vpn_app_ai.Prelude.Tests.{list_beq}
use vpn_app_ai.Prelude.Dict.{lookup, insert, remove}
use vpn_app_ai.Prelude.NatSet.{member, range, discard, add, minimum}
use vpn_app_ai.Prelude.Result.{ok, returns}
use vpn_app_ai.Crypto.Pki.{Text}
use vpn_app_ai.Ipv4.{show_ip, parse_network, add_ip, split}
use vpn_app_ai.Routing.Pool.{IpPool, new_pool, allocate, release}
use vpn_app_ai.Routing.Pool.Soundness.{
  IsSound, run-IsSound, Call, allocates, releases, run, step, new_pool-IsSound,
  address_is_exclusive, allocate-least,
}
use vpn_app_ai.Routing.Pool.Release.{release-allocate, second_allocation_leaks}
use vpn_app_ai.Privileges.{
  Passwd, System, setgid, setuid, setgroups, set_environment, setenv, user_var, is_root, become,
  step_down, group_for, user_named, drop_privileges, drop_privileges-order,
}

-- "10.0.0.0/29" and "10.0.0.2-10.0.0.4"
abbrev subnet : Text
subnet = b'1' ∷ b'0' ∷ b'.' ∷ b'0' ∷ b'.' ∷ b'0' ∷ b'.' ∷ b'0' ∷ b'/' ∷ b'2' ∷ b'9' ∷ []

abbrev three : Text
three =
    b'1' ∷ b'0' ∷ b'.' ∷ b'0' ∷ b'.' ∷ b'0' ∷ b'.' ∷ b'2' ∷ b'-' ∷ b'1' ∷ b'0' ∷ b'.' ∷ b'0' ∷ b'.'
    ∷ b'0' ∷ b'.' ∷ b'4' ∷ []

abbrev base : ℕ
base = 10 * 2 ^ 24

abbrev pool : IpPool
pool = record {
  network = record { base = base; prefixlen = 29 };
  server_ip = b'1' ∷ b'0' ∷ b'.' ∷ b'0' ∷ b'.' ∷ b'0' ∷ b'.' ∷ b'1' ∷ [];
  available = (base + 2) ∷ (base + 3) ∷ (base + 4) ∷ [];
  allocated = [];
  allocated_by_int = [];
}

pool-new : new_pool subnet three ≡ ok pool
unfolding new_pool parse_network add_ip show_ip range member split
pool-new = refl

-- Two clients.
abbrev anna : Text
anna = b'a' ∷ []

abbrev bert : Text
bert = b'b' ∷ []

abbrev calls : List Call
calls = allocates anna ∷ allocates bert ∷ releases anna ∷ allocates anna ∷ []

bert-holds : lookup bert (run pool calls).allocated ≡ some (base + 3)
unfolding run step allocate release lookup insert remove discard add minimum list_beq member
bert-holds = refl

address_is_exclusive_example : bert ≡ bert
address_is_exclusive_example =
    address_is_exclusive subnet three pool calls bert bert (base + 3) pool-new bert-holds bert-holds

allocate-least_example :
    ((pool.available ≡ []) × (allocate pool anna ≡ (none, pool)))
    ⊎ ((ip : ℕ) × (member ip pool.available ≡ true)
        × ((m : ℕ) → member m pool.available ≡ true → ip ≤ m)
        × ((allocate pool anna).0 ≡ some (show_ip ip))
        × (lookup anna (allocate pool anna).1.allocated ≡ some ip)
        × (lookup ip (allocate pool anna).1.allocated_by_int ≡ some anna)
        × ((m : ℕ)
            → member m (allocate pool anna).1.available
              ≡ (if nat_beq ip m then false else member m pool.available)))
allocate-least_example = allocate-least pool anna

release-allocate_example :
    ((release (allocate pool anna).1 anna).allocated ≡ pool.allocated)
    × ((release (allocate pool anna).1 anna).allocated_by_int ≡ pool.allocated_by_int)
    × ((m : ℕ) → member m (release (allocate pool anna).1 anna).available ≡ member m pool.available)
unfolding lookup
release-allocate_example =
    release-allocate pool anna (new_pool-IsSound subnet three pool pool-new) refl

-- The pool in which anna holds the first address.
abbrev taken : IpPool
taken = run pool (allocates anna ∷ [])

taken-IsSound : IsSound taken
taken-IsSound = run-IsSound pool (allocates anna ∷ []) (new_pool-IsSound subnet three pool pool-new)

anna-holds : lookup anna taken.allocated ≡ some (base + 2)
unfolding run step allocate lookup insert discard minimum list_beq
anna-holds = refl

more-free : member (base + 3) taken.available ≡ true
unfolding run step allocate discard minimum member
more-free = refl

second_allocation_leaks_example :
    (lookup anna (release (allocate taken anna).1 anna).allocated ≡ none)
    × (member (base + 2) (release (allocate taken anna).1 anna).available ≡ false)
    × (lookup (base + 2) (release (allocate taken anna).1 anna).allocated_by_int ≡ some anna)
second_allocation_leaks_example =
    second_allocation_leaks taken anna (base + 2) (base + 3) taken-IsSound anna-holds more-free

-- A root process whose system knows the user.
abbrev root : System
root = record {
  euid = 0;
  getpwnam = λ name. some (record { pw_uid = 65534; pw_gid = 65533; pw_dir = [] });
  getgrnam = λ name. none;
  clears_groups = true;
  allows_setgid = λ gid. true;
  allows_setuid = λ uid. true;
}

root-drops :
    drop_privileges root anna none []
    ≡ returns tt (setgroups ∷ setgid 65533 ∷ setuid 65534 ∷ setenv user_var anna ∷ [])
unfolding drop_privileges is_root step_down user_named group_for become set_environment
root-drops = refl

root-IsRoot : is_root root ≡ true
unfolding is_root
root-IsRoot = refl

drop_privileges-order_example :
    (pw : Passwd) × (gid : ℕ) × (user_named root anna ≡ ok pw)
    × (group_for root none pw.pw_gid ≡ ok gid)
    × (setgroups ∷ setgid 65533 ∷ setuid 65534 ∷ setenv user_var anna ∷ []
        ≡ (setgroups ∷ []) ++ (setgid gid ∷ setuid pw.pw_uid ∷ set_environment pw anna))
drop_privileges-order_example =
    drop_privileges-order root anna none []
      (setgroups ∷ setgid 65533 ∷ setuid 65534 ∷ setenv user_var anna ∷ []) root-IsRoot root-drops
