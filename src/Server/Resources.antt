-- ===== src/Server/Resources.antt =====
-- What the server of src/server.py takes from the system and has to give back: the TUN device, the
-- socket, the routes and the NAT rule, as its calls show them.
use vpn_app_ai.Prelude.{
  ◌≡◌, refl, Bool, true, false, ◌&&◌, ◌||◌, Option, none, some, List, [], ◌∷◌, ◌++◌, list_beq,
  nat_eq, list_eq, if◌then◌else◌,
}
use vpn_app_ai.Prelude.Dict.{lookup}
use vpn_app_ai.Crypto.Pki.{Pki, Text}
use vpn_app_ai.Server.State.{
  is_tcp, is_some, Effect, add_route, delete_route, tun_opened, tun_closed, listener_opened,
  listener_closed, nat_set_up, nat_torn_down, Server,
}
use vpn_app_ai.Server.Start.{server_network}

pub data Resource : Type 0 where
  route : Text → Resource
  nat : Text → Text → Resource
  tun listener : Resource

abbrev pub same_resource : Resource → Resource → Bool
same_resource (route a) (route b) = list_beq a b
same_resource (nat i a) (nat j b) = list_beq i j && list_beq a b
same_resource tun tun = true
same_resource listener listener = true
same_resource _ _ = false

-- Whether the resource is held behind one more effect. A call to give it back counts, whatever the
-- system makes of it.
abbrev pub held_after : Resource → Effect → Bool → Bool
held_after r x b = elim x [
  | add_route ip ↦ if same_resource (route ip) r then true else b
  | delete_route ip ↦ if same_resource (route ip) r then false else b
  | nat_set_up i n ↦ if same_resource (nat i n) r then true else b
  | nat_torn_down i n ↦ if same_resource (nat i n) r then false else b
  | tun_opened ↦ if same_resource tun r then true else b
  | tun_closed ↦ if same_resource tun r then false else b
  | listener_opened ↦ if same_resource listener r then true else b
  | listener_closed ↦ if same_resource listener r then false else b
  | _ ↦ b
]

unfoldable pub held_from : Resource → Bool → List Effect → Bool
held_from r b [] = b
held_from r b (x ∷ xs) = held_from r (held_after r x b) xs

-- Taken by a call, with no call since to give it back.
abbrev pub held : Resource → List Effect → Bool
held r xs = held_from r false xs

held_from-append :
    (r : Resource) (b : Bool) (xs : List Effect) (x : Effect)
    → held_from r b (xs ++ x ∷ []) ≡ held_after r x (held_from r b xs)
unfolding held_from
held_from-append r b [] x = refl
held_from-append r b (y ∷ ys) x = held_from-append r (held_after r y b) ys x

pub held-append :
    (r : Resource) (xs : List Effect) (x : Effect)
    → held r (xs ++ x ∷ []) ≡ held_after r x (held r xs)
held-append r xs x = held_from-append r false xs x

abbrev pub is_named : Option Text → Text → Bool
is_named none i = false
is_named (some j) i = list_beq j i

-- What the state of the server knows that it holds; the TUN device it closes in any case.
abbrev pub is_owned : (k : Pki) → Server k → Resource → Bool
is_owned k s r = elim r [
  | route ip ↦ is_some (lookup ip s.ip_to_addr) || list_beq (server_network s.config) ip
  | nat i n ↦ is_named s.nat_interface i && list_beq (server_network s.config) n
  | tun ↦ true
  | listener ↦ is_tcp s.config || s.has_transport
]
