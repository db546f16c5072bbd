-- ===== src/Server/Tun.antt =====
-- `_ipv4_dest` and `_on_tun_readable` of src/server.py.
use vpn_app_ai.Prelude.{
  ℕ, ◌+◌, ◌*◌, ◌%◌, ◌||◌, Option, none, some, List, [], ◌∷◌, ◌++◌, map, length, take, drop, ltb,
  nat_beq, list_eq, nat_eq, if◌then◌else◌,
}
use vpn_app_ai.Prelude.Dict.{lookup}
use vpn_app_ai.Prelude.Result.{Outcome, returns, raises}
use vpn_app_ai.Prelude.Exec.{Exec}
use vpn_app_ai.Bytes.{Bytes}
use vpn_app_ai.Crypto.Pki.{Pki, Text}
use vpn_app_ai.Ipv4.{show_octet}
use vpn_app_ai.Protocol.Data.Channel.{Packages, DataChannel}
use vpn_app_ai.Protocol.Data.Encrypt.{encrypt}
use vpn_app_ai.Protocol.Control.Session.{is_established}
use vpn_app_ai.Server.State.{addr_eq, ClientSession, Server, store, sync_send_to}

-- `".".join(str(b) for b in dest)`
unfoldable pub dotted : Bytes → Text
dotted [] = []
dotted (b ∷ []) = show_octet b
dotted (b ∷ c ∷ bs) = show_octet b ++ (b'.' ∷ dotted (c ∷ bs))

-- `(packet[0] & 0x0f) * 4`
unfoldable pub header_length : Bytes → ℕ
header_length [] = 0
header_length (version_ihl ∷ bs) = version_ihl % 16 * 4

unfoldable pub ipv4_dest : Bytes → Option Text
unfolding dotted header_length
ipv4_dest packet =
    let ihl = header_length packet in
    let dest = take 4 (drop (ihl + 4) packet) in
    if ltb (length packet) 20 || ltb (length packet) (ihl + 4)
    then none
    else if nat_beq (length dest) 4
    then some (dotted dest)
    else none

module _ (p : Packages) (k : Pki) where
  -- The client that a destination address leads to.
  unfoldable pub client_of : Server k → Text → Option (ClientSession k)
  client_of s dest_ip = elim (lookup dest_ip s.ip_to_addr) [
    | none ↦ none
    | some a ↦ lookup a s.clients
  ]

  -- A coroutine object: what its body would do if something awaited it. The body is `_send_to`,
  -- without the pause in which a TCP stream drains.
  abbrev pub Coroutine : Type 0
  Coroutine = Exec (Server k) (Unit {0})

  abbrev pub send_to : ClientSession k → Bytes → Coroutine
  send_to cs wire = sync_send_to k cs wire

  -- `for wire in cs.data.encrypt(packet): self._send_to(cs, wire)`: the calls make coroutine objects,
  -- and run no body. They are the result here; the caller drops them.
  unfoldable pub after_encrypt :
      ClientSession k → Outcome DataChannel (List Bytes) → Exec (Server k) (List Coroutine)
  after_encrypt cs (returns wires d) s =
      let cs' = record cs { channel = some d } in returns (map (send_to cs') wires) (store k cs' s)
  after_encrypt cs (raises x d) s = raises x (store k (record cs { channel = some d }) s)

  -- For a client that `is_ready`.
  unfoldable pub encrypt_for :
      ClientSession k → Option DataChannel → Bytes → (ℕ → Bytes) → Exec (Server k) (List Coroutine)
  unfolding after_encrypt
  encrypt_for cs none packet nonces s = returns [] s
  encrypt_for cs (some d) packet nonces s =
      if is_established k cs.session
      then after_encrypt cs (encrypt p d packet nonces) s
      else returns [] s

  -- `_on_tun_readable`, of what the TUN device gives: nothing behind an OSError. The result are the
  -- coroutine objects that it makes and drops.
  unfoldable pub on_tun_readable : Option Bytes → (ℕ → Bytes) → Exec (Server k) (List Coroutine)
  unfolding client_of encrypt_for
  on_tun_readable none nonces s = returns [] s
  on_tun_readable (some packet) nonces s =
      if ltb (length packet) 20 then returns [] s else elim (ipv4_dest packet) [
        | none ↦ returns [] s
        | some dest_ip ↦ elim (client_of s dest_ip) [
          | none ↦ returns [] s
          | some cs ↦ encrypt_for cs cs.channel packet nonces s
        ]
      ]
