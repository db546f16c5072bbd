-- ===== src/Server/ClientId.antt =====
-- The ids of the peers in src/server.py: two peers with one id are the same.
use vpn_app_ai.Prelude.{
  ℕ, ◌≡◌, ◌≢◌, sym, ap, ◌∙◌, [], ◌∷◌, ◌++◌, nat_eq, list_eq, All, All-append, append_assoc, arith,
}
use vpn_app_ai.Prelude.Digits.{value, value-show_nat, show_nat-digits, All-weaken, cut_last}
use vpn_app_ai.Prelude.Texts.{show_nat}
use vpn_app_ai.Crypto.Pki.{Text}
use vpn_app_ai.Server.State.{Addr, addr_eq, client_id}

-- What follows the host in a client's id.
tail : ℕ → Text
tail port = show_nat port port ++ b')' ∷ []

tail_unspaced : (port : ℕ) → All (λ c. c ≢ b' ') (tail port)
unfolding tail
tail_unspaced port =
    All-append (λ c. c ≢ b' ') (show_nat port port) (b')' ∷ [])
      (All-weaken (show_nat port port) (λ c le e. omega (arith, le.0, e))
        (show_nat-digits port port))
      (λ e. omega (arith, e), tt)

client_id-cut :
    (a : Addr) → client_id a ≡ b'(' ∷ 39 ∷ (a.host ++ 39 ∷ b',' ∷ []) ++ b' ' ∷ tail a.port
unfolding client_id tail
client_id-cut a =
    ap (λ (t : Text). b'(' ∷ 39 ∷ t)
      (sym (append_assoc a.host (39 ∷ b',' ∷ []) (b' ' ∷ tail a.port)))

addr-ext : (a b : Addr) → a.host ≡ b.host → a.port ≡ b.port → a ≡ b
addr-ext a b e f = ground (arith, e, f)

-- Two peers with one id are the same peer.
pub client_id_same : (a b : Addr) → client_id a ≡ client_id b → a ≡ b
unfolding tail
client_id_same a b e =
    let cut = sym (client_id-cut a) ∙ e ∙ client_id-cut b in
    let (hosts, tails) =
      cut_last b' ' (a.host ++ 39 ∷ b',' ∷ []) (tail a.port) (b.host ++ 39 ∷ b',' ∷ [])
        (tail b.port) (tail_unspaced a.port) (tail_unspaced b.port) (cc cut) in
    let (host, comma) =
      cut_last 39 a.host (b',' ∷ []) b.host (b',' ∷ []) (λ q. omega (arith, q), tt)
        (λ q. omega (arith, q), tt) hosts in
    let (digits, end) =
      cut_last b')' (show_nat a.port a.port) [] (show_nat b.port b.port) [] tt tt tails in
    addr-ext a b host
      (sym (value-show_nat a.port) ∙ ap (λ (t : Text). value t) digits ∙ value-show_nat b.port)
