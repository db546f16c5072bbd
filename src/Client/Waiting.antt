-- ===== src/Client/Waiting.antt =====
-- A client of src/client.py whose server does not answer.
use vpn_app_ai.Prelude.{◌≡◌, false, Option, List, [], ◌∷◌}
use vpn_app_ai.Bytes.{Bytes}
use vpn_app_ai.Crypto.Pki.{Pki, Text}
use vpn_app_ai.Privileges.{System}
use vpn_app_ai.Protocol.Data.Channel.{Packages}
use vpn_app_ai.Protocol.Control.Session.{is_established}
use vpn_app_ai.Client.State.{Effect, sendto, write, VpnClient}

-- The datagrams and frames among the effects, in order.
unfoldable pub sent : List Effect → List Bytes
sent [] = []
sent (sendto b ∷ xs) = b ∷ sent xs
sent (write b ∷ xs) = b ∷ sent xs
sent (_ ∷ xs) = sent xs

module _ (p : Packages) (k : Pki) (y : System) (decode : Bytes → Option Text) where
  -- The handshake is not done, and nothing has established the session.
  pub record IsWaiting (c : VpnClient k) : Type 0 where
    pub not_done : c.handshake_done ≡ false
    pub not_established : is_established k c.session ≡ false

  -- What a round leaves as it was.
  pub record Keeps (c c' : VpnClient k) : Type 0 where
    pub same_session : c'.session ≡ c.session
    pub same_flag : c'.handshake_done ≡ c.handshake_done
    pub same_connected : c'.connected ≡ c.connected
    pub nothing_sent : sent c'.effects ≡ sent c.effects
