-- ===== src/Protocol/Tls/Endpoint.antt =====
-- `TLSControlServer`, `connect_client` and the contexts of src/protocol/tls_channel.py. The module `ssl`
-- and the sockets are a parameter.
use vpn_app_ai.Prelude.{ℕ, ◌≡◌, Bool, true, false, Option, none, some, [], ◌∷◌}
use vpn_app_ai.Prelude.Result.{Result, ok, ◌>>=◌}
use vpn_app_ai.Bytes.{Bytes}
use vpn_app_ai.Crypto.Pki.{Text}

pub data Side : Type 0 where
  client server : Side

pub data VerifyMode : Type 0 where
  cert_none cert_optional cert_required : VerifyMode

-- The attributes of an `SSLContext`, and the files that it was given.
pub record Context : Type 0 where
  pub side : Side
  pub minimum_version : ℕ
  pub maximum_version : ℕ
  pub verify_mode : VerifyMode
  pub check_hostname : Bool
  pub chain : Option (Text × Text)
  pub roots : Option Text

-- The packages: a context with its defaults, what loading files answers, a connected socket, the
-- handshake over it, the peer's certificate, whether the certificates of a file vouch for one, and the
-- common name in one. `Raw` and `Conn` are sockets without and with TLS.
pub record Ssl : Type 1 where
  pub Raw : Type 0
  pub Conn : Type 0
  pub defaults : Side → Context
  pub load_cert_chain : Text → Text → Result (Unit {0})
  pub load_verify_locations : Text → Result (Unit {0})
  pub accepted : Result Raw
  pub connected : Text → ℕ → Result Raw
  pub wrap_socket : Context → Option Text → Raw → Result Conn
  pub getpeercert : Conn → Option Bytes
  pub vouches : Text → Bytes → Bool
  pub common_name : Bytes → Option Text

-- What `ssl` documents: a new client context asks for a certificate, and a handshake under
-- CERT_REQUIRED returns with a certificate of the peer that the loaded ones vouch for.
pub record SslLaws (y : Ssl) : Type 0 where
  pub client_default : (y.defaults client).verify_mode ≡ cert_required
  pub verified :
      (ctx : Context) (name : Option Text) (raw : y.Raw) (conn : y.Conn) (ca : Text)
      → ctx.verify_mode ≡ cert_required
      → ctx.roots ≡ some ca
      → y.wrap_socket ctx name raw ≡ ok conn
      → (der : Bytes) × (y.getpeercert conn ≡ some der) × (y.vouches ca der ≡ true)

-- TLSv1_3
abbrev pub tls_version : ℕ
tls_version = 0x304

module _ (y : Ssl) where
  -- `TLSControlChannel`, without its lock.
  pub record TlsControlChannel : Type 0 where
    pub sock : y.Conn
    pub peer_cert_der : Option Bytes
    pub peer_common_name : Option Text

  abbrev pub with_versions : Context → Context
  with_versions ctx = record ctx { minimum_version = tls_version; maximum_version = tls_version }

  unfoldable pub make_server_context : Text → Text → Text → Result Context
  make_server_context ca_path cert_path key_path = do
    let ctx = with_versions (y.defaults server)
    loaded ← y.load_cert_chain cert_path key_path
    trusted ← y.load_verify_locations ca_path
    ok (record ctx {
      chain = some (cert_path, key_path);
      roots = some ca_path;
      verify_mode = cert_required;
    })

  unfoldable pub make_client_context : Text → Text → Text → Result Context
  make_client_context ca_path cert_path key_path = do
    let ctx = with_versions (y.defaults client)
    trusted ← y.load_verify_locations ca_path
    loaded ← y.load_cert_chain cert_path key_path
    ok (record ctx {
      roots = some ca_path;
      chain = some (cert_path, key_path);
      check_hostname = false;
    })

  -- `_common_name_from_der(der) if der else None`
  abbrev pub name_of : Option Bytes → Option Text
  name_of none = none
  name_of (some []) = none
  name_of (some (b ∷ der)) = y.common_name (b ∷ der)

  unfoldable pub new_control_channel : y.Conn → TlsControlChannel
  new_control_channel sock = record {
    sock = sock;
    peer_cert_der = y.getpeercert sock;
    peer_common_name = name_of (y.getpeercert sock);
  }

  -- `accept` of a server with the context.
  unfoldable pub accept : Context → Result TlsControlChannel
  unfolding new_control_channel
  accept ctx = do
    conn ← y.accepted
    ssl_sock ← y.wrap_socket ctx none conn
    ok (new_control_channel ssl_sock)

  unfoldable pub connect_client :
      Text → ℕ → Text → Text → Text → Option Text → Result TlsControlChannel
  unfolding make_client_context new_control_channel
  connect_client host port ca_path cert_path key_path server_hostname = do
    ctx ← make_client_context ca_path cert_path key_path
    raw ← y.connected host port
    ssl_sock ← y.wrap_socket ctx server_hostname raw
    ok (new_control_channel ssl_sock)
