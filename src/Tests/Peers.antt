-- ===== src/Tests/Peers.antt =====
-- A concrete `ssl`, whose handshakes succeed only with a certificate that is vouched for.
use vpn_app_ai.Prelude.{◌≡◌, refl, true, none, some, [], ◌∷◌, nat_eq, list_eq}
use vpn_app_ai.Prelude.Texts.{codes}
use vpn_app_ai.Prelude.Result.{ok}
use vpn_app_ai.Bytes.{Bytes}
use vpn_app_ai.Protocol.Tls.Endpoint.{
  Side, client, server, VerifyMode, cert_none, cert_required, Ssl, SslLaws, TlsControlChannel,
  make_client_context, new_control_channel, connect_client,
}
use vpn_app_ai.Protocol.Tls.Verified.{IsVerified, by_client, opened-IsVerified}

abbrev mode_for : Side → VerifyMode
mode_for client = cert_required
mode_for server = cert_none

abbrev good : Bytes
good = 48 ∷ 1 ∷ []

-- The only certificate is the good one, and every file vouches for it.
abbrev ssl : Ssl
ssl = record {
  Raw = Unit {0};
  Conn = Bytes;
  defaults = λ side. record {
    side = side;
    minimum_version = 0x303;
    maximum_version = 0x304;
    verify_mode = mode_for side;
    check_hostname = true;
    chain = none;
    roots = none;
  };
  load_cert_chain = λ cert key. ok tt;
  load_verify_locations = λ ca. ok tt;
  accepted = ok tt;
  connected = λ host port. ok tt;
  wrap_socket = λ ctx name raw. ok good;
  getpeercert = λ conn. some conn;
  vouches = λ ca der. list_eq.same der good;
  common_name = λ der. some (codes "peer");
}

ssl_laws : SslLaws ssl
ssl_laws = record {
  client_default = refl;
  verified =
      λ ctx name raw conn ca required rooted e. (conn, refl, (list_eq.same_iff conn good).1 (cc e));
}

abbrev channel : TlsControlChannel ssl
channel = record { sock = good; peer_cert_der = some good; peer_common_name = some (codes "peer") }

channel_connects :
    connect_client ssl (codes "vpn") 1194 (codes "ca") (codes "cert") (codes "key") none
    ≡ ok channel
unfolding connect_client make_client_context new_control_channel
channel_connects = refl

opened-IsVerified_example : IsVerified ssl (codes "ca") channel
opened-IsVerified_example =
    opened-IsVerified ssl ssl_laws (codes "ca") (codes "cert") (codes "key") channel
      (by_client (codes "vpn") 1194 none channel channel_connects)
