-- ===== src/Protocol/Tls/Verified.antt =====
-- The peers of the TLS channels of src/protocol/tls_channel.py are verified, at both ends.
use vpn_app_ai.Prelude.{ℕ, ◌≡◌, subst, true, arith, Option, none, some}
use vpn_app_ai.Prelude.Result.{ok, >>=-eq-ok}
use vpn_app_ai.Bytes.{Bytes}
use vpn_app_ai.Crypto.Pki.{Text}
use vpn_app_ai.Protocol.Tls.Endpoint.{
  Context, cert_required, Ssl, SslLaws, TlsControlChannel, make_server_context, make_client_context,
  new_control_channel, accept, connect_client,
}

module _ (y : Ssl) where
  -- A context that asks for a certificate and checks it against the file.
  pub record IsStrict (ca : Text) (ctx : Context) : Type 0 where
    pub required : ctx.verify_mode ≡ cert_required
    pub rooted : ctx.roots ≡ some ca

  make_server_context-IsStrict :
      (ca cert key : Text) (ctx : Context)
      → make_server_context y ca cert key ≡ ok ctx
      → IsStrict ca ctx
  unfolding make_server_context
  make_server_context-IsStrict ca cert key ctx e =
      let (u, chain, e1) = >>=-eq-ok (y.load_cert_chain cert key) _ e in
      let (v, roots, e2) = >>=-eq-ok (y.load_verify_locations ca) _ e1 in
      record { required = ground (arith, e2); rooted = ground (arith, e2) }

  make_client_context-IsStrict :
      (laws : SslLaws y) (ca cert key : Text) (ctx : Context)
      → make_client_context y ca cert key ≡ ok ctx
      → IsStrict ca ctx
  unfolding make_client_context
  make_client_context-IsStrict laws ca cert key ctx e =
      let (u, roots, e1) = >>=-eq-ok (y.load_verify_locations ca) _ e in
      let (v, chain, e2) = >>=-eq-ok (y.load_cert_chain cert key) _ e1 in
      record { required = ground (arith, e2, laws.client_default); rooted = ground (arith, e2) }

  -- The peer has shown a certificate that the file vouches for.
  pub IsVerified : Text → TlsControlChannel y → Type 0
  IsVerified ca c = (der : Bytes) × (c.peer_cert_der ≡ some der) × (y.vouches ca der ≡ true)

  wrapped-IsVerified :
      (laws : SslLaws y) (ca : Text) (ctx : Context) (name : Option Text) (raw : y.Raw)
      (conn : y.Conn)
      → IsStrict ca ctx
      → y.wrap_socket ctx name raw ≡ ok conn
      → IsVerified ca (new_control_channel y conn)
  unfolding IsVerified new_control_channel
  wrapped-IsVerified laws ca ctx name raw conn strict e =
      laws.verified ctx name raw conn ca strict.required strict.rooted e

  accept-IsVerified :
      (laws : SslLaws y) (ca : Text) (ctx : Context) (c : TlsControlChannel y)
      → IsStrict ca ctx
      → accept y ctx ≡ ok c
      → IsVerified ca c
  unfolding accept
  accept-IsVerified laws ca ctx c strict e =
      let (raw, came, e1) = >>=-eq-ok y.accepted _ e in
      let (conn, shaken, e2) = >>=-eq-ok (y.wrap_socket ctx none raw) _ e1 in
      subst (IsVerified ca) (cc e2) (wrapped-IsVerified laws ca ctx none raw conn strict shaken)

  connect_client-IsVerified :
      (laws : SslLaws y) (host : Text) (port : ℕ) (ca cert key : Text) (name : Option Text)
      (c : TlsControlChannel y)
      → connect_client y host port ca cert key name ≡ ok c
      → IsVerified ca c
  unfolding connect_client
  connect_client-IsVerified laws host port ca cert key name c e =
      let (ctx, made, e1) = >>=-eq-ok (make_client_context y ca cert key) _ e in
      let (raw, came, e2) = >>=-eq-ok (y.connected host port) _ e1 in
      let (conn, shaken, e3) = >>=-eq-ok (y.wrap_socket ctx name raw) _ e2 in
      subst (IsVerified ca) (cc e3) (
        wrapped-IsVerified laws ca ctx name raw conn
          (make_client_context-IsStrict laws ca cert key ctx made) shaken)

  -- The channels that come about with these files: a server's, in the context that it made, and a
  -- client's.
  pub data IsOpened (ca cert key : Text) : TlsControlChannel y → Type 0 where
    by_server :
        (ctx : Context) (c : TlsControlChannel y)
        → make_server_context y ca cert key ≡ ok ctx
        → accept y ctx ≡ ok c
        → IsOpened ca cert key c
    by_client :
        (host : Text) (port : ℕ) (name : Option Text) (c : TlsControlChannel y)
        → connect_client y host port ca cert key name ≡ ok c
        → IsOpened ca cert key c

  -- A channel that a server accepts or that a client connects has a peer that has shown a certificate,
  -- and the CA file vouches for it.
  pub opened-IsVerified :
      (laws : SslLaws y) (ca cert key : Text) (c : TlsControlChannel y)
      → IsOpened ca cert key c
      → IsVerified ca c
  opened-IsVerified laws ca cert key c (by_server ctx c' made e) =
      accept-IsVerified laws ca ctx c (make_server_context-IsStrict ca cert key ctx made) e
  opened-IsVerified laws ca cert key c (by_client host port name c' e) =
      connect_client-IsVerified laws host port ca cert key name c e
