-- ===== src/Client/Assignment.antt =====
-- What an address assignment does to the client of src/client.py.
use vpn_app_ai.Prelude.{
  ℕ, ◌≡◌, refl, true, Option, none, some, List, [], ◌∷◌, length, inl, inr, Bool-cases,
}
use vpn_app_ai.Prelude.Result.{ok, Outcome, returns, raises, state}
use vpn_app_ai.Bytes.{Bytes}
use vpn_app_ai.Crypto.Pki.{Pki, Text}
use vpn_app_ai.Privileges.{System, Call, maybe_drop_privileges}
use vpn_app_ai.Protocol.Messages.{control, opcode_value, ip_assign, message_value, message_of}
use vpn_app_ai.Protocol.Packet.{decode_packet}
use vpn_app_ai.Protocol.Data.Channel.{Packages}
use vpn_app_ai.Client.State.{VpnClient, count, write_status_file}
use vpn_app_ai.Status.{StatusFile, record_in, maybe_write}
use vpn_app_ai.Client.Handle.{
  accept_address, add_route_command, redirect, after_drop, handle_ip_assign, handle_message,
  handle_control_payload, handle_control, dispatch, handle_udp_data,
}

module _ (p : Packages) (k : Pki) (y : System) (decode : Bytes → Option Text) where
  -- The client took the address, and its session is as it was.
  pub record Accepts (ip : Text) (c c' : VpnClient k) : Type 0 where
    pub assigned : c'.assigned_ip ≡ some ip
    pub up : c'.connected ≡ true
    pub same_session : c'.session ≡ c.session

  accept_address-Accepts :
      (now : ℕ) (ip : Text) (c : VpnClient k) (status : Option StatusFile)
      → c.status ≡ status
      → Accepts ip c (accept_address p k y decode now ip c)
  unfolding accept_address write_status_file maybe_write
  accept_address-Accepts now ip c none e =
      rw e (record { assigned = refl; up = refl; same_session = refl })
  accept_address-Accepts now ip c (some f) e =
      rw e (record { assigned = refl; up = refl; same_session = refl })

  redirect-Accepts :
      (ip : Text) (c c' : VpnClient k) → Accepts ip c c' → Accepts ip c (redirect p k y decode c')
  unfolding redirect add_route_command
  redirect-Accepts ip c c' a = elim (Bool-cases c'.config.redirect_gateway) [
    | inl e ↦ rw e (record { assigned = a.assigned; up = a.up; same_session = a.same_session })
    | inr e ↦ rw e (record { assigned = a.assigned; up = a.up; same_session = a.same_session })
  ]

  after_drop-Accepts :
      (ip : Text) (c : VpnClient k) (o : Outcome (List Call) (Unit {0})) (c' : VpnClient k)
      → Accepts ip c c'
      → Accepts ip c (state (after_drop p k y decode o c'))
  after_drop-Accepts ip c (returns u done) c' a = record {
    assigned = a.assigned;
    up = a.up;
    same_session = a.same_session;
  }
  after_drop-Accepts ip c (raises x done) c' a = record {
    assigned = a.assigned;
    up = a.up;
    same_session = a.same_session;
  }

  handle_ip_assign-Accepts :
      (now : ℕ) (ip : Text) (c : VpnClient k)
      → Accepts ip c (state (handle_ip_assign p k y decode now ip c))
  unfolding handle_ip_assign add_route_command
  handle_ip_assign-Accepts now ip c =
      let a = accept_address-Accepts now ip c c.status refl in
      let routed : Accepts ip c _ =
        redirect-Accepts ip c _
          (record { assigned = a.assigned; up = a.up; same_session = a.same_session }) in
      after_drop-Accepts ip c (maybe_drop_privileges y c.config.user []) _ routed

  -- An IP_ASSIGN message gives the client its address in every state of its session: also before the
  -- handshake, and nothing in it is authenticated.
  pub ip_assign-Accepts :
      (rest inner ip : Bytes) (sid now : ℕ) (c : VpnClient k)
      → decode_packet (opcode_value control ∷ rest)
        ≡ ok (control, sid, message_value ip_assign ∷ inner)
      → decode inner ≡ some ip
      → Accepts ip c (state (handle_udp_data p k y decode (opcode_value control ∷ rest) now c))
  unfolding handle_udp_data dispatch handle_control_payload handle_message opcode_value
      message_value message_of handle_control
  ip_assign-Accepts rest inner ip sid now c d text =
      let packet = opcode_value control ∷ rest in
      let seen = record c {
        last_seen = now;
        status = count (record_in (length packet)) c.status;
      } in
      let a = handle_ip_assign-Accepts now ip seen in
      rw (d, handle_control)
        (rw text (record { assigned = a.assigned; up = a.up; same_session = a.same_session }))
