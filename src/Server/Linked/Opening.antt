-- ===== src/Server/Linked/Opening.antt =====
-- A channel is opened: the tables of the server hang together behind it.
use vpn_app_ai.Prelude.{◌≡◌, refl, true, not, ◌&&◌, Option, none, some, nat_eq, list_eq, arith}
use vpn_app_ai.Prelude.Dict.{lookup}
use vpn_app_ai.Prelude.Result.{state}
use vpn_app_ai.Prelude.Exec.{◌>>◌, pure, modify, if-state, calls-state}
use vpn_app_ai.Crypto.Pki.{Pki}
use vpn_app_ai.Protocol.Data.Channel.{Packages, DataChannel, new_channel}
use vpn_app_ai.Protocol.Control.Session.{is_established, or_empty}
use vpn_app_ai.Server.State.{addr_eq, ClientSession, Server, is_some, store}
use vpn_app_ai.Server.Handle.{assign_ip_to_client, open_channel, start_channel}
use vpn_app_ai.Server.Linked.{IsLinked, store-IsLinked, store-found}
use vpn_app_ai.Server.Linked.Assignment.{assign_ip_to_client-IsLinked}

module _ (p : Packages) (k : Pki) where
  -- Behind the start of a channel, for a client without one.
  open_channel-IsLinked :
      (cs : ClientSession k) (s : Server k)
      → lookup cs.addr s.clients ≡ some cs
      → cs.channel ≡ none
      → IsLinked k s
      → IsLinked k (state (open_channel p k cs s))
  unfolding open_channel
  open_channel-IsLinked cs s found closed h =
      calls-state (IsLinked k)
        (λ (s : Server k).
          new_channel p cs.session.session_id (or_empty cs.session.peer_session_id)
            cs.session.cipher s.config.compress 64)
        (λ channel.
          let cs' = record cs { channel = some channel } in
          modify (store k cs') >> assign_ip_to_client p k cs')
        s h
        (λ channel e.
          let new = record cs { channel = some channel } in
          assign_ip_to_client-IsLinked p k new (store k new s)
            (record {
              filed = store-found k new s;
              no_ip = h.unassigned cs.addr cs found closed;
              ready = λ n. cc n;
            })
            (store-IsLinked k cs new s found
              (record { same_addr = refl; same_ip = refl; keeps_channel = λ n. closed }) h))

  pub start_channel-IsLinked :
      (cs : ClientSession k) (s : Server k)
      → lookup cs.addr s.clients ≡ some cs
      → IsLinked k s
      → IsLinked k (state (start_channel p k cs s))
  unfolding start_channel
  start_channel-IsLinked cs s found h =
      if-state (IsLinked k) (is_established k cs.session && not (is_some cs.channel))
        (open_channel p k cs) (pure tt) s
        (λ e. open_channel-IsLinked cs s found (channel_none cs.channel e) h) (λ e. h)
    where
      channel_none :
          (d : Option DataChannel)
          → is_established k cs.session && not (is_some d) ≡ true
          → d ≡ none
      channel_none none e = refl
      channel_none (some d) e = ground (arith, e)
