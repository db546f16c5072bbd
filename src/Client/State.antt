-- ===== src/Client/State.antt =====
-- The state of `VpnClient` in src/client.py.
-- Sends, writes, commands and system calls are recorded in order in `effects`.
use vpn_app_ai.Prelude.{
  ℕ, Bool, ◌&&◌, Option, none, some, List, [], ◌∷◌, ◌++◌, list_beq, nat_eq, if◌then◌else◌,
}
use vpn_app_ai.Prelude.Exec.{Exec, ◌>>=◌, ◌>>◌, pure, modify, calls}
use vpn_app_ai.Prelude.Result.{returns}
use vpn_app_ai.Bytes.{Bytes}
use vpn_app_ai.Crypto.Pki.{Pki, Text}
use vpn_app_ai.Config.{Config, tcp}
use vpn_app_ai.Privileges.{Call}
use vpn_app_ai.Status.{StatusFile, maybe_write}
use vpn_app_ai.Prelude.Texts.{codes, show_nat}
use vpn_app_ai.Protocol.Framing.{frame_packet}
use vpn_app_ai.Protocol.Data.Channel.{DataChannel}
use vpn_app_ai.Protocol.Control.Session.{Session}

pub data Effect : Type 0 where
  sendto write tun_write : Bytes → Effect
  set_ip : Text → Effect
  run : List Text → Effect
  -- the path and the text
  write_status : Text → Text → Effect
  remove_status : Text → Effect
  system : List Call → Effect

pub record VpnClient (k : Pki) : Type 0 where
  pub config : Config
  pub has_transport : Bool
  pub has_tcp_writer : Bool
  pub session : Session k
  pub channel : Option DataChannel
  pub handshake_done : Bool
  pub assigned_ip : Option Text
  pub routes_added : List (List Text)
  pub last_seen : ℕ
  pub connected : Bool
  pub status : Option StatusFile
  pub effects : List Effect

abbrev pub count : (StatusFile → StatusFile) → Option StatusFile → Option StatusFile
count f none = none
count f (some status) = some (f status)

-- How an f-string prints a text that may be None.
abbrev or_none_word : Option Text → Text
or_none_word none = codes "None"
or_none_word (some t) = t

module _ (k : Pki) where
  abbrev pub emit : Effect → VpnClient k → VpnClient k
  emit x c = record c { effects = c.effects ++ x ∷ [] }

  -- `f"{remote}:{port}"`
  unfoldable pub server_address : Config → Text
  server_address c = or_none_word c.remote ++ (b':' ∷ show_nat 4 c.port)

  abbrev pub after_write : StatusFile × Option Text → VpnClient k → VpnClient k
  after_write (f, none) c = record c { status = some f }
  after_write (f, some content) c =
      emit (write_status f.path content) (record c { status = some f })

  abbrev pub with_status : Option StatusFile → Bool → ℕ → VpnClient k → VpnClient k
  with_status none force now c = c
  with_status (some f) force now c =
      after_write (maybe_write f (server_address c.config) c.assigned_ip force now) c

  -- `self._status.maybe_write(...)`, if there is a status file.
  unfoldable pub write_status_file : Bool → ℕ → VpnClient k → VpnClient k
  write_status_file force now c = with_status c.status force now c

  -- `_sync_send`
  unfoldable pub sync_send : Bytes → Exec (VpnClient k) (Unit {0})
  sync_send packet c =
      if list_beq c.config.proto tcp && c.has_tcp_writer
      then (do frame ← calls (λ _. frame_packet packet); modify (emit (write frame))) c
      else if c.has_transport
      then returns tt (emit (sendto packet) c)
      else returns tt c

  unfoldable pub send_all : List Bytes → Exec (VpnClient k) (Unit {0})
  send_all [] = pure tt
  send_all (p ∷ ps) = do sync_send p; send_all ps
