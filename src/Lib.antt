-- ===== src/Lib.antt =====
-- A model of the VPN of src/: a client and a server that authenticate each other over a UDP or TCP
-- transport, agree on a key, and carry the packets of a TUN device under AES-GCM.
--
-- The parts, from the wire inward:
--   Bytes                     the uses of `struct` and `int.from_bytes` (big-endian unsigned fields)
--   Protocol.Messages         src/protocol/messages.py: opcodes and message types
--   Protocol.Packet           src/protocol/packet.py: `encode_packet`, `decode_packet`, acks, messages
--   Protocol.Framing          src/protocol/framing.py: `frame_packet`, `read_frame`, and the read loop
--                             of src/client.py; the stream is the list of the bytes still to come
--   Protocol.Replay           src/protocol/replay.py: `ReplayWindow`; Replay.History is the history
--                             of accepted ids that it stands for
--   Crypto, Crypto.Pki        src/crypto/: `Cipher`, key derivation, certificates
--   Protocol.Data             src/protocol/data.py: `DataChannel` (Channel), `encrypt` (Encrypt) and
--                             `decrypt` (Decrypt)
--   Protocol.Control          src/protocol/control.py: `Session` (Session), the fields of the hello
--                             messages (Hello), the server's handlers (Server) and the client's (Client)
--   Ipv4, Routing.Pool        what src/routing.py uses of `ipaddress`, and `IpPool`
--   Routing.Commands          src/routing.py: the functions that run `ip` and `iptables`
--   Config                    src/config.py: the `Config` record and its validation, as the rest of the
--                             program reads it; Config.Options is the same object with attributes of
--                             any type, and Config.Parse the parser of option files that fills it;
--                             Config.Words and Config.Lines write option files
--   Cli                       src/cli.py: what `parse_args` does with argparse's namespace
--   Server                    src/server.py: the state (Server.State) and its start (Server.Start), the
--                             datagram handler and `_cleanup_stale` (Server.Handle), the TUN handler
--                             (Server.Tun), the event loop (Server.Loop), and `run` with its set-up
--                             and `_cleanup` (Server.Run); Server.Resources reads off the recorded
--                             calls what is held of the system, and Server.Linked.* keep the
--                             server's fields in step with it, Linked.Raising where the `finally`
--                             block raises; Server.Staleness says who is due to go; Server.Pooled relates the clients'
--                             addresses to the records of the pool
--   Status                    src/status.py: `StatusFile`, its text and its timing
--   Client                    src/client.py: the state (Client.State), the datagram, assignment and TUN
--                             handlers (Client.Handle), and `run` and `_connect` (Client.Run)
--   Tun                       src/tun.py: `TunInterface` on Linux, and `prefixlen_to_netmask`
--   TunWindows                src/tun_windows.py: the same device over the Wintun driver, its GUIDs
--                             (Guid), a `with` block round it (Uses), and the handles it
--                             opens (Handles, Opening, Blocks)
--   Protocol.Tls              src/protocol/tls_channel.py: messages over a TLS socket; Tls.Endpoint has
--                             the contexts, `accept` and `connect_client`
--   Tunnel                    the client's and the server's handlers together, and the way back
--                             (Tunnel.Back)
--   Privileges                src/privileges.py: the calls by which the process gives up root
--   Prelude                   Boolean tests, lists, bits, dictionaries, integers, exceptions (Result),
--                             and methods that may raise after a change of state (Exec)
--   Tests                     the theorems at concrete inputs
--
-- A datagram enters at `handle_udp_data` (Server.Handle), which decodes it (Protocol.Packet), runs a
-- handler of the handshake on the client's `Session` (Protocol.Control), opens a `DataChannel`
-- (Protocol.Data) and assigns an address (Routing.Pool) once the session is established, and hands
-- data packets to the channel, whose replay window and cipher decide. What a handler sends or does
-- to the system is a list of effects in the server's state, in order.
--
-- Conventions. A method is a function from the object's state to an outcome: a result and a state,
-- or an exception and the state that it leaves. `os.urandom`, `time.time` and generated keys are
-- arguments. Times are in milliseconds. Bytes and texts are lists of numbers. The event loop of the
-- client is a schedule, what happens in each sleep of the loop, in order; that of the server is a
-- sequence of rounds, each with its time and its events, each of which runs to its end before the
-- next. The packages cryptography (AEAD, X25519, HKDF, X.509) and lz4, and the file system, are
-- parameters (`Aead`, `Pki`, `Lz4`), and so are a TLS socket (`Socket`), argparse's result
-- (`Namespace`) and the operating system (`System`, `Shell`, `Machine`, `Windows`), and the module
-- ssl (`Ssl`); their documented behaviour is a record of laws (`AeadLaws`, `Lz4Laws`, `KeyLaws`,
-- `ExchangeLaws`, `StreamLaws`, `NatLaws`, `SslLaws`), kept by the concrete functions of Tests. The
-- client object that the server's dictionary shares is stored back after each change. `receive` runs
-- on fuel, one round for each frame and one more; `recv_onto` has as many rounds as bytes are
-- needed, and each takes one; `show_nat` is given at least as many digits as its number has, and
-- `ones` at least as many rounds as its number has binary digits.
--
-- Not modelled: what the system makes of `ip` and `iptables` behind a call (the calls are recorded,
-- and Server.Resources counts them), sockets, signal handlers and task scheduling (the client's TCP
-- connection among them), logging, argparse, and `main`. Sends do not fail, and the TUN device is
-- there while the handlers of client and server run.
pub mod Prelude
pub mod Bytes
pub mod Crypto
pub mod Protocol
pub mod Ipv4
pub mod Routing
pub mod Config
pub mod Server
pub mod Privileges
pub mod Status
pub mod Client
pub mod Cli
pub mod Tun
pub mod TunWindows
pub mod Tunnel
pub mod Tests
