-- ===== src/Protocol/Tls.antt =====
-- src/protocol/tls_channel.py: messages behind their lengths over a TLS socket, which is a parameter.
pub mod Exchange
pub mod Endpoint
pub mod Verified
use vpn_app_ai.Prelude.{
  ℕ, zero, suc, ◌+◌, ◌-◌, Bool, true, false, List, [], ◌∷◌, ◌++◌, length, nat_beq, nat_eq,
  if◌then◌else◌,
}
use vpn_app_ai.Prelude.Exec.{Exec, ◌>>=◌, ◌>>◌, pure, calls}
use vpn_app_ai.Prelude.Result.{
  Exception, os_error, tls_error, Result, ok, raise, Outcome, returns, raises,
}
use vpn_app_ai.Bytes.{Bytes, pack, unpack}

-- `recv(n)` and `sendall(data)` of a socket, which may raise. The lock is not modelled: one thread
-- sends.
pub record Socket : Type 1 where
  pub State : Type 0
  pub recv : ℕ → Exec State Bytes
  pub sendall : Bytes → Exec State (Unit {0})

-- `_HEADER.size`
abbrev pub header_size : ℕ
header_size = 4

-- `_HEADER.pack(len(data)) + data`
unfoldable pub frame : Bytes → Result Bytes
frame message = elim (pack header_size (length message)) [
  | ok n ↦ ok (n ++ message)
  | raise x ↦ raise x
]

module _ (k : Socket) where
  unfoldable pub send : Bytes → Exec k.State (Unit {0})
  send message = do framed ← calls (λ _. frame message); k.sendall framed

  -- `except OSError`
  unfoldable pub as_tls_error : Exception → Exception
  as_tls_error os_error = tls_error
  as_tls_error x = x

  -- The loop of `_recv_exact` with `need` bytes to come. A round takes one byte at least, so `need`
  -- rounds are enough, and with no round left nothing is needed.
  unfoldable pub recv_onto : ℕ → ℕ → Bytes → Exec k.State Bytes
  unfolding as_tls_error
  recv_onto zero need buf s = returns buf s
  recv_onto (suc rounds) need buf s =
      if nat_beq need 0 then returns buf s else elim (k.recv need s) [
        | raises x t ↦ raises (as_tls_error x) t
        | returns [] t ↦ raises tls_error t
        | returns (c ∷ cs) t ↦ recv_onto rounds (need - length (c ∷ cs)) (buf ++ (c ∷ cs)) t
      ]

  -- `_recv_exact`
  unfoldable pub recv_exact : ℕ → Exec k.State Bytes
  unfolding recv_onto
  recv_exact n = recv_onto n n []

  unfoldable pub recv : Exec k.State Bytes
  recv = do
    header ← recv_exact header_size
    size ← calls (λ _. unpack header_size header)
    recv_exact size

  -- `exchange_data_key`; `key` is what `Cipher.generate_key()` returns.
  unfoldable pub exchange_data_key : Bool → Bytes → Exec k.State Bytes
  unfolding send recv
  exchange_data_key true key = do send key; pure key
  exchange_data_key false key = do received ← recv; send received; pure received
