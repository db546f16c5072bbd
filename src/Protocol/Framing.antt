-- ===== src/Protocol/Framing.antt =====
-- src/protocol/framing.py: packets over TCP, each behind its length in two bytes.
pub mod Stream
use vpn_app_ai.Prelude.{
  ℕ, zero, suc, Option, none, some, List, [], ◌∷◌, ◌++◌, length, take, drop, ltb, if◌then◌else◌,
}
use vpn_app_ai.Prelude.Result.{Result, ok, raise, incomplete_read, ◌>>=◌, Outcome, returns, raises}
use vpn_app_ai.Bytes.{Bytes, pack, unpack}

unfoldable pub frame_packet : Bytes → Result Bytes
frame_packet packet = do n ← pack 2 (length packet); ok (n ++ packet)

-- A `StreamReader` is the bytes that it will still deliver before the end of the stream. At the end
-- `readexactly` raises IncompleteReadError and has used up what was left.
unfoldable pub readexactly : ℕ → Bytes → Outcome Bytes Bytes
readexactly n reader =
    if ltb (length reader) n
    then raises incomplete_read []
    else returns (take n reader) (drop n reader)

unfoldable pub read_frame : Bytes → Outcome Bytes (Option Bytes)
unfolding readexactly
read_frame reader = elim (readexactly 2 reader) [
  | raises x rest ↦ returns none rest
  | returns raw rest ↦ elim (unpack 2 raw) [
    | raise x ↦ raises x rest
    | ok n ↦ elim (readexactly n rest) [
      | raises x end ↦ returns none end
      | returns body more ↦ returns (some body) more
    ]
  ]
]

-- The packets that a loop `data = await read_frame(reader); if data is None: break` hands on, in at
-- most `fuel` rounds.
unfoldable pub receive : ℕ → Bytes → List Bytes
unfolding read_frame
receive zero reader = []
receive (suc fuel) reader = elim (read_frame reader) [
  | returns (some packet) rest ↦ packet ∷ receive fuel rest
  | returns none rest ↦ []
  | raises x rest ↦ []
]
