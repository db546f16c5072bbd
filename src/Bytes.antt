-- ===== src/Bytes.antt =====
-- Byte strings, and what the program uses of Python's `struct` and `int.from_bytes`: unsigned
-- big-endian fields ("!B", "!H", "!I", "!Q"). A byte string is the list of its byte values.
pub mod Codec
use vpn_app_ai.Prelude.{
  ℕ, zero, suc, ◌+◌, ◌*◌, ◌/◌, ◌%◌, ◌^◌, ◌<◌, List, [], ◌∷◌, ◌++◌, All, length, ltb, nat_beq,
  if◌then◌else◌,
}
use vpn_app_ai.Prelude.Result.{Result, ok, raise, struct_error}

abbrev pub Bytes : Type 0
Bytes = List ℕ

abbrev pub IsBytes : Bytes → Type 0
IsBytes = All (λ b. b < 256)

-- The last `w` base-256 digits of `v`, the highest first.
unfoldable pub big_endian : ℕ → ℕ → Bytes
big_endian zero v = []
big_endian (suc w) v = big_endian w (v / 256) ++ (v % 256) ∷ []

-- `struct.pack` of one unsigned field of `w` bytes, which raises out of range.
unfoldable pub pack : ℕ → ℕ → Result Bytes
pack w v = if ltb v (256 ^ w) then ok (big_endian w v) else raise struct_error

unfoldable pub from_bytes_onto : ℕ → Bytes → ℕ
from_bytes_onto acc [] = acc
from_bytes_onto acc (b ∷ bs) = from_bytes_onto (acc * 256 + b) bs

-- `int.from_bytes(bs, "big")`
unfoldable pub from_bytes : Bytes → ℕ
unfolding from_bytes_onto
from_bytes bs = from_bytes_onto 0 bs

-- `struct.unpack` of one unsigned field of `w` bytes, which raises on any other length.
unfoldable pub unpack : ℕ → Bytes → Result ℕ
unpack w bs = if nat_beq (length bs) w then ok (from_bytes bs) else raise struct_error
