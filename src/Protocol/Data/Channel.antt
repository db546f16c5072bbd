-- ===== src/Protocol/Data/Channel.antt =====
-- The state of a `DataChannel` of src/protocol/data.py, its constructor and `cleanup_fragments`.
use vpn_app_ai.Prelude.{
  ℕ, ◌-◌, Bool, true, false, ◌&&◌, Option, none, some, List, [], ◌∷◌, bit_xor, ltb, nat_eq,
  if◌then◌else◌,
}
use vpn_app_ai.Prelude.Int.{ℤ, int_eq}
use vpn_app_ai.Prelude.Dict.{Dict, remove}
use vpn_app_ai.Prelude.Result.{Result, ok, ◌>>=◌}
use vpn_app_ai.Bytes.{Bytes}
use vpn_app_ai.Crypto.{Aead, Cipher}
use vpn_app_ai.Protocol.Replay.{ReplayWindow, new_window}

abbrev pub comp_none : ℕ
comp_none = 0

abbrev pub comp_lzo : ℕ
comp_lzo = 1

abbrev pub frag_mask : ℕ
frag_mask = 0x80

abbrev pub max_payload : ℕ
max_payload = 1400

abbrev pub frag_timeout : ℕ
frag_timeout = 5000

-- `lz4.block`; a failing `decompress` is none.
pub record Lz4 : Type 0 where
  pub compress : Bytes → Bytes
  pub decompress : Bytes → Option Bytes

-- The packages that the channel calls. `lz4` is none where it is not installed.
pub record Packages : Type 0 where
  pub aead : Aead
  pub lz4 : Option Lz4

-- One entry of `_fragments`.
pub record Group : Type 0 where
  pub total : ℕ
  pub parts : Dict ℕ Bytes
  pub ts : ℕ

-- `cipher` is none where the caller hands over None.
pub record DataChannel : Type 0 where
  pub shared_id : Bytes
  pub cipher : Option Cipher
  pub packet_counter : ℕ
  pub compressing : Bool
  pub fragments : Dict ℤ Group
  pub replay : ReplayWindow

-- `zip` stops at the shorter id.
unfoldable pub derive_session_id : Bytes → Bytes → Bytes
derive_session_id (a ∷ our_id) (b ∷ peer_id) = bit_xor a b ∷ derive_session_id our_id peer_id
derive_session_id _ _ = []

abbrev pub is_some {ℓ} : {A : Type ℓ} → Option A → Bool
is_some none = false
is_some (some a) = true

module _ (p : Packages) where
  unfoldable pub new_channel : Bytes → Bytes → Option Cipher → Bool → ℕ → Result DataChannel
  unfolding derive_session_id
  new_channel our_id peer_id cipher comp window_size = do
    w ← new_window window_size
    ok (record {
      shared_id = derive_session_id our_id peer_id;
      cipher = cipher;
      packet_counter = 0;
      compressing = comp && is_some p.lz4;
      fragments = [];
      replay = w;
    })

-- The keys of the groups that are older than `frag_timeout`.
unfoldable pub stale_groups : ℕ → Dict ℤ Group → List ℤ
stale_groups now [] = []
stale_groups now ((gid, buf) ∷ rest) =
    let others = stale_groups now rest in
    if ltb frag_timeout (now - buf.ts) then gid ∷ others else others

unfoldable pub remove_all : List ℤ → Dict ℤ Group → Dict ℤ Group
remove_all [] d = d
remove_all (k ∷ ks) d = remove_all ks (remove k d)

unfoldable pub cleanup_fragments : DataChannel → ℕ → DataChannel
unfolding stale_groups remove_all
cleanup_fragments ch now = record ch {
  fragments = remove_all (stale_groups now ch.fragments) ch.fragments;
}
