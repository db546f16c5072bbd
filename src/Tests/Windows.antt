-- ===== src/Tests/Windows.antt =====
-- Concrete Windows systems: a driver that works and one that refuses a session.
use vpn_app_ai.Prelude.{◌≡◌, refl, false, true, none, some, List, [], ◌∷◌, nat_eq, arith}
use vpn_app_ai.Prelude.Texts.{codes}
use vpn_app_ai.Prelude.Result.{ok}
use vpn_app_ai.Bytes.{Bytes}
use vpn_app_ai.TunWindows.{
  open_tun, load_wintun, first_path, all_functions, adapter_created, adapter_deleted, Windows,
  new_tun, nothing, packet,
}
use vpn_app_ai.TunWindows.Uses.{reads, writes, sets_ip, sets_mtu, Use, with_blocks}
use vpn_app_ai.TunWindows.Guid.{guid_from_name, update, IsGuid, guid_from_name-IsGuid}
use vpn_app_ai.TunWindows.Handles.{adapter, is_open}
use vpn_app_ai.TunWindows.Blocks.{with_blocks-closed}

abbrev digest : Bytes
digest = 1 ∷ 2 ∷ 3 ∷ 4 ∷ 5 ∷ 6 ∷ 7 ∷ 255 ∷ 255 ∷ 10 ∷ 11 ∷ 12 ∷ 13 ∷ 14 ∷ 15 ∷ 16 ∷ []

abbrev windows : Windows
windows = record {
  paths = codes "wintun.dll" ∷ [];
  path_exists = λ path. true;
  load_dll = λ path. ok (λ name. true);
  md5 = λ bytes. digest;
  create_adapter = λ name guid. some 7;
  start_session = λ a capacity. some 8;
  read_wait_event = λ s. 9;
  allocate_send_packet = λ s size. some 10;
  succeeds = λ command. true;
}

guid_from_name-IsGuid_example :
    (h : Bytes) × (guid_from_name (λ bytes. digest) (codes "tun0") ≡ ok h) × IsGuid h
guid_from_name-IsGuid_example =
    guid_from_name-IsGuid (λ bytes. digest) (codes "tun0") refl (ground arith)

abbrev blocks : List (List Use)
blocks =
    (sets_ip (codes "10.8.0.2/24")
      ∷ sets_mtu 1400
      ∷ reads (nothing ∷ packet 11 (b'E' ∷ []) ∷ [])
      ∷ writes (b'E' ∷ [])
      ∷ [])
    ∷ []

with_blocks-closed_example :
    is_open (adapter 7) (with_blocks windows blocks (new_tun (codes "tun0"))).calls ≡ false
with_blocks-closed_example =
    with_blocks-closed windows (codes "tun0") blocks ((tt, (tt, ((tt, (tt, tt)), (tt, tt)))), tt)
      (adapter 7)

-- A driver that refuses a session.
abbrev refusing : Windows
refusing = record windows { start_session = λ a capacity. none }

closed_again :
    (with_blocks refusing blocks (new_tun (codes "tun0"))).calls
    ≡ adapter_created 7 ∷ adapter_deleted 7 ∷ []
unfolding with_blocks open_tun load_wintun first_path all_functions guid_from_name update
closed_again = refl
