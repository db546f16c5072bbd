-- ===== src/TunWindows/Uses.antt =====
-- A `with` block round a device of src/tun_windows.py: `__enter__`, what the block does, `__exit__`.
use vpn_app_ai.Prelude.{ℕ, List, [], ◌∷◌}
use vpn_app_ai.Prelude.Result.{Outcome, returns, raises, state}
use vpn_app_ai.Bytes.{Bytes}
use vpn_app_ai.Crypto.Pki.{Text}
use vpn_app_ai.TunWindows.{
  Arrival, Windows, TunInterface, read, write, set_ip, set_mtu, open_tun, close_tun,
}

-- What a program does with an open device.
pub data Use : Type 0 where
  reads : List Arrival → Use
  writes : Bytes → Use
  sets_ip : Text → Use
  sets_mtu : ℕ → Use

module _ (w : Windows) where
  unfoldable pub use_tun : Use → TunInterface → TunInterface
  unfolding read write set_ip set_mtu
  use_tun (reads arrivals) t = state (read w arrivals t)
  use_tun (writes bytes) t = state (write w bytes t)
  use_tun (sets_ip cidr) t = state (set_ip w cidr t)
  use_tun (sets_mtu mtu) t = state (set_mtu w mtu t)

  unfoldable pub use_all : List Use → TunInterface → TunInterface
  use_all [] t = t
  use_all (u ∷ us) t = use_all us (use_tun u t)

  -- `__enter__`, the block and `__exit__`: an exception of `__enter__` skips both.
  abbrev pub leave : List Use → Outcome TunInterface (Unit {0}) → TunInterface
  leave uses (raises x t) = t
  leave uses (returns u t) = close_tun w (use_all uses t)

  -- One `with` block behind the other on one object.
  unfoldable pub with_blocks : List (List Use) → TunInterface → TunInterface
  with_blocks [] t = t
  with_blocks (uses ∷ blocks) t = with_blocks blocks (leave uses (open_tun w t))
