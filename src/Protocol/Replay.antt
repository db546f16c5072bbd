-- ===== src/Protocol/Replay.antt =====
-- src/protocol/replay.py: the sliding window that drops packet ids seen before.
pub mod History
pub mod Window
pub mod Verdicts
use vpn_app_ai.Prelude.{
  ℕ, ◌+◌, ◌-◌, ◌*◌, ◌^◌, Bool, true, false, not, ◌||◌, Option, none, some, List, [], ◌∷◌, bit_and,
  bit_or, ltb, leb, nat_beq, if◌then◌else◌,
}
use vpn_app_ai.Prelude.Int.{ℤ, pos, negsuc}
use vpn_app_ai.Prelude.Result.{Result, ok, raise, value_error}

abbrev pub max_window : ℕ
max_window = 64

-- `highest` is none where the source has -1. `seen` is a Python integer, so it has no width: the
-- shifts never drop a bit.
pub record ReplayWindow : Type 0 where
  pub window_size : ℕ
  pub highest : Option ℕ
  pub seen : ℕ

-- `ReplayWindow(window_size)`
unfoldable pub new_window : ℕ → Result ReplayWindow
new_window window_size =
    if ltb window_size 1 || ltb max_window window_size
    then raise value_error
    else ok (record { window_size = window_size; highest = none; seen = 0 })

-- `_seen <<= delta` or `_seen = 0`, and then `_seen |= 1`.
unfoldable pub advance : ℕ → ℕ → ℕ → ℕ
advance window_size delta seen = bit_or (if leb window_size delta then 0 else seen * 2 ^ delta) 1

-- The rest of `check`, for an id that is not negative.
unfoldable pub check_id : ReplayWindow → ℕ → Option ℕ → Bool × ReplayWindow
unfolding advance
check_id w packet_id none = (true, record w { highest = some packet_id; seen = 1 })
check_id w packet_id (some highest) =
    if ltb highest packet_id
    then (
      true,
      record w {
        seen = advance w.window_size (packet_id - highest) w.seen;
        highest = some packet_id;
      },
    )
    else let delta = highest - packet_id in
      if leb w.window_size delta
      then (false, w)
      else if not (nat_beq (bit_and w.seen (2 ^ delta)) 0)
      then (false, w)
      else (true, record w { seen = bit_or w.seen (2 ^ delta) })

unfoldable pub check : ReplayWindow → ℤ → Bool × ReplayWindow
unfolding check_id
check w (negsuc n) = (false, w)
check w (pos packet_id) = check_id w packet_id w.highest

unfoldable pub reset : ReplayWindow → ReplayWindow
reset w = record w { highest = none; seen = 0 }

-- The answers to a sequence of ids.
unfoldable pub verdicts : ReplayWindow → List ℤ → List Bool
verdicts w [] = []
verdicts w (p ∷ ps) = (check w p).0 ∷ verdicts (check w p).1 ps

-- The window after a sequence of ids.
unfoldable pub after : ReplayWindow → List ℤ → ReplayWindow
after w [] = w
after w (p ∷ ps) = after (check w p).1 ps
