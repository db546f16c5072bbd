-- ===== src/Status.antt =====
-- src/status.py: the counters of a client's status file, its text and when it is written. Times are in
-- milliseconds, the interval is in seconds.
use vpn_app_ai.Prelude.{
  ℕ, ◌+◌, ◌-◌, ◌*◌, Bool, not, ◌&&◌, Option, none, some, List, [], ◌∷◌, ◌++◌, ltb, if◌then◌else◌,
}
use vpn_app_ai.Prelude.Texts.{codes, show_nat}
use vpn_app_ai.Crypto.Pki.{Text}

-- `strftime` is `time.strftime` with the format of the file, of a time. That writing succeeds makes no
-- difference to the object.
pub record StatusFile : Type 0 where
  pub path : Text
  pub interval : ℕ
  pub start_time : ℕ
  pub last_write : ℕ
  pub bytes_in : ℕ
  pub bytes_out : ℕ
  pub packets_in : ℕ
  pub packets_out : ℕ
  pub strftime : ℕ → Text

-- `StatusFile(path)`
unfoldable pub new_status : Text → (ℕ → Text) → ℕ → StatusFile
new_status path strftime now = record {
  path = path;
  interval = 10;
  start_time = now;
  last_write = 0;
  bytes_in = 0;
  bytes_out = 0;
  packets_in = 0;
  packets_out = 0;
  strftime = strftime;
}

-- `record_in` and `record_out`
unfoldable pub record_in : ℕ → StatusFile → StatusFile
record_in size f = record f { bytes_in = f.bytes_in + size; packets_in = f.packets_in + 1 }

unfoldable pub record_out : ℕ → StatusFile → StatusFile
record_out size f = record f { bytes_out = f.bytes_out + size; packets_out = f.packets_out + 1 }

-- `virtual_ip or 'N/A'`
unfoldable pub or_unassigned : Option Text → Text
or_unassigned none = codes "N/A"
or_unassigned (some []) = codes "N/A"
or_unassigned (some (c ∷ cs)) = c ∷ cs

unfoldable pub unlines : List Text → Text
unlines [] = []
unlines (line ∷ lines) = line ++ (10 ∷ unlines lines)

-- The text that `_write` puts into the file.
unfoldable pub status_text : StatusFile → Text → Option Text → ℕ → Text
unfolding unlines or_unassigned
status_text f server_ip virtual_ip now = unlines (
    codes "OpenVPN CLIENT LIST"
    ∷ (codes "Updated," ++ f.strftime now)
    ∷ codes "Common Name,Real Address,Bytes Received,Bytes Sent,Connected Since"
    ∷ (codes "CLIENT_ASSIGNED,"
        ++ server_ip
        ++ codes ","
        ++ show_nat f.bytes_in f.bytes_in
        ++ codes ","
        ++ show_nat f.bytes_out f.bytes_out
        ++ codes ","
        ++ f.strftime f.start_time)
    ∷ codes "ROUTING TABLE"
    ∷ (or_unassigned virtual_ip ++ codes "," ++ server_ip ++ codes ",")
    ∷ codes "GLOBAL STATS"
    ∷ codes "Max bcast/mcast queue length,0"
    ∷ codes "END"
    ∷ [])

-- `maybe_write`: the object behind it, and the text if it writes.
unfoldable pub maybe_write : StatusFile → Text → Option Text → Bool → ℕ → StatusFile × Option Text
maybe_write f server_ip virtual_ip force now =
    if not force && ltb (now - f.last_write) (f.interval * 1000)
    then (f, none)
    else (record f { last_write = now }, some (status_text f server_ip virtual_ip now))
