-- ===== src/TunWindows/Blocks.antt =====
-- `__enter__`, `__exit__` and what stands between them in src/tun_windows.py: no handle stays open.
use vpn_app_ai.Prelude.{
  ℕ, ◌≡◌, refl, sym, ◌∙◌, Bool, true, false, Option, none, some, List, [], ◌∷◌, All, nat_eq,
  nat_beq, arith, length, Bool-cases,
}
use vpn_app_ai.Prelude.Texts.{int_of}
use vpn_app_ai.Prelude.Exec.{◌>>=◌, calls, if-outcome, bind-keeps, calls-state}
use vpn_app_ai.Prelude.Result.{os_error, Outcome, returns, raises, state}
use vpn_app_ai.Bytes.{Bytes}
use vpn_app_ai.Crypto.Pki.{Text}
use vpn_app_ai.Ipv4.{split}
use vpn_app_ai.TunWindows.Handles.{
  Handle, adapter, session, buffer, is_open, open_after, Accounts, IsIdle, emitted,
  new_tun-Accounts, close_tun-IsIdle, IsIdle-closed,
}
use vpn_app_ai.TunWindows.Opening.{LeavesKnown, open_tun-LeavesKnown}
use vpn_app_ai.TunWindows.{
  Call, packet_received, packet_released, packet_sent, run, Arrival, nothing, packet, Windows,
  TunInterface, new_tun, emit, netmask_of, open_tun, receive, read_from, read, send_packet,
  write_to, write, run_checked, address_command, interface_command, mtu_command, set_address,
  set_parts, or_value_error, set_ip, set_mtu,
}
use vpn_app_ai.TunWindows.Uses.{
  Use, reads, writes, sets_ip, sets_mtu, use_tun, use_all, leave, with_blocks,
}

-- A packet is not empty, as the driver documents.
abbrev pub IsFull : Arrival → Type 0
IsFull (packet pointer []) = ⊥
IsFull _ = Unit {0}

abbrev pub HasFullPackets : Use → Type 0
HasFullPackets (reads arrivals) = All IsFull arrivals
HasFullPackets _ = Unit {0}

-- A call that opens and closes nothing.
quiet-Accounts :
    (c : Call) (t : TunInterface)
    → ((h : Handle) (b : Bool) → open_after h c b ≡ b)
    → Accounts t
    → Accounts (emit c t)
quiet-Accounts c t quiet known = accounts
  where
    was : (h : Handle) → is_open h (emit c t).calls ≡ true → is_open h t.calls ≡ true
    was h e = sym (emitted h c t ∙ quiet h (is_open h t.calls)) ∙ e

    accounts : Accounts (emit c t)
    accounts (adapter a) e = known (adapter a) (was (adapter a) e)
    accounts (session a) e = known (session a) (was (session a) e)
    accounts (buffer a) e = known (buffer a) (was (buffer a) e)

module _ (w : Windows) where
  run_checked-Accounts :
      (command : List Text) (t : TunInterface)
      → Accounts t
      → Accounts (state (run_checked w command t))
  unfolding run_checked
  run_checked-Accounts command t h =
      if-outcome Accounts (w.succeeds command) _ _
        (λ e. quiet-Accounts (run command) t (λ h b. refl) h)
        (λ e. quiet-Accounts (run command) t (λ h b. refl) h)

  -- A packet is received and given back.
  taken-Accounts :
      (p : ℕ) (t : TunInterface)
      → Accounts t
      → Accounts (emit (packet_released p) (emit (packet_received p) t))
  taken-Accounts p t known = accounts
    where
      accounts : Accounts (emit (packet_released p) (emit (packet_received p) t))
      accounts (adapter a) e = known (adapter a) (
          sym (
            emitted (adapter a) (packet_released p) (emit (packet_received p) t)
            ∙ emitted (adapter a) (packet_received p) t)
          ∙ e)
      accounts (session a) e = known (session a) (
          sym (
            emitted (session a) (packet_released p) (emit (packet_received p) t)
            ∙ emitted (session a) (packet_received p) t)
          ∙ e)
      accounts (buffer a) e = ground (
        arith,
        e,
        emitted (buffer a) (packet_released p) (emit (packet_received p) t),
        emitted (buffer a) (packet_received p) t,
        known (buffer a),
        Bool-cases (nat_beq p a),
      )

  receive-Accounts :
      (arrivals : List Arrival)
      → All IsFull arrivals
      → (t : TunInterface) → Accounts t
      → Accounts (state (receive w arrivals t))
  unfolding receive
  receive-Accounts [] full t h = closing
    where
      closing : Accounts (record t { closed = true })
      closing (adapter a) e = h (adapter a) e
      closing (session a) e = h (session a) e
      closing (buffer a) e = h (buffer a) e
  receive-Accounts (nothing ∷ later) full t h = receive-Accounts later full.1 t h
  receive-Accounts (packet p [] ∷ later) full t h = absurd full.0
  receive-Accounts (packet p (b ∷ bs) ∷ later) full t h = taken-Accounts p t h

  read_from-Accounts :
      (arrivals : List Arrival)
      → All IsFull arrivals
      → (o : Option ℕ) (t : TunInterface) → Accounts t
      → Accounts (state (read_from w arrivals o t))
  read_from-Accounts arrivals full none t h = h
  read_from-Accounts arrivals full (some opened) t h =
      if-outcome Accounts t.closed (raises os_error t) (receive w arrivals t) (λ e. h)
        (λ e. receive-Accounts arrivals full t h)

  send_packet-Accounts :
      (bytes : Bytes) (o : Option ℕ) (t : TunInterface)
      → Accounts t
      → Accounts (state (send_packet w bytes o t))
  send_packet-Accounts bytes none t h = h
  send_packet-Accounts bytes (some pointer) t h =
      quiet-Accounts (packet_sent pointer bytes) t (λ k b. refl) h

  write_to-Accounts :
      (bytes : Bytes) (o : Option ℕ) (t : TunInterface)
      → Accounts t
      → Accounts (state (write_to w bytes o t))
  write_to-Accounts bytes none t h = h
  write_to-Accounts bytes (some opened) t h =
      send_packet-Accounts bytes (w.allocate_send_packet opened (length bytes)) t h

  set_address-Accounts :
      (ip mask : Text) (t : TunInterface) → Accounts t → Accounts (state (set_address w ip mask t))
  unfolding set_address
  set_address-Accounts ip mask t h =
      bind-keeps Accounts (run_checked w (address_command w ip mask t))
        (λ _. run_checked w (interface_command w t)) t
        (run_checked-Accounts (address_command w ip mask t) t h)
        (λ _ u g. run_checked-Accounts (interface_command w t) u g)

  set_parts-Accounts :
      (parts : List Text) (t : TunInterface) → Accounts t → Accounts (state (set_parts w parts t))
  set_parts-Accounts [] t h = h
  set_parts-Accounts (ip ∷ []) t h = h
  set_parts-Accounts (ip ∷ prefix ∷ []) t h =
      calls-state Accounts (λ _. or_value_error w (int_of prefix))
        (λ number. calls (λ _. netmask_of number) >>= λ mask. set_address w ip mask) t h
        (λ number e.
          calls-state Accounts (λ _. netmask_of number) (λ mask. set_address w ip mask) t h
            (λ mask e'. set_address-Accounts ip mask t h))
  set_parts-Accounts (ip ∷ prefix ∷ more ∷ parts) t h = h

  use_tun-Accounts :
      (u : Use) → HasFullPackets u → (t : TunInterface) → Accounts t → Accounts (use_tun w u t)
  unfolding use_tun read write set_ip set_mtu
  use_tun-Accounts (reads arrivals) full t h = read_from-Accounts arrivals full t.session t h
  use_tun-Accounts (writes bytes) full t h = write_to-Accounts bytes t.session t h
  use_tun-Accounts (sets_ip cidr) full t h = set_parts-Accounts (split b'/' cidr) t h
  use_tun-Accounts (sets_mtu mtu) full t h = run_checked-Accounts (mtu_command w mtu t) t h

  use_all-Accounts :
      (us : List Use)
      → All HasFullPackets us
      → (t : TunInterface) → Accounts t
      → Accounts (use_all w us t)
  unfolding use_all
  use_all-Accounts [] full t h = h
  use_all-Accounts (u ∷ us) full t h =
      use_all-Accounts us full.1 (use_tun w u t) (use_tun-Accounts u full.0 t h)

  leave-IsIdle :
      (uses : List Use) (o : Outcome TunInterface (Unit {0}))
      → All HasFullPackets uses
      → LeavesKnown w o
      → IsIdle (leave w uses o)
  leave-IsIdle uses (raises x t) full h = h
  leave-IsIdle uses (returns u t) full h =
      close_tun-IsIdle w (use_all w uses t) (use_all-Accounts uses full t h)

  with_blocks-IsIdle :
      (blocks : List (List Use))
      → All (All HasFullPackets) blocks
      → (t : TunInterface) → IsIdle t
      → IsIdle (with_blocks w blocks t)
  unfolding with_blocks
  with_blocks-IsIdle [] full t h = h
  with_blocks-IsIdle (uses ∷ blocks) full t h =
      with_blocks-IsIdle blocks full.1 (leave w uses (open_tun w t))
        (leave-IsIdle uses (open_tun w t) full.0 (open_tun-LeavesKnown w t h))

  -- However often a device is opened in a `with` block, read, written and set up there, with whatever
  -- fails on the way, no adapter, no session and no received packet is open at the end, when the driver
  -- hands out no empty packet.
  pub with_blocks-closed :
      (name : Text) (blocks : List (List Use))
      → All (All HasFullPackets) blocks
      → (h : Handle) → is_open h (with_blocks w blocks (new_tun name)).calls ≡ false
  with_blocks-closed name blocks full h =
      IsIdle-closed (with_blocks w blocks (new_tun name))
        (with_blocks-IsIdle blocks full (new_tun name)
          (record { no_adapter = refl; no_session = refl; accounts = new_tun-Accounts name }))
        h
