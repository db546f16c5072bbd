-- ===== src/TunWindows/Handles.antt =====
-- What the TUN device of src/tun_windows.py takes from the driver it gives back.
use vpn_app_ai.Prelude.{
  ℕ, ◌≡◌, refl, sym, ◌∙◌, Bool, true, false, Option, none, some, List, [], ◌∷◌, ◌++◌, nat_beq,
  if◌then◌else◌, arith, Bool-cases,
}
use vpn_app_ai.Prelude.Result.{state}
use vpn_app_ai.Crypto.Pki.{Text}
use vpn_app_ai.TunWindows.{
  Call, adapter_created, adapter_deleted, session_started, session_ended, packet_received,
  packet_released, Windows, TunInterface, new_tun, emit, with_session, end_session, delete_adapter,
  close_tun,
}

-- A handle of the driver.
pub data Handle : Type 0 where
  adapter session buffer : ℕ → Handle

abbrev pub same_handle : Handle → Handle → Bool
same_handle (adapter a) (adapter b) = nat_beq a b
same_handle (session a) (session b) = nat_beq a b
same_handle (buffer a) (buffer b) = nat_beq a b
same_handle _ _ = false

-- Whether the handle is open behind one more call.
abbrev pub open_after : Handle → Call → Bool → Bool
open_after h c b = elim c [
  | adapter_created a ↦ if same_handle (adapter a) h then true else b
  | adapter_deleted a ↦ if same_handle (adapter a) h then false else b
  | session_started a ↦ if same_handle (session a) h then true else b
  | session_ended a ↦ if same_handle (session a) h then false else b
  | packet_received a ↦ if same_handle (buffer a) h then true else b
  | packet_released a ↦ if same_handle (buffer a) h then false else b
  | _ ↦ b
]

unfoldable pub open_from : Handle → Bool → List Call → Bool
open_from h b [] = b
open_from h b (c ∷ cs) = open_from h (open_after h c b) cs

-- Open behind the calls.
abbrev pub is_open : Handle → List Call → Bool
is_open h cs = open_from h false cs

open_from-append :
    (h : Handle) (b : Bool) (cs : List Call) (c : Call)
    → open_from h b (cs ++ c ∷ []) ≡ open_after h c (open_from h b cs)
unfolding open_from
open_from-append h b [] c = refl
open_from-append h b (d ∷ ds) c = open_from-append h (open_after h d b) ds c

abbrev pub is_held : Option ℕ → ℕ → Bool
is_held none a = false
is_held (some b) a = nat_beq b a

-- The handles that the object knows of: packets are given back at once.
abbrev pub knows : TunInterface → Handle → Bool
knows t h = elim h [
  | adapter a ↦ is_held t.adapter a
  | session a ↦ is_held t.session a
  | buffer a ↦ false
]

-- The object knows of every handle that is open.
abbrev pub Accounts : TunInterface → Type 0
Accounts t = (h : Handle) → is_open h t.calls ≡ true → knows t h ≡ true

pub new_tun-Accounts : (name : Text) → Accounts (new_tun name)
unfolding open_from
new_tun-Accounts name h e = cc e

-- Before the device is opened, or behind `close`.
pub record IsIdle (t : TunInterface) : Type 0 where
  pub no_adapter : t.adapter ≡ none
  pub no_session : t.session ≡ none
  pub accounts : Accounts t

pub emitted :
    (h : Handle) (c : Call) (t : TunInterface)
    → is_open h (emit c t).calls ≡ open_after h c (is_open h t.calls)
emitted h c t = open_from-append h false t.calls c

module _ (w : Windows) where
  -- `open` behind the adapter, with the driver's answer for a session.
  pub with_session-Accounts :
      (a : ℕ) (o : Option ℕ) (t : TunInterface)
      → t.adapter ≡ some a
      → t.session ≡ none
      → Accounts t
      → Accounts (state (with_session w a o t))
  with_session-Accounts a none t has_adapter no_session h = known
    where
      known : Accounts (state (with_session w a none t))
      known (adapter b) e = ground (
        arith,
        e,
        has_adapter,
        emitted (adapter b) (adapter_deleted a) t,
        h (adapter b),
        Bool-cases (nat_beq a b),
      )
      known (session b) e =
          ground (arith, e, no_session, emitted (session b) (adapter_deleted a) t, h (session b))
      known (buffer b) e = ground (arith, e, emitted (buffer b) (adapter_deleted a) t, h (buffer b))
  with_session-Accounts a (some s) t has_adapter no_session h = known
    where
      known : Accounts (state (with_session w a (some s) t))
      known (adapter b) e =
          ground (arith, e, has_adapter, emitted (adapter b) (session_started s) t, h (adapter b))
      known (session b) e = ground (
        arith,
        e,
        no_session,
        emitted (session b) (session_started s) t,
        h (session b),
        Bool-cases (nat_beq s b),
      )
      known (buffer b) e = ground (arith, e, emitted (buffer b) (session_started s) t, h (buffer b))

  pub created-Accounts :
      (a : ℕ) (t : TunInterface)
      → IsIdle t
      → Accounts (emit (adapter_created a) (record t { adapter = some a }))
  created-Accounts a t h = known
    where
      known : Accounts (emit (adapter_created a) (record t { adapter = some a }))
      known (adapter b) e = ground (
        arith,
        e,
        h.no_adapter,
        emitted (adapter b) (adapter_created a) t,
        h.accounts (adapter b),
        Bool-cases (nat_beq a b),
      )
      known (session b) e =
          ground (arith, e, emitted (session b) (adapter_created a) t, h.accounts (session b))
      known (buffer b) e =
          ground (arith, e, emitted (buffer b) (adapter_created a) t, h.accounts (buffer b))

  pub null_adapter-Accounts : (t : TunInterface) → IsIdle t → Accounts (record t { adapter = none })
  null_adapter-Accounts t h = known
    where
      known : Accounts (record t { adapter = none })
      known (adapter b) e = ground (arith, h.accounts (adapter b), h.no_adapter, e)
      known (session b) e = h.accounts (session b) e
      known (buffer b) e = h.accounts (buffer b) e

  end_session-Accounts :
      (o : Option ℕ) (t : TunInterface) → t.session ≡ o → Accounts t → Accounts (end_session w o t)
  end_session-Accounts none t e h = h
  end_session-Accounts (some s) t e h = known
    where
      known : Accounts (end_session w (some s) t)
      known (adapter b) q = h (adapter b) (sym (emitted (adapter b) (session_ended s) t) ∙ q)
      known (session b) q = ground (
        arith,
        q,
        e,
        emitted (session b) (session_ended s) t,
        h (session b),
        Bool-cases (nat_beq s b),
      )
      known (buffer b) q = h (buffer b) (sym (emitted (buffer b) (session_ended s) t) ∙ q)

  delete_adapter-Accounts :
      (o : Option ℕ) (t : TunInterface)
      → t.adapter ≡ o
      → Accounts t
      → Accounts (delete_adapter w o t)
  delete_adapter-Accounts none t e h = h
  delete_adapter-Accounts (some a) t e h = known
    where
      known : Accounts (delete_adapter w (some a) t)
      known (adapter b) q = ground (
        arith,
        q,
        e,
        emitted (adapter b) (adapter_deleted a) t,
        h (adapter b),
        Bool-cases (nat_beq a b),
      )
      known (session b) q = h (session b) (sym (emitted (session b) (adapter_deleted a) t) ∙ q)
      known (buffer b) q = h (buffer b) (sym (emitted (buffer b) (adapter_deleted a) t) ∙ q)

  end_session-none :
      (o : Option ℕ) (t : TunInterface) → t.session ≡ o → (end_session w o t).session ≡ none
  end_session-none none t e = e
  end_session-none (some s) t e = refl

  delete_adapter-none :
      (o : Option ℕ) (t : TunInterface)
      → t.adapter ≡ o
      → ((delete_adapter w o t).adapter ≡ none) × ((delete_adapter w o t).session ≡ t.session)
  delete_adapter-none none t e = (e, refl)
  delete_adapter-none (some a) t e = (refl, refl)

  pub close_tun-IsIdle : (t : TunInterface) → Accounts t → IsIdle (close_tun w t)
  unfolding close_tun
  close_tun-IsIdle t h =
      let closing = record t { closed = true } in
      let ended = end_session w t.session closing in
      let gone = delete_adapter-none ended.adapter ended refl in
      record {
        no_adapter = gone.0;
        no_session = gone.1 ∙ end_session-none t.session closing refl;
        accounts =
            delete_adapter-Accounts ended.adapter ended refl
              (end_session-Accounts t.session closing refl h);
      }

-- An object that knows of every open handle and of none has none open.
pub IsIdle-closed : (t : TunInterface) → IsIdle t → (h : Handle) → is_open h t.calls ≡ false
IsIdle-closed t i (adapter a) =
    ground (arith, i.no_adapter, i.accounts (adapter a), Bool-cases (is_open (adapter a) t.calls))
IsIdle-closed t i (session a) =
    ground (arith, i.no_session, i.accounts (session a), Bool-cases (is_open (session a) t.calls))
IsIdle-closed t i (buffer a) =
    ground (arith, i.accounts (buffer a), Bool-cases (is_open (buffer a) t.calls))
