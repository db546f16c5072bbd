-- ===== src/TunWindows/Opening.antt =====
-- What `open` of src/tun_windows.py leaves behind, whether it raises or returns.
use vpn_app_ai.Prelude.{ℕ, ◌≡◌, refl, Bool, true, false, Option, none, some, nat_eq}
use vpn_app_ai.Prelude.Result.{Result, ok, raise, Outcome, returns, raises}
use vpn_app_ai.Bytes.{Bytes}
use vpn_app_ai.TunWindows.Guid.{guid_from_name}
use vpn_app_ai.TunWindows.Handles.{
  Accounts, IsIdle, with_session-Accounts, created-Accounts, null_adapter-Accounts,
}
use vpn_app_ai.TunWindows.{
  adapter_created, Windows, TunInterface, emit, adapter_name, load_wintun, with_session,
  with_adapter, with_guid, with_library, open_tun,
}

module _ (w : Windows) where
  -- What a call of `open` leaves: nothing when it raises, and else what the object knows of.
  abbrev pub LeavesKnown : Outcome TunInterface (Unit {0}) → Type 0
  LeavesKnown (raises x t) = IsIdle t
  LeavesKnown (returns u t) = Accounts t

  with_session-LeavesKnown :
      (a : ℕ) (o : Option ℕ) (t : TunInterface)
      → t.adapter ≡ some a
      → t.session ≡ none
      → Accounts t
      → LeavesKnown (with_session w a o t)
  with_session-LeavesKnown a none t has_adapter no_session h = record {
    no_adapter = refl;
    no_session = refl;
    accounts = with_session-Accounts w a none t has_adapter no_session h;
  }
  with_session-LeavesKnown a (some s) t has_adapter no_session h =
      with_session-Accounts w a (some s) t has_adapter no_session h

  with_adapter-LeavesKnown :
      (o : Option ℕ) (t : TunInterface) → IsIdle t → LeavesKnown (with_adapter w o t)
  with_adapter-LeavesKnown none t h = record {
    no_adapter = refl;
    no_session = h.no_session;
    accounts = null_adapter-Accounts w t h;
  }
  with_adapter-LeavesKnown (some a) t h =
      with_session-LeavesKnown a (w.start_session a 0x400000)
        (emit (adapter_created a) (record t { adapter = some a })) refl h.no_session
        (created-Accounts w a t h)

  with_guid-LeavesKnown :
      (g : Result Bytes) (t : TunInterface) → IsIdle t → LeavesKnown (with_guid w g t)
  with_guid-LeavesKnown (raise x) t h = h
  with_guid-LeavesKnown (ok guid) t h =
      with_adapter-LeavesKnown (w.create_adapter (adapter_name t) guid) t h

  with_library-LeavesKnown :
      (r : Result Bool) (t : TunInterface) → IsIdle t → LeavesKnown (with_library w r t)
  with_library-LeavesKnown (raise x) t h = h
  with_library-LeavesKnown (ok false) t h = h
  with_library-LeavesKnown (ok true) t h = with_guid-LeavesKnown (guid_from_name w.md5 t.name) t h

  pub open_tun-LeavesKnown : (t : TunInterface) → IsIdle t → LeavesKnown (open_tun w t)
  unfolding open_tun
  open_tun-LeavesKnown t h = with_library-LeavesKnown (load_wintun w) t h
