-- ===== src/Server/Staleness.antt =====
-- Which clients `_cleanup_stale` of src/server.py drops, said in times.
use vpn_app_ai.Prelude.{
  ℕ, ◌+◌, ◌-◌, ◌*◌, ◌<◌, ◌≡◌, ◌≢◌, ◌↔◌, ◌⊎◌, refl, sym, ap, ◌∙◌, inl, inr, Bool, true, false, not,
  ◌&&◌, ◌||◌, none, some, List, [], ◌∷◌, ltb, ltb→lt, lt→ltb, nat_eq, list_eq, if◌then◌else◌, arith,
  Bool-cases,
}
use vpn_app_ai.Prelude.Dict.{Dict, lookup}
use vpn_app_ai.Crypto.Pki.{Pki}
use vpn_app_ai.Protocol.Messages.{handshake_timeout}
use vpn_app_ai.Protocol.Control.Session.{
  HandshakeState, idle, reset_sent, reset_rcvd, hello_sent, established, error,
  is_established_state, is_idle_state, is_established, is_expired,
}
use vpn_app_ai.Server.State.{Addr, addr_eq, ClientSession, Server, remove_client}
use vpn_app_ai.Server.Handle.{seconds, is_stale, stale_addrs, remove_clients, cleanup_stale}
use vpn_app_ai.Server.Removal.{member, remove_client-lookup, cleanup_stale-survivors}

-- Silent for longer than the timeout once established, or in the middle of a handshake that has
-- taken longer than the handshake may take.
IsDueBy : HandshakeState → ℕ → ℕ → ℕ → ℕ → Type 0
IsDueBy st timeout now last_seen created_at =
    ((st ≡ established) × (last_seen + timeout * 1000 < now))
    ⊎ ((st ≢ established) × (st ≢ idle) × (created_at + handshake_timeout * 1000 < now))

stale_by : HandshakeState → ℕ → ℕ → ℕ → ℕ → Bool
stale_by st timeout now last_seen created_at =
    if is_established_state st
    then ltb (seconds timeout) (now - last_seen)
    else not (is_established_state st || is_idle_state st)
      && ltb (seconds handshake_timeout) (now - created_at)

in_handshake :
    (st : HandshakeState) (timeout now seen created : ℕ)
    → st ≢ established
    → st ≢ idle
    → (ltb (seconds handshake_timeout) (now - created) ≡ true) ↔ IsDueBy st timeout now seen created
unfolding IsDueBy
in_handshake st timeout now seen created e i = (
  λ late. inr (e, i, omega (arith, ltb→lt (seconds handshake_timeout) (now - created) late)),
  λ due. elim due [
    | inl (there, silent) ↦ absurd (e there)
    | inr (a, b, late) ↦ lt→ltb (seconds handshake_timeout) (now - created) (omega (arith, late))
  ],
)

stale_by-IsDueBy :
    (st : HandshakeState) (timeout now seen created : ℕ)
    → (stale_by st timeout now seen created ≡ true) ↔ IsDueBy st timeout now seen created
unfolding stale_by IsDueBy
stale_by-IsDueBy idle timeout now seen created =
    (λ e. cc e, λ due. elim due [ inl (e, silent) ↦ cc e | inr (a, b, late) ↦ absurd (b refl) ])
stale_by-IsDueBy established timeout now seen created = (
  λ e. inl (refl, omega (arith, ltb→lt (seconds timeout) (now - seen) e)),
  λ due. elim due [
    | inl (e, silent) ↦ lt→ltb (seconds timeout) (now - seen) (omega (arith, silent))
    | inr (a, b, late) ↦ absurd (a refl)
  ],
)
stale_by-IsDueBy reset_sent timeout now seen created =
    in_handshake reset_sent timeout now seen created (λ e. cc e) (λ e. cc e)
stale_by-IsDueBy reset_rcvd timeout now seen created =
    in_handshake reset_rcvd timeout now seen created (λ e. cc e) (λ e. cc e)
stale_by-IsDueBy hello_sent timeout now seen created =
    in_handshake hello_sent timeout now seen created (λ e. cc e) (λ e. cc e)
stale_by-IsDueBy error timeout now seen created =
    in_handshake error timeout now seen created (λ e. cc e) (λ e. cc e)

module _ (k : Pki) where
  -- The server has not heard from the established client for more than `timeout` seconds, or the
  -- client's handshake has begun, is not done, and its session is older than a handshake may take.
  pub IsDue : ℕ → ℕ → ClientSession k → Type 0
  IsDue timeout now cs = IsDueBy cs.session.state timeout now cs.last_seen cs.session.created_at

  is_stale-IsDue :
      (timeout now : ℕ) (cs : ClientSession k)
      → (is_stale k timeout now cs ≡ true) ↔ IsDue timeout now cs
  unfolding is_stale is_established is_expired IsDue stale_by
  is_stale-IsDue timeout now cs =
      stale_by-IsDueBy cs.session.state timeout now cs.last_seen cs.session.created_at

  -- A dictionary has a key once.
  unfoldable pub HasKeysOnce : Dict Addr (ClientSession k) → Type 0
  HasKeysOnce [] = Unit {0}
  HasKeysOnce ((a, c) ∷ rest) = (lookup a rest ≡ none) × HasKeysOnce rest

  stale_addrs-absent :
      (timeout now : ℕ) (d : Dict Addr (ClientSession k)) (b : Addr)
      → lookup b d ≡ none
      → member b (stale_addrs k timeout now d) ≡ false
  unfolding lookup member stale_addrs
  stale_addrs-absent timeout now [] b h = refl
  stale_addrs-absent timeout now ((a, c) ∷ d) b h = ground (
    arith,
    h,
    stale_addrs-absent timeout now d b,
    Bool-cases (addr_eq.same a b),
    Bool-cases (is_stale k timeout now c),
  )

  stale_addrs-spared :
      (timeout now : ℕ) (d : Dict Addr (ClientSession k)) (b : Addr) (cs : ClientSession k)
      → HasKeysOnce d
      → lookup b d ≡ some cs
      → is_stale k timeout now cs ≡ false
      → member b (stale_addrs k timeout now d) ≡ false
  unfolding lookup member stale_addrs HasKeysOnce
  stale_addrs-spared timeout now [] b cs once found fine = refl
  stale_addrs-spared timeout now ((a, c) ∷ d) b cs (absent, once) found fine =
      elim (Bool-cases (addr_eq.same a b)) [
        | inl same ↦
            let here : a ≡ b = (addr_eq.same_iff a b).0 same in
            let gone : lookup b d ≡ none = ap (λ (x : Addr). lookup x d) (sym here) ∙ absent in
            let it_is : c ≡ cs = ground (arith, same, found) in
            let kept : is_stale k timeout now c ≡ false =
              ap (is_stale k timeout now) it_is ∙ fine in
            ground (arith, kept, stale_addrs-absent timeout now d b gone)
        | inr other ↦ ground (
          arith,
          other,
          stale_addrs-spared timeout now d b cs once (ground (arith, other, found)) fine,
          Bool-cases (is_stale k timeout now c),
        )
      ]

  remove_clients-keeps :
      (as' : List Addr) (b : Addr) (s : Server k)
      → member b as' ≡ false
      → lookup b (remove_clients k as' s).clients ≡ lookup b s.clients
  unfolding remove_clients member
  remove_clients-keeps [] b s absent = refl
  remove_clients-keeps (a ∷ as') b s absent =
      remove_clients-keeps as' b (remove_client k a s) (ground (arith, absent))
      ∙ ground (arith, absent, remove_client-lookup k a b s)

  -- Behind `_cleanup_stale` a server whose dictionary has each key once still has exactly those of
  -- its clients, as they were, that are not due to go: an established one is due when it was last heard
  -- of more than `keepalive_timeout` seconds ago, and one in the middle of its handshake when its
  -- session was created more than 30 seconds ago.
  pub cleanup_stale-survivors_iff :
      (now : ℕ) (s : Server k) (b : Addr) (cs : ClientSession k)
      → HasKeysOnce s.clients
      → (lookup b (cleanup_stale k now s).clients ≡ some cs)
        ↔ ((lookup b s.clients ≡ some cs) × (¬ IsDue s.config.keepalive_timeout now cs))
  unfolding cleanup_stale
  cleanup_stale-survivors_iff now s b cs once = (
    λ left.
        let (found, fine) = cleanup_stale-survivors k now s b cs left in
        let judged = is_stale-IsDue s.config.keepalive_timeout now cs in
        (found, λ due. cc (judged.1 due, fine)),
    λ (found, not_due).
        let timeout = s.config.keepalive_timeout in
        let fine : is_stale k timeout now cs ≡ false =
          elim (Bool-cases (is_stale k timeout now cs)) [
            | inl e ↦ absurd (not_due ((is_stale-IsDue timeout now cs).0 e))
            | inr e ↦ e
          ] in
        remove_clients-keeps (stale_addrs k timeout now s.clients) b s
          (stale_addrs-spared timeout now s.clients b cs once found fine)
        ∙ found,
  )
