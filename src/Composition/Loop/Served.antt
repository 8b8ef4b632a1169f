-- ===== src/Composition/Loop/Served.antt =====
-- packages/c/sshnpd/src/daemon.c with its handlers: which notification stands behind each srv.
use zettahealthonramp.Base.{
  ◌≡◌, refl, subst, inl, inr, Bool, true, false, ◌||◌, some, List, [], ◌∷◌, ◌++◌, arith,
  if◌then◌else◌, Option-cases, Text, Any, Any-append,
}
use zettahealthonramp.SrvParams.{SrvParams}
use zettahealthonramp.Daemon.{
  key_of_name, notification_name, dispatch, handle_notification, act_on, round, NotificationKey,
  Message, Action, Config, Round, State, nk_none, nk_sshpublickey, nk_ping, nk_ssh_request,
  nk_npt_request, notification, handles, Notification as Received,
}
use zettahealthonramp.Daemon.Keys.{permits_sshd, round-permitted}
use zettahealthonramp.Handler.World.{Event, runs_srv, child}
use zettahealthonramp.Handler.Traces.{Emits}
use zettahealthonramp.Handler.Envelope.{item}
use zettahealthonramp.Handler.Ping.{notify_ping, handle_ping}
use zettahealthonramp.Handler.Authorised.Requests.{IsAuthorisedNpt}
use zettahealthonramp.Handler.Authorised.Npt.{handle_npt_request-srv, BridgesNpt}
use zettahealthonramp.Handler.Authorised.Ssh.{handle_ssh_request-srv, IsAuthorisedSsh, BridgesSsh}
use zettahealthonramp.Composition.Loop.{
  request_params, received, handling, handled, answers, action_log, actions_log, crashes,
  daemon_log, Turn,
}

-- Some action of a list is the handling of a request with this key.
abbrev pub Handles : NotificationKey → List Action → Type 0
Handles k = Any (λ a. a ≡ handles k)

-- The notification holds a value, and its key names this device and a request.
pub record Dispatches (c : Config) (n : Received) (k : NotificationKey) : Type 0 where
  pub has_value : n.value_initialized ≡ true
  pub name : Text
  pub name_is : notification_name c.device n ≡ some name
  pub key_is : key_of_name name ≡ k

dispatch-Handles :
    (c : Config) (r : Round) (j k : NotificationKey) → Handles k (dispatch c r j).1 → j ≡ k
unfolding dispatch
dispatch-Handles c r nk_none k h = absurd h
dispatch-Handles c r nk_sshpublickey k h = ground arith
dispatch-Handles c r nk_ping k h = ground arith
dispatch-Handles c r nk_ssh_request k h = ground arith
dispatch-Handles c r nk_npt_request k h = ground arith

handle_notification-Dispatches :
    (c : Config) (r : Round) (n : Received) (k : NotificationKey)
    → Handles k (handle_notification c r n).1
    → Dispatches c n k
unfolding handle_notification
handle_notification-Dispatches c r n k h = elim (Option-cases (notification_name c.device n)) [
  | inl skipped ↦ absurd (ground arith)
  | inr (s, e) ↦ record {
    has_value = ground arith;
    name = s;
    name_is = e;
    key_is = ground (arith, dispatch-Handles c r (key_of_name s) k);
  }
]

act_on-Dispatches :
    (c : Config) (r : Round) (m : Message) (k : NotificationKey)
    → Handles k (act_on c r m).1
    → (n : Received) × (m ≡ notification n) × Dispatches c n k
unfolding act_on
act_on-Dispatches c r (notification n) k h = (n, refl, handle_notification-Dispatches c r n k h)
act_on-Dispatches c r _ k h = absurd h

pub round-Dispatches :
    (c : Config) (s : State) (r : Round) (k : NotificationKey)
    → Handles k (round c s r).1
    → (n : Received) × (r.message ≡ notification n) × Dispatches c n k
unfolding round
round-Dispatches c s r k h = ground (arith, act_on-Dispatches c r r.message k)

pub Any-front :
    (now later : List Event) (ev : Event) → Any (λ x. x ≡ ev) now → Any (λ x. x ≡ ev) (now ++ later)
Any-front [] later ev h = absurd h
Any-front (x ∷ now) later ev (inl h) = inl h
Any-front (x ∷ now) later ev (inr h) = inr (Any-front now later ev h)

stopped :
    (b : Bool) (now later : List Event) (ev : Event)
    → Any (λ x. x ≡ ev) (if b then now else now ++ later)
    → Any (λ x. x ≡ ev) (now ++ later)
stopped true now later ev h = Any-front now later ev h
stopped false now later ev h = h

module _ (c : Config) (ping_response : Text) where
  action_log-Handles :
      (t : Turn) (a : Action) (ev : Event)
      → Any (λ x. x ≡ ev) (action_log c ping_response t a)
      → (k : NotificationKey) × (a ≡ handles k) × Emits ev (handled c ping_response t t.message k)
  action_log-Handles t (handles k) ev h = (k, refl, h)
  action_log-Handles t _ ev h = absurd h

  -- What a round leaves behind is from a handler.
  actions_log-Handles :
      (t : Turn) (l : List Action) (ev : Event)
      → Any (λ x. x ≡ ev) (actions_log c ping_response t l)
      → (k : NotificationKey) × Handles k l × Emits ev (handled c ping_response t t.message k)
  actions_log-Handles t [] ev h = absurd h
  actions_log-Handles t (a ∷ l) ev h = elim (Any-append _ (action_log c ping_response t a) _ h) [
    | inl here ↦ let (k, is, e) = action_log-Handles t a ev here in (k, inl is, e)
    | inr there ↦ let (k, is, e) = actions_log-Handles t l ev there in (k, inr is, e)
  ]

  -- What stands behind a run of srv in a round: a notification for this device, by an authorised npt
  -- request, or by an authorised ssh request where the permit-open list permits the local sshd.
  pub data Serves (p : SrvParams) (t : Turn) : Type 0 where
    by_npt :
        (n : Received)
        → t.message ≡ notification n
        → Dispatches c n nk_npt_request
        → t.world.forked ≡ child
        → (e : t.world.Json) → (a : IsAuthorisedNpt t.world (request_params c) (received t n) e)
        → BridgesNpt t.world (item t.world "payload" e) a.requested p
        → Serves p t
    by_ssh :
        (n : Received)
        → t.message ≡ notification n
        → Dispatches c n nk_ssh_request
        → permits_sshd c ≡ true
        → t.world.forked ≡ child
        → (e : t.world.Json) → IsAuthorisedSsh t.world (received t n) e
        → BridgesSsh t.world (request_params c) (item t.world "payload" e) p
        → Serves p t

  handle_ping-runs_srv :
      (t : Turn) (n : Received) (p : SrvParams)
      → Emits (runs_srv p) (handling c ping_response t n nk_ping)
      → ⊥
  unfolding handling handle_ping notify_ping
  handle_ping-runs_srv t n p h = ground arith

  handling-Serves :
      (s : State) (t : Turn) (n : Received) (p : SrvParams) (k : NotificationKey)
      → t.message ≡ notification n
      → Dispatches c n k
      → Handles k (round c s (answers c ping_response t)).1
      → Emits (runs_srv p) (handling c ping_response t n k)
      → Serves p t
  unfolding handling
  handling-Serves s t n p nk_none is d h e = absurd e
  handling-Serves s t n p nk_sshpublickey is d h e = absurd e
  handling-Serves s t n p nk_ping is d h e = absurd (handle_ping-runs_srv t n p e)
  handling-Serves s t n p nk_ssh_request is d h e =
      let (forked, env, a, b) =
        handle_ssh_request-srv t.world (request_params c) (received t n) p e in
      by_ssh n is d (round-permitted c s (answers c ping_response t) h) forked env a b
  handling-Serves s t n p nk_npt_request is d h e =
      let (forked, env, a, b) =
        handle_npt_request-srv t.world (request_params c) (received t n) p e in
      by_npt n is d forked env a b

  round-Serves :
      (s : State) (t : Turn) (p : SrvParams)
      → Any
          (λ x. x ≡ runs_srv p)
          (actions_log c ping_response t (round c s (answers c ping_response t)).1)
      → Serves p t
  unfolding answers
  round-Serves s t p h =
      let (k, is, e) = actions_log-Handles t _ (runs_srv p) h in
      let (n, message_is, d) = round-Dispatches c s (answers c ping_response t) k is in
      handling-Serves s t n p k message_is d is
        (subst (λ m. Emits (runs_srv p) (handled c ping_response t m k)) message_is e)

  -- If srv is run while the main loop runs, from whatever state and over any number of rounds, then one
  -- of the rounds got a notification with a value whose key names this device, and: it was an npt
  -- request that passed every check of its handler, and srv bridges to the host and port that the
  -- permit-open list permits; or it was an ssh request that passed the checks of its handler, the list
  -- permits localhost at the port of sshd, and srv bridges to that.
  pub daemon_log-Serves :
      (s : State) (ts : List Turn) (p : SrvParams)
      → Any (λ x. x ≡ runs_srv p) (daemon_log c ping_response s ts)
      → Any (Serves p) ts
  unfolding daemon_log
  daemon_log-Serves s [] p h = absurd h
  daemon_log-Serves s (t ∷ ts) p h =
      let after = round c s (answers c ping_response t) in
      let now = actions_log c ping_response t after.1 in
      let later = daemon_log c ping_response after.0 ts in
      elim (Any-append _ now later (
        stopped (after.0.is_child_process || crashes c ping_response t after.1) now later
          (runs_srv p) h)) [
            | inl here ↦ inl (round-Serves s t p here)
            | inr there ↦ inr (daemon_log-Serves after.0 ts p there)
          ]
