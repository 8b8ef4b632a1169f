-- ===== src/Composition/Strangers.antt =====
-- packages/c/sshnpd/src/main.c and daemon.c: what the running daemon makes of the managers that it was
-- started with.
use zettahealthonramp.Base.{
  ℕ, ◌<◌, ◌≡◌, refl, sym, ap, subst, ◌∙◌, Bool, true, false, some, List, [], ◌∷◌, ◌++◌, arith,
  if◌then◌else◌, Text, codes, Any, str_eq,
}
use zettahealthonramp.Daemon.Keys.{notification_name-print}
use zettahealthonramp.Code.{success}
use zettahealthonramp.Clients.{ClientAnswers}
use zettahealthonramp.Params.{SshnpdParams}
use zettahealthonramp.Start.{LoopSetup}
use zettahealthonramp.Daemon.{
  key_of_name, tail_of, notification_name, overdue, dispatch, handle_notification, act_on, round,
  Config, Round, State, nk_npt_request, notification, sends_device_info, reads, handles,
  Notification as Received,
}
use zettahealthonramp.Handler.World.{Event, runs_srv}
use zettahealthonramp.Handler.Traces.{Emits}
use zettahealthonramp.Handler.Request.{handle_npt_request, Session}
use zettahealthonramp.Handler.Sample.{sample}
use zettahealthonramp.Handler.Authorised.Completes.{
  handle_npt_request-serves, served_params, IsServable,
}
use zettahealthonramp.Composition.Loop.{
  handling, handled, answers, actions_log, daemon_log, request_params, received, Turn,
}
use zettahealthonramp.Composition.Loop.Served.{Any-front}

-- What the loop is run with: the options and what the start made of them.
abbrev pub loop_config : SshnpdParams → ℕ → LoopSetup → Config
loop_config p local_sshd_port x = record {
  device = p.device;
  local_sshd_port = local_sshd_port;
  managers = p.managers;
  permits = p.permits;
  monitor_regex = x.monitor_regex;
}

-- A request for npt by any sender.
abbrev pub request_of : Text → Text → Received
request_of device from = record {
  value_initialized = true;
  key_initialized = true;
  is_stats = false;
  key = (codes "@dev" ++ b':' ∷ codes "npt_request") ++ tail_of device from;
  from = from;
  to = codes "@dev";
}

abbrev pub reachable : ClientAnswers
reachable = record {
  worker_connected = true;
  authenticate_worker = success;
  set_hook = success;
  authenticate_monitor = success;
  start_monitor = λ _. success;
}

abbrev pub request_turn : Text → Text → Turn
request_turn device from = record {
  world = sample;
  clients = reachable;
  read = success;
  message = notification (request_of device from);
  decrypted_value = some (codes "{}");
  from_initialized = true;
}

abbrev pub begun : State
begun = record { timeout_counter = 0; is_child_process = false }

pub request_of-name :
    (device from : Text)
    → notification_name device (request_of device from) ≡ some (codes "npt_request")
request_of-name device from =
    notification_name-print device (codes "npt_request") (request_of device from) (omega arith)
      (omega arith) refl

-- What was done before the loop is left, or goes on, is kept.
kept :
    (b : Bool) (now later : List Event) (ev : Event)
    → Any (λ x. x ≡ ev) now
    → Any (λ x. x ≡ ev) (if b then now else now ++ later)
kept true now later ev h = h
kept false now later ev h = Any-front now later ev h

-- The notification holds a value, and its key asks this device for npt.
pub record AsksNpt (c : Config) (n : Received) : Type 0 where
  pub has_value : n.value_initialized ≡ true
  pub has_key : n.key_initialized ≡ true
  pub no_stats : n.is_stats ≡ false
  pub named : notification_name c.device n ≡ some (codes "npt_request")

dispatched :
    (c : Config) (r : Round) (n : Received)
    → AsksNpt c n
    → (handle_notification c r n).1 ≡ handles nk_npt_request ∷ []
unfolding handle_notification dispatch key_of_name str_eq
dispatched c r n a = simp (a.has_value, a.has_key, a.no_stats, a.named) refl

not_due :
    (c : Config) (s : State) (r : Round)
    → s.timeout_counter < overdue
    → (round c s r).1 ≡ sends_device_info ∷ reads ∷ (act_on c r r.message).1
unfolding round
not_due c s r early = ground arith

module _ (c : Config) (ping_response : Text) (s : State) (t : Turn) (n : Received) where
  request_actions :
      t.message ≡ notification n
      → AsksNpt c n
      → s.timeout_counter < overdue
      → (round c s (answers c ping_response t)).1
        ≡ sends_device_info ∷ reads ∷ handles nk_npt_request ∷ []
  unfolding act_on answers
  request_actions is a early =
      not_due c s (answers c ping_response t) early
      ∙ ap (λ m. sends_device_info ∷ reads ∷ (act_on c (answers c ping_response t) m).1) is
      ∙ ap (λ l. sends_device_info ∷ reads ∷ l) (dispatched c (answers c ping_response t) n a)

  request_log :
      (ev : Event)
      → s.timeout_counter < overdue
      → t.message ≡ notification n
      → AsksNpt c n
      → Emits ev (handle_npt_request t.world (request_params c) (received t n))
      → Any (λ x. x ≡ ev) (actions_log c ping_response t (round c s (answers c ping_response t)).1)
  unfolding handling
  request_log ev early is a h =
      subst (λ l. Any (λ x. x ≡ ev) (actions_log c ping_response t l))
        (sym (request_actions is a early))
        (Any-front _ [] ev
          (subst (λ m. Emits ev (handled c ping_response t m nk_npt_request)) (sym is) h))

  -- Whatever managers the daemon was started with and whoever the sender is: if no reconnection is due,
  -- the notification of a round holds a value and asks this device for npt, the envelope, its signature
  -- by the sender, its contents and the permit-open list all pass, the parts of the session that it asks
  -- for are made, and the process is the child of the fork, then srv is run with what the payload asks
  -- for, whatever the rounds behind it bring.
  pub daemon_log-stranger :
      (e : t.world.Json) (host : Text) (session : Session) (ts : List Turn)
      → s.timeout_counter < overdue
      → t.message ≡ notification n
      → AsksNpt c n
      → IsServable t.world (request_params c) (received t n) e host session
      → Any
          (λ ev. ev ≡ runs_srv (served_params t.world e session))
          (daemon_log c ping_response s (t ∷ ts))
  unfolding daemon_log
  daemon_log-stranger e host session ts early is a v =
      kept _ _ _ (runs_srv (served_params t.world e session)) (
        request_log (runs_srv (served_params t.world e session)) early is a
          (handle_npt_request-serves t.world (request_params c) (received t n) e host session v))
