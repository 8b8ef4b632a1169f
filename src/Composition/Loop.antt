-- ===== src/Composition/Loop.antt =====
-- packages/c/sshnpd/src/daemon.c with the handlers that it calls: the main loop, and what the requests
-- make it do. A handler of public keys acts on a file and leaves no event here.
pub mod Served
pub mod Tests
use zettahealthonramp.Base.{
  Bool, false, not, ◌||◌, Option, none, some, List, [], ◌∷◌, ◌++◌, if◌then◌else◌, is_some, Text,
}
use zettahealthonramp.Code.{ℤ}
use zettahealthonramp.Clients.{ClientAnswers}
use zettahealthonramp.Daemon.{
  round, NotificationKey, Message, Action, Config, Round, State, nk_none, nk_sshpublickey, nk_ping,
  nk_ssh_request, nk_npt_request, notification, sends_device_info, reads, reconnects, handles,
  Notification as Received,
}
use zettahealthonramp.Handler.World.{log, value, return, Event, Notification, World, Trace}
use zettahealthonramp.Handler.Request.{handle_npt_request, handle_ssh_request, RequestParams}
use zettahealthonramp.Handler.Ping.{handle_ping}

-- What the libraries answer in one round of the loop, and while a request is handled.
pub record Turn : Type 1 where
  pub world : World
  pub clients : ClientAnswers
  pub read : ℤ
  pub message : Message
  pub decrypted_value : Option Text
  pub from_initialized : Bool

abbrev pub request_params : Config → RequestParams
request_params c = record {
  device = c.device;
  local_sshd_port = c.local_sshd_port;
  managers = c.managers;
  permits = c.permits;
}

-- The notification of the loop, as a handler finds it.
abbrev pub received : Turn → Received → Notification
received t n = record {
  from = some n.from;
  from_initialized = t.from_initialized;
  decrypted_value = t.decrypted_value;
  value_initialized = n.value_initialized;
}

abbrev pub came_back : Option Bool → Bool
came_back none = false
came_back (some is_child) = is_child

module _ (c : Config) (ping_response : Text) where
  unfoldable pub handling : Turn → Received → NotificationKey → Trace Bool
  handling t n nk_none = return false
  handling t n nk_sshpublickey = return false
  handling t n nk_ping = handle_ping t.world c.device ping_response (received t n)
  handling t n nk_ssh_request = handle_ssh_request t.world (request_params c) (received t n)
  handling t n nk_npt_request = handle_npt_request t.world (request_params c) (received t n)

  -- A key is only dispatched on if the message is a notification.
  abbrev pub handled : Turn → Message → NotificationKey → Trace Bool
  handled t (notification n) k = handling t n k
  handled t _ k = return false

  -- The round that the loop makes of it.
  unfoldable pub answers : Turn → Round
  unfolding handling
  answers t = record {
    clients = t.clients;
    read = t.read;
    message = t.message;
    ssh_child = came_back (value (handled t t.message nk_ssh_request));
    npt_child = came_back (value (handled t t.message nk_npt_request));
  }

  abbrev pub action_log : Turn → Action → List Event
  action_log t sends_device_info = []
  action_log t (reconnects calls) = []
  action_log t reads = []
  action_log t (handles k) = log (handled t t.message k)

  abbrev pub actions_log : Turn → List Action → List Event
  actions_log t [] = []
  actions_log t (a ∷ l) = action_log t a ++ actions_log t l

  -- Whether a handler follows a null pointer.
  abbrev pub crashes : Turn → List Action → Bool
  crashes t [] = false
  crashes t (sends_device_info ∷ l) = crashes t l
  crashes t (reconnects calls ∷ l) = crashes t l
  crashes t (reads ∷ l) = crashes t l
  crashes t (handles k ∷ l) = not (is_some (value (handled t t.message k))) || crashes t l

  -- What the daemon does while its loop runs: it ends in a child and with a crash.
  unfoldable pub daemon_log : State → List Turn → List Event
  unfolding answers
  daemon_log s [] = []
  daemon_log s (t ∷ ts) =
      let after = round c s (answers t) in
      let now = actions_log t after.1 in
      let later = daemon_log after.0 ts in
      if after.0.is_child_process || crashes t after.1 then now else now ++ later
