-- ===== src/Daemon.antt =====
-- packages/c/sshnpd/src/daemon.c: one round of the daemon's main loop, and the key of a
-- notification. The answers of the client library are arguments.
pub mod Keys
pub mod Tests
pub mod Timeouts
use zettahealthonramp.Base.{
  ℕ, ◌+◌, ◌*◌, ◌/◌, ◌%◌, ◌^◌, Bool, false, not, ◌||◌, Option, none, some, List, [], ◌∷◌, ◌++◌, ltb,
  ◌==◌, if◌then◌else◌, Text, codes, str_eq,
}
use zettahealthonramp.Code.{is_zero, ℤ}
use zettahealthonramp.Clients.{reconnect_monitor, ClientEvent, ClientAnswers}
use zettahealthonramp.PermitOpen.{should_permitopen, Entry}

pub data NotificationKey : Type 0 where
  nk_none nk_sshpublickey nk_ping nk_ssh_request nk_npt_request : NotificationKey

-- The loop over `notification_key_map`, in a build without the testing shutdown.
unfoldable pub key_of_name : Text → NotificationKey
key_of_name s =
    if str_eq s (codes "sshpublickey")
    then nk_sshpublickey
    else if str_eq s (codes "ping")
    then nk_ping
    else if str_eq s (codes "ssh_request")
    then nk_ssh_request
    else if str_eq s (codes "npt_request")
    then nk_npt_request
    else nk_none

-- What stands behind a prefix, if the text begins with it.
unfoldable pub strip : Text → Text → Option Text
strip [] s = some s
strip (p ∷ ps) [] = none
strip (p ∷ ps) (c ∷ s) = if c == p then strip ps s else none

pub record Cut : Type 0 where
  pub front : Text
  pub behind : Text

-- `strstr`: the text before the first place where `tail` begins, and the text behind `tail`.
unfoldable pub strstr : Text → Text → Option Cut
unfolding strip
strstr tail [] = elim (strip tail []) [
  | none ↦ none
  | some r ↦ some (record { front = []; behind = r })
]
strstr tail (c ∷ s) = elim (strip tail (c ∷ s)) [
  | some r ↦ some (record { front = []; behind = r })
  | none ↦ elim (strstr tail s) [
    | none ↦ none
    | some k ↦ some (record { front = c ∷ k.front; behind = k.behind })
  ]
]

pub record Notification : Type 0 where
  pub value_initialized : Bool
  pub key_initialized : Bool
  pub is_stats : Bool
  pub key : Text
  pub from : Text
  pub to : Text

-- `.$device.sshnp$from`
unfoldable pub tail_of : Text → Text → Text
tail_of device from = b'.' ∷ (device ++ (codes ".sshnp" ++ from))

-- The name that is looked up: the pointer skips the receiver and one byte more, which is the new NUL
-- if nothing stands between receiver and tail.
unfoldable pub name_at : Text → Text → Text → Option Text
name_at to front rest = elim (strip to front) [
  | none ↦ none
  | some [] ↦ some rest
  | some (c ∷ name) ↦ some name
]

abbrev pub behind_dot : Text → Text
behind_dot [] = []
behind_dot (c ∷ s) = s

unfoldable pub notification_name : Text → Notification → Option Text
unfolding strstr tail_of name_at
notification_name device n = elim (strstr (tail_of device n.from) n.key) [
  | none ↦ none
  | some k ↦ name_at n.to k.front (behind_dot (tail_of device n.from ++ k.behind))
]

pub data Message : Type 0 where
  empty error_read data_response error_response none_type : Message
  error_parse_notification error_decrypt_notification : Message
  notification : Notification → Message

pub data Action : Type 0 where
  sends_device_info reads : Action
  reconnects : List ClientEvent → Action
  handles : NotificationKey → Action

-- What the daemon is configured with, and the pattern of its monitor.
pub record Config : Type 0 where
  pub device : Text
  pub local_sshd_port : ℕ
  pub managers : List Text
  pub permits : List Entry
  pub monitor_regex : Text

-- The answers of one round; the flags say that a handler came back in a child process.
pub record Round : Type 0 where
  pub clients : ClientAnswers
  pub read : ℤ
  pub message : Message
  pub ssh_child : Bool
  pub npt_child : Bool

pub record State : Type 0 where
  pub timeout_counter : ℕ
  pub is_child_process : Bool

abbrev pub read_timeout : ℕ
read_timeout = 5000

abbrev pub noop_timeout : ℕ
noop_timeout = 40000

-- The counter that makes the next round reconnect.
abbrev pub overdue : ℕ
overdue = noop_timeout / read_timeout + 1

abbrev pub size_t_mod : ℕ
size_t_mod = 2 ^ 64

-- The dispatch on the key: whether the process is now a child, and the handler that was called.
unfoldable pub dispatch : Config → Round → NotificationKey → Bool × List Action
dispatch c r nk_none = (false, [])
dispatch c r nk_sshpublickey = (false, handles nk_sshpublickey ∷ [])
dispatch c r nk_ping = (false, handles nk_ping ∷ [])
dispatch c r nk_ssh_request =
    if should_permitopen c.permits (codes "localhost") c.local_sshd_port
    then (r.ssh_child, handles nk_ssh_request ∷ [])
    else (false, [])
dispatch c r nk_npt_request = (r.npt_child, handles nk_npt_request ∷ [])

unfoldable pub handle_notification : Config → Round → Notification → Bool × List Action
handle_notification c r n =
    if not n.value_initialized
    then (false, [])
    else if not n.key_initialized || n.is_stats
    then (false, [])
    else elim (notification_name c.device n) [
      | none ↦ (false, [])
      | some s ↦ dispatch c r (key_of_name s)
    ]

-- The counter after a message, from the counter after the read.
unfoldable pub count_message : ℕ → Message → ℕ
count_message t empty = (t + 1) % size_t_mod
count_message t error_read = overdue
count_message t data_response = 0
count_message t error_response = 0
count_message t none_type = t
count_message t error_parse_notification = noop_timeout + 1
count_message t error_decrypt_notification = noop_timeout + 1
count_message t (notification n) = 0

unfoldable pub act_on : Config → Round → Message → Bool × List Action
act_on c r (notification n) = handle_notification c r n
act_on c r _ = (false, [])

-- From the read on.
read_message : Config → Round → ℕ → State × List Action
read_message c r t =
    let after_read = if is_zero r.read then t else overdue in
    let acted = act_on c r r.message in
    (
      record { timeout_counter = count_message after_read r.message; is_child_process = acted.0 },
      reads ∷ acted.1,
    )

-- One round of `main_loop`. The daemon is no child before it, since a child leaves the loop.
unfoldable pub round : Config → State → Round → State × List Action
unfolding read_message
round c s r =
    let (ret, calls) = reconnect_monitor r.clients c.monitor_regex in
    if ltb noop_timeout ((s.timeout_counter * read_timeout) % size_t_mod)
    then (if is_zero ret
        then (let done = read_message c r 0 in
            (done.0, sends_device_info ∷ reconnects calls ∷ done.1))
        else (record s { timeout_counter = overdue }, sends_device_info ∷ reconnects calls ∷ []))
    else (let done = read_message c r s.timeout_counter in (done.0, sends_device_info ∷ done.1))

-- The loop over the rounds that the library answers while `should_run` is 1; a child leaves it.
unfoldable pub main_loop : Config → State → List Round → State × List Action
main_loop c s [] = (s, [])
main_loop c s (r ∷ rs) =
    let after = round c s r in
    let later = main_loop c after.0 rs in
    if after.0.is_child_process then after else (later.0, after.1 ++ later.1)
