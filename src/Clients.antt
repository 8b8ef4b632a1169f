-- ===== src/Clients.antt =====
-- packages/c/sshnpd/src/daemon_utils.c: how the daemon gets its two clients connected again. What the
-- client library answers is a record, and its calls are events.
use zettahealthonramp.Base.{Bool, List, [], ◌∷◌, ◌++◌, if◌then◌else◌, Text}
use zettahealthonramp.Code.{is_zero, success, ℤ}

pub data ClientEvent : Type 0 where
  enables_hooks disables_hooks hooks_reconnect : ClientEvent
  reauthenticates_worker reauthenticates_monitor sleeps unsets_atsign frees_host : ClientEvent
  restarts_monitor : Text → ClientEvent

pub record ClientAnswers : Type 0 where
  pub worker_connected : Bool
  pub authenticate_worker : ℤ
  pub set_hook : ℤ
  pub authenticate_monitor : ℤ
  pub start_monitor : Text → ℤ

-- The hook that is run before the worker writes is `reconnect_atclient`.
unfoldable pub set_worker_hooks : ℤ → ℤ × List ClientEvent
set_worker_hooks hook_set = (hook_set, enables_hooks ∷ hooks_reconnect ∷ [])

unfoldable pub reconnect_atclient : ClientAnswers → ℤ × List ClientEvent
unfolding set_worker_hooks
reconnect_atclient w =
    if w.worker_connected
    then (success, [])
    else if is_zero w.authenticate_worker
    then (let hooked = set_worker_hooks w.set_hook in (hooked.0, reauthenticates_worker ∷ hooked.1))
    else (w.authenticate_worker, reauthenticates_worker ∷ [])

-- The monitor goes on with the pattern of the start.
unfoldable pub reconnect_monitor : ClientAnswers → Text → ℤ × List ClientEvent
reconnect_monitor w regex =
    if is_zero w.authenticate_monitor
    then (w.start_monitor regex, reauthenticates_monitor ∷ restarts_monitor regex ∷ [])
    else (w.authenticate_monitor, reauthenticates_monitor ∷ sleeps ∷ [])

-- What is released of a client whose connection a parent process still uses.
unfoldable pub free_atclient_without_disconnect : Bool → Bool → List ClientEvent
free_atclient_without_disconnect has_atsign has_hooks =
    (if has_atsign then unsets_atsign ∷ [] else [])
    ++ (if has_hooks then disables_hooks ∷ [] else [])
    ++ frees_host ∷ []
