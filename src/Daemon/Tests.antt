-- ===== src/Daemon/Tests.antt =====
-- Runs of the main loop of packages/c/sshnpd/src/daemon.c, and its theorems at such inputs.
use zettahealthonramp.Base.{
  ◌*◌, ◌%◌, ◌≤◌, ◌≡◌, refl, inl, inr, true, false, [], ◌∷◌, arith, codes, str_eq,
}
use zettahealthonramp.Clients.{reconnect_monitor, ClientAnswers}
use zettahealthonramp.Code.{success, minus_one}
use zettahealthonramp.PermitOpen.{should_permitopen}
use zettahealthonramp.Daemon.{
  key_of_name, strip, strstr, tail_of, name_at, notification_name, read_timeout, size_t_mod,
  dispatch, handle_notification, count_message, act_on, round, main_loop, Notification, Config,
  Round, State, nk_ssh_request, empty, notification, sends_device_info, reads, handles,
}
use zettahealthonramp.Daemon.Timeouts.{
  most, main_loop-bounded, IsDown, reconnections, main_loop-reconnections,
}
use zettahealthonramp.Daemon.Keys.{HandlesSsh}

abbrev request : Notification
request = record {
  value_initialized = true;
  key_initialized = true;
  is_stats = false;
  key = codes "@dev:ssh_request.pi4.sshnp@me";
  from = codes "@me";
  to = codes "@dev";
}

abbrev config : Config
config = record {
  device = codes "pi4";
  local_sshd_port = 22;
  managers = codes "@boss" ∷ [];
  permits = record { host = codes "*"; port = 22 } ∷ [];
  monitor_regex = codes "pi4.sshnp@";
}

abbrev start : State
start = record { timeout_counter = 3; is_child_process = false }

abbrev answering : ClientAnswers
answering = record {
  worker_connected = true;
  authenticate_worker = success;
  set_hook = success;
  authenticate_monitor = success;
  start_monitor = λ _. success;
}

abbrev silent : Round
silent = record {
  clients = answering;
  read = success;
  message = empty;
  ssh_child = false;
  npt_child = false;
}

abbrev arrives : Round
arrives = record silent { message = notification request }

first_handled :
    (round config start arrives).1 ≡ sends_device_info ∷ reads ∷ handles nk_ssh_request ∷ []
unfolding round act_on handle_notification notification_name strstr strip tail_of name_at dispatch
    key_of_name should_permitopen str_eq
first_handled = refl

runs_HandlesSsh : HandlesSsh (main_loop config start (silent ∷ arrives ∷ [])).1
unfolding main_loop round act_on handle_notification notification_name strstr strip tail_of name_at
    dispatch key_of_name should_permitopen count_message str_eq
runs_HandlesSsh = inr (inr (inr (inr (inl refl))))

-- The server is away: no client can be authenticated.
abbrev down : Round
down = record silent { clients = record answering { authenticate_monitor = minus_one } }

down-IsDown : IsDown config down
unfolding reconnect_monitor
down-IsDown = (refl, refl, refl)

-- Two rounds wait, and two try.
main_loop-reconnections_example :
    reconnections
      (main_loop config (record start { timeout_counter = 7 }) (down ∷ down ∷ down ∷ down ∷ [])).1
    ≡ 2
main_loop-reconnections_example =
    main_loop-reconnections config (record start { timeout_counter = 7 })
      (down ∷ down ∷ down ∷ down ∷ [])
      (down-IsDown, (down-IsDown, (down-IsDown, (down-IsDown, tt)))) refl (omega arith)

main_loop-bounded_example :
    ((main_loop config start (silent ∷ down ∷ [])).0.timeout_counter ≤ most)
    × (((main_loop config start (silent ∷ down ∷ [])).0.timeout_counter * read_timeout) % size_t_mod
        ≡ (main_loop config start (silent ∷ down ∷ [])).0.timeout_counter * read_timeout)
main_loop-bounded_example = main_loop-bounded config start (silent ∷ down ∷ []) (omega arith)
