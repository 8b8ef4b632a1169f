-- ===== src/Start/Tests.antt =====
-- Runs of packages/c/sshnpd/src/main.c, and the theorems at such inputs.
use zettahealthonramp.Base.{
  ◌≡◌, refl, sym, ap, subst, inl, inr, true, false, Option, none, some, List, [], ◌∷◌, arith, codes,
  Any, ok, c_str,
}
use zettahealthonramp.PermitOpen.Decimal.{digits, decimal}
use zettahealthonramp.Clients.{set_worker_hooks}
use zettahealthonramp.Code.{success, ℤ}
use zettahealthonramp.DeviceInfo.{
  snprintf, username_key, username_round, username_rounds, handle_username_keys, Answers,
}
use zettahealthonramp.RootDomain.{strchr_colon, root_address}
use zettahealthonramp.Start.{
  log, emit, check, accept, need, listed, LoopSetup, StartEvent, StartAnswers, Flags, Start, regex,
  adds, releases, failure_free, success_free, authenticates_monitor, authenticates_worker,
  hooks_worker, sends_usernames, starts_monitor, runs_loop, goes, stops, overruns,
}
use zettahealthonramp.Start.Stages.{
  list_options, service_text, service_texts, keys_path, load_keys, found_root, find_root, connect,
  announce, monitor_pattern, open_authkeys, listen, run_daemon, start_parsed, daemon_main,
}
use zettahealthonramp.Start.Cleaned.{cleanups, is_stopped}
use zettahealthonramp.Start.Cleaned.Whole.{daemon_main-IsCleaned}
use zettahealthonramp.Start.Loops.{Runs}
use zettahealthonramp.Start.Defaults.{
  options_of, flags_of, main, initial, default_permits, main-IsDefault, IsDefault, Leaves,
  Variables,
}
use zettahealthonramp.PermitOpen.{
  skip_spaces, read_digits, convert, signed, read_port, read_entries, read_allocated,
  parse_permitopen,
}
use zettahealthonramp.Start.Loops.Ready.{daemon_main-IsReady, IsReady}
use zettahealthonramp.Params.{
  parse_managers, lower, parse_algorithm, permit_text, manager_items, require, required,
  parse_sshnpd_params, apply_default_values_to_sshnpd_params, SshnpdParams, ed25519,
}
use zettahealthonramp.Tests.{options, allocation, parsed, parse_options}

abbrev key_answers : Answers
key_answers = record {
  now = 0;
  from_string = λ k. success;
  set_is_public = success;
  set_is_encrypted = success;
  set_ttr = success;
  set_ccd = success;
  set_ttl = success;
  put_shared_key = success;
  delete = success;
}

-- Every call succeeds.
abbrev start_answers : StartAnswers
start_answers = record {
  add = λ r. 0;
  should_run = λ n. true;
  home_dir = some (codes "/root");
  username = some (codes "root");
  populate_atkeys = λ f. success;
  clone_signingkey = success;
  allocates = λ r. true;
  buffer_allocated = true;
  authenticate_monitor = λ h n. success;
  authenticate_worker = λ h n. success;
  set_hook = success;
  print_ping = λ d k ss. some [];
  usernames = λ i. key_answers;
  start_monitor = λ t. success;
  open_error = none;
  is_child = false;
}

abbrev flags : Flags
flags = record { hide = false; sshpublickey = false; key_file = none; root_domain = none }

abbrev loop_setup : LoopSetup
loop_setup = record {
  monitor_regex = codes "pi4.sshnp@";
  authkeys_path = codes "/root/.ssh/authorized_keys";
  ping_text = [];
}

abbrev loops : List StartEvent → List LoopSetup
loops [] = []
loops (runs_loop x ∷ l) = x ∷ loops l
loops (e ∷ l) = loops l

loops-Any :
    (l : List StartEvent) (x : LoopSetup) (xs : List LoopSetup)
    → loops l ≡ x ∷ xs
    → Any (λ e. e ≡ runs_loop x) l
loops-Any [] x xs h = absurd (ground arith)
loops-Any (runs_loop y ∷ l) x xs h = inl (cc)
loops-Any (adds r ∷ l) x xs h = inr (loops-Any l x xs h)
loops-Any (releases r ∷ l) x xs h = inr (loops-Any l x xs h)
loops-Any (failure_free ∷ l) x xs h = inr (loops-Any l x xs h)
loops-Any (success_free ∷ l) x xs h = inr (loops-Any l x xs h)
loops-Any (authenticates_monitor a n ∷ l) x xs h = inr (loops-Any l x xs h)
loops-Any (authenticates_worker a n ∷ l) x xs h = inr (loops-Any l x xs h)
loops-Any (hooks_worker calls ∷ l) x xs h = inr (loops-Any l x xs h)
loops-Any (sends_usernames k ∷ l) x xs h = inr (loops-Any l x xs h)
loops-Any (starts_monitor t ∷ l) x xs h = inr (loops-Any l x xs h)

parsed-loops : loops (log (start_parsed start_answers flags (ok parsed))) ≡ loop_setup ∷ []
unfolding run_daemon list_options load_keys find_root connect announce listen found_root keys_path
    service_texts service_text monitor_pattern open_authkeys check accept need listed emit
    set_worker_hooks root_address snprintf handle_username_keys username_rounds username_round
    username_key decimal digits
parsed-loops = refl

daemon_main-parsed :
    (w : StartAnswers) → daemon_main w flags allocation options ≡ start_parsed w flags (ok parsed)
unfolding daemon_main
daemon_main-parsed w = ap (start_parsed w flags) parse_options

daemon-Runs : Runs loop_setup (daemon_main start_answers flags allocation options)
daemon-Runs =
    subst (Runs loop_setup) (sym (daemon_main-parsed start_answers))
      (loops-Any _ loop_setup [] parsed-loops)

daemon_main-IsReady_example :
    (p : SshnpdParams) × (parse_sshnpd_params allocation options ≡ ok p)
    × IsReady start_answers p flags loop_setup
daemon_main-IsReady_example =
    daemon_main-IsReady start_answers flags allocation options loop_setup daemon-Runs

daemon_main-IsCleaned_example :
    cleanups (log (daemon_main start_answers flags allocation options))
    ≡ is_stopped (daemon_main start_answers flags allocation options)
daemon_main-IsCleaned_example =
    daemon_main-IsCleaned start_answers flags allocation options parse_options refl

abbrev code_of : Start (Unit {0}) → Option ℤ
code_of (goes u l) = none
code_of (stops c l) = some c
code_of (overruns l) = none

-- No memory for the pattern of the monitor: the daemon ends with 0 and no loop.
abbrev no_pattern : StartAnswers
no_pattern = record start_answers { allocates = λ r. elim r [ regex ↦ false | _ ↦ true ] }

no_pattern_ends :
    (code_of (start_parsed no_pattern flags (ok parsed)) ≡ some success)
    × (loops (log (start_parsed no_pattern flags (ok parsed))) ≡ [])
unfolding run_daemon list_options load_keys find_root connect announce listen found_root keys_path
    service_texts service_text monitor_pattern open_authkeys check accept need listed emit
    set_worker_hooks root_address snprintf handle_username_keys username_rounds username_round
    username_key decimal digits
no_pattern_ends = (refl, refl)

-- A command line that gives the atSign and one manager.
abbrev pub short_line : Variables → Variables
short_line v = record v {
  raw = record v.raw { atsign = some (codes "@dev") };
  manager = some (codes "@a");
}

short_line-Leaves : Leaves short_line
short_line-Leaves = record {
  device = refl;
  root_domain = refl;
  permitopen = refl;
  ssh_algorithm = refl;
  ssh_algorithm_input = refl;
}

abbrev pub short_params : SshnpdParams
short_params = record {
  atsign = codes "@dev";
  device = codes "default";
  managers = codes "@a" ∷ [];
  permits = default_permits;
  ssh_algorithm = ed25519;
}

abbrev pub short_setup : LoopSetup
short_setup = record {
  monitor_regex = codes "default.sshnp@";
  authkeys_path = codes "/root/.ssh/authorized_keys";
  ping_text = [];
}

pub parse_short : parse_sshnpd_params allocation (options_of (short_line initial)) ≡ ok short_params
unfolding options_of apply_default_values_to_sshnpd_params parse_sshnpd_params required require
    permit_text parse_permitopen read_allocated read_entries read_port convert signed skip_spaces
    read_digits c_str parse_algorithm manager_items parse_managers lower
parse_short = refl

short_loops :
    loops (log (start_parsed start_answers (flags_of (short_line initial)) (ok short_params)))
    ≡ short_setup ∷ []
unfolding run_daemon list_options load_keys find_root connect announce listen found_root keys_path
    service_texts service_text monitor_pattern open_authkeys check accept need listed emit
    set_worker_hooks root_address strchr_colon snprintf handle_username_keys username_rounds
    username_round username_key decimal digits flags_of apply_default_values_to_sshnpd_params
short_loops = refl

main_short :
    main start_answers allocation short_line
    ≡ start_parsed start_answers (flags_of (short_line initial)) (ok short_params)
unfolding main daemon_main
main_short = ap (start_parsed start_answers (flags_of (short_line initial))) parse_short

main-IsDefault_example :
    (p : SshnpdParams) × IsDefault start_answers allocation short_line short_setup p
main-IsDefault_example =
    main-IsDefault start_answers allocation short_line short_setup short_line-Leaves
      (subst (Runs short_setup) (sym main_short) (loops-Any _ short_setup [] short_loops))
