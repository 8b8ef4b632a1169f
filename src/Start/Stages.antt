-- ===== src/Start/Stages.antt =====
-- packages/c/sshnpd/src/main.c: the stages of the start, in order.
use zettahealthonramp.Base.{
  ℕ, ◌+◌, not, ◌&&◌, ◌||◌, Option, none, some, List, [], ◌∷◌, ◌++◌, map, leb, ◌==◌, if◌then◌else◌,
  is_some, Text, codes, length, Outcome, ok, error, fault,
}
use zettahealthonramp.Clients.{set_worker_hooks}
use zettahealthonramp.Code.{success, failure, ℤ, pos}
use zettahealthonramp.PermitOpen.{Entry}
use zettahealthonramp.PermitOpen.Decimal.{decimal}
use zettahealthonramp.Params.{parse_sshnpd_params, Options, Allocation, SshnpdParams}
use zettahealthonramp.DeviceInfo.{snprintf, handle_username_keys, KeyEvent}
use zettahealthonramp.RootDomain.{root_address}
use zettahealthonramp.Start.{
  ◌>>=◌, ◌>>◌, emit, fails, check, accept, need, listed, Resource, LoopSetup, StartEvent,
  StartAnswers, Flags, Start, manager_list, permitopen_hosts, permitopen_ports, permitopen_str,
  psa_crypto, atkeys, signingkey, root_host, monitor_ctx, monitor_options, worker, worker_options,
  ping_response, regex, authkeys_filename, authkeys_file, adds, releases, failure_free,
  success_free, authenticates_monitor, authenticates_worker, hooks_worker, sends_usernames,
  starts_monitor, runs_loop, goes, stops, overruns,
}

abbrev pub option_memory : List Resource
option_memory =
    manager_list ∷ permitopen_hosts ∷ permitopen_ports ∷ permitopen_str ∷ psa_crypto ∷ []

abbrev pub sum_added : StartAnswers → List Resource → ℕ
sum_added w [] = 0
sum_added w (r ∷ rs) = w.add r + sum_added w rs

-- Where the list does not take what the options hold, all of it is freed by hand, and the process exits.
unfoldable pub list_options : StartAnswers → Start (Unit {0})
list_options w =
    if sum_added w option_memory == 0
    then goes tt (map adds option_memory)
    else stops failure (map releases option_memory)

-- The size of the buffer for a permitted service, and its text; a longer one is written past its end.
unfoldable pub service_text : StartAnswers → Entry → Start Text
service_text w e =
    let text = e.host ++ b':' ∷ decimal e.port in
    if w.buffer_allocated && leb (length text) 1023 then goes text [] else overruns []

unfoldable pub service_texts : StartAnswers → List Entry → Start (List Text)
unfolding service_text
service_texts w [] = goes [] []
service_texts w (e ∷ es) = service_text w e >>= λ t. service_texts w es >>= λ ts. goes (t ∷ ts) []

module _ (w : StartAnswers) (p : SshnpdParams) (flags : Flags) where
  unfoldable pub keys_path : Text → Text
  unfolding snprintf
  keys_path home_dir = elim flags.key_file [
    | none ↦ snprintf 500 (home_dir ++ codes "/.atsign/keys/" ++ p.atsign ++ codes "_key.atKeys")
    | some file ↦ file
  ]

  unfoldable pub load_keys : Start Text
  unfolding need check accept listed keys_path
  load_keys = do
    home_dir ← need w.home_dir failure
    check (flags.hide || is_some w.username) failure
    check (w.should_run 0) failure
    listed w atkeys
    accept (w.populate_atkeys (keys_path home_dir))
    check (w.should_run 1) success
    listed w signingkey
    accept w.clone_signingkey
    goes home_dir []

  unfoldable pub found_root : Outcome (Text × ℕ) → Start (Text × ℕ)
  found_root (ok a) = goes a []
  found_root error = fails failure
  found_root fault = overruns []

  unfoldable pub find_root : Start (Text × ℕ)
  unfolding check listed found_root
  find_root = do
    check (w.allocates root_host) failure
    listed w root_host
    found_root (root_address flags.root_domain)

  -- Both clients authenticate at the same root.
  unfoldable pub connect : Text × ℕ → Start (Unit {0})
  unfolding check listed accept
  connect root = do
    listed w monitor_ctx
    listed w monitor_options
    emit (authenticates_monitor root.0 root.1)
    accept (w.authenticate_monitor root.0 root.1)
    check (w.should_run 2) success
    listed w worker
    listed w worker_options
    emit (authenticates_worker root.0 root.1)
    accept (w.authenticate_worker root.0 root.1)
    check (w.should_run 3) success
    emit (hooks_worker (set_worker_hooks w.set_hook).1)
    accept (set_worker_hooks w.set_hook).0
    check (w.should_run 4) success

  abbrev pub user_name : Text
  user_name = elim w.username [ none ↦ [] | some u ↦ u ]

  abbrev pub published : ℤ × List KeyEvent
  published =
      handle_username_keys w.usernames user_name p.device p.atsign (not flags.hide) p.managers

  -- A response that is not printed stops the daemon with the code of what went before, which is 0.
  unfoldable pub announce : Start Text
  unfolding need check listed accept service_texts
  announce = do
    services ← service_texts w p.permits
    ping ← need (w.print_ping p.device flags.sshpublickey services) success
    listed w ping_response
    check (w.should_run 5) success
    emit (sends_usernames published.1)
    accept published.0
    goes ping []

  unfoldable pub monitor_pattern : Text
  unfolding snprintf
  monitor_pattern = snprintf (length p.device + 5 + 3) (p.device ++ b'.' ∷ codes "sshnp@")

  unfoldable pub open_authkeys : Option ℕ → Start (Unit {0})
  open_authkeys none =
      if w.add authkeys_file == 0
      then goes tt (adds authkeys_file ∷ [])
      else fails (pos (w.add authkeys_file))
  open_authkeys (some errno) = fails (if errno == 0 then failure else pos errno)

  -- A buffer that is not allocated stops the daemon with 0 as well.
  unfoldable pub listen : Text → Text → Start LoopSetup
  unfolding check listed accept monitor_pattern open_authkeys
  listen home_dir ping = do
    check (w.allocates regex) success
    listed w regex
    emit (starts_monitor monitor_pattern)
    accept (w.start_monitor monitor_pattern)
    check (w.should_run 6) success
    check (w.allocates authkeys_filename) success
    listed w authkeys_filename
    open_authkeys w.open_error
    check (w.should_run 7) success
    goes
        (record {
          monitor_regex = monitor_pattern;
          authkeys_path = home_dir ++ codes "/.ssh/authorized_keys";
          ping_text = ping;
        })
        []

  abbrev pub last_free : StartEvent
  last_free = if w.is_child then success_free else failure_free

  -- Behind the list of what the options hold.
  unfoldable pub run_daemon : Start (Unit {0})
  unfolding load_keys find_root connect announce listen
  run_daemon = do
    home_dir ← load_keys
    root ← find_root
    connect root
    ping ← announce
    setup ← listen home_dir ping
    stops success (runs_loop setup ∷ last_free ∷ [])

abbrev pub start_parsed : StartAnswers → Flags → Outcome SshnpdParams → Start (Unit {0})
start_parsed w flags error = stops failure []
start_parsed w flags fault = overruns []
start_parsed w flags (ok p) = list_options w >> run_daemon w p flags

unfoldable pub daemon_main : StartAnswers → Flags → Allocation → Options → Start (Unit {0})
unfolding list_options run_daemon
daemon_main w flags alloc o = start_parsed w flags (parse_sshnpd_params alloc o)
