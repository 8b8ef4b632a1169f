-- ===== src/Start/Loops/Ready.antt =====
-- packages/c/sshnpd/src/main.c: what each stage of the start saw to when the main loop is run.
use zettahealthonramp.Base.{
  ℕ, ◌≡◌, refl, sym, ap, subst, ◌∙◌, inl, inr, true, ◌||◌, Option, none, some, [], ◌∷◌, ◌++◌, arith,
  ◌==◌, Bool-cases, is_some, Text, codes, take-all, length-append, All, Any, Outcome, ok, error,
  fault,
}
use zettahealthonramp.Clients.{set_worker_hooks}
use zettahealthonramp.Code.{is_zero, success, failure}
use zettahealthonramp.Params.{parse_sshnpd_params, Options, Allocation, SshnpdParams}
use zettahealthonramp.DeviceInfo.{snprintf}
use zettahealthonramp.RootDomain.{root_address}
use zettahealthonramp.Start.{
  log, emit, check, accept, need, listed, LoopSetup, StartAnswers, Flags, atkeys, signingkey,
  root_host, monitor_ctx, monitor_options, worker, worker_options, ping_response, regex,
  authkeys_filename, authenticates_monitor, authenticates_worker, hooks_worker, sends_usernames,
  starts_monitor, runs_loop,
}
use zettahealthonramp.Start.Stages.{
  option_memory, sum_added, list_options, service_texts, keys_path, load_keys, found_root,
  find_root, connect, published, announce, monitor_pattern, open_authkeys, listen, last_free,
  run_daemon, start_parsed, daemon_main,
}
use zettahealthonramp.Start.Cleaned.{IsBefore}
use zettahealthonramp.Start.Cleaned.Parts.{
  load_keys-IsStage, find_root-IsStage, connect-IsStage, announce-IsStage, listen-IsStage,
}
use zettahealthonramp.Start.Loops.{
  Reaches, Runs, Runs-bind, passed, check_passed, accept_passed, need_passed,
}

module _ (w : StartAnswers) (p : SshnpdParams) (flags : Flags) where
  pub record IsReady (x : LoopSetup) : Type 0 where
    pub home : Text
    pub home_is : w.home_dir ≡ some home
    pub named : (flags.hide || is_some w.username) ≡ true
    pub keys_loaded : is_zero (w.populate_atkeys (keys_path w p flags home)) ≡ true
    pub key_cloned : is_zero w.clone_signingkey ≡ true
    pub root : Text × ℕ
    pub root_is : root_address flags.root_domain ≡ ok root
    pub monitor_authentic : is_zero (w.authenticate_monitor root.0 root.1) ≡ true
    pub worker_authentic : is_zero (w.authenticate_worker root.0 root.1) ≡ true
    pub hooked : is_zero (set_worker_hooks w.set_hook).0 ≡ true
    pub usernames_sent : is_zero (published w p flags).0 ≡ true
    pub monitor_started : is_zero (w.start_monitor x.monitor_regex) ≡ true
    pub pattern : x.monitor_regex ≡ p.device ++ b'.' ∷ codes "sshnp@"
    pub authkeys_opened : w.open_error ≡ none
    pub path : x.authkeys_path ≡ home ++ codes "/.ssh/authorized_keys"

  load_keys_passed :
      {home : Text}
      → Reaches (load_keys w p flags) home
      → (w.home_dir ≡ some home)
        × ((flags.hide || is_some w.username) ≡ true)
        × (is_zero (w.populate_atkeys (keys_path w p flags home)) ≡ true)
        × (is_zero w.clone_signingkey ≡ true)
  unfolding load_keys
  load_keys_passed {home} h =
      let (home_dir, h1, r1) = passed _ (need w.home_dir failure) h in
      let (_, h2, r2) = passed _ (check (flags.hide || is_some w.username) failure) r1 in
      let (_, h3, r3) = passed _ (check (w.should_run 0) failure) r2 in
      let (_, h4, r4) = passed _ (listed w atkeys) r3 in
      let (_, h5, r5) = passed _ (accept (w.populate_atkeys (keys_path w p flags home_dir))) r4 in
      let (_, h6, r6) = passed _ (check (w.should_run 1) success) r5 in
      let (_, h7, r7) = passed _ (listed w signingkey) r6 in
      let (_, h8, (l, e)) = passed _ (accept w.clone_signingkey) r7 in
      let same : home_dir ≡ home = cc in
      (
        need_passed w.home_dir failure h1 ∙ ap some same,
        check_passed (flags.hide || is_some w.username) failure h2,
        subst (λ d. is_zero (w.populate_atkeys (keys_path w p flags d)) ≡ true) same
            (accept_passed _ h5),
        accept_passed w.clone_signingkey h8,
      )

  found_root_passed :
      (o : Outcome (Text × ℕ)) {root : Text × ℕ}
      → Reaches (found_root w p flags o) root
      → o ≡ ok root
  unfolding found_root
  found_root_passed (ok a) (l, h) = cc
  found_root_passed error (l, h) = absurd (cc)
  found_root_passed fault (l, h) = absurd (cc)

  find_root_passed :
      {root : Text × ℕ}
      → Reaches (find_root w p flags) root
      → root_address flags.root_domain ≡ ok root
  unfolding find_root
  find_root_passed h =
      let (_, _, r1) = passed _ (check (w.allocates root_host) failure) h in
      let (_, _, r2) = passed _ (listed w root_host) r1 in
      found_root_passed (root_address flags.root_domain) r2

  connect_passed :
      (root : Text × ℕ) {u : Unit {0}}
      → Reaches (connect w p flags root) u
      → (is_zero (w.authenticate_monitor root.0 root.1) ≡ true)
        × (is_zero (w.authenticate_worker root.0 root.1) ≡ true)
        × (is_zero (set_worker_hooks w.set_hook).0 ≡ true)
  unfolding connect
  connect_passed root h =
      let (_, _, r1) = passed _ (listed w monitor_ctx) h in
      let (_, _, r2) = passed _ (listed w monitor_options) r1 in
      let (_, _, r3) = passed _ (emit (authenticates_monitor root.0 root.1)) r2 in
      let (_, h4, r4) = passed _ (accept (w.authenticate_monitor root.0 root.1)) r3 in
      let (_, _, r5) = passed _ (check (w.should_run 2) success) r4 in
      let (_, _, r6) = passed _ (listed w worker) r5 in
      let (_, _, r7) = passed _ (listed w worker_options) r6 in
      let (_, _, r8) = passed _ (emit (authenticates_worker root.0 root.1)) r7 in
      let (_, h9, r9) = passed _ (accept (w.authenticate_worker root.0 root.1)) r8 in
      let (_, _, r10) = passed _ (check (w.should_run 3) success) r9 in
      let (_, _, r11) = passed _ (emit (hooks_worker (set_worker_hooks w.set_hook).1)) r10 in
      let (_, h12, r12) = passed _ (accept (set_worker_hooks w.set_hook).0) r11 in
      (accept_passed _ h4, accept_passed _ h9, accept_passed _ h12)

  announce_passed :
      {ping : Text} → Reaches (announce w p flags) ping → is_zero (published w p flags).0 ≡ true
  unfolding announce
  announce_passed h =
      let (services, _, r1) = passed _ (service_texts w p.permits) h in
      let (_, _, r2) =
        passed _ (need (w.print_ping p.device flags.sshpublickey services) success) r1 in
      let (_, _, r3) = passed _ (listed w ping_response) r2 in
      let (_, _, r4) = passed _ (check (w.should_run 5) success) r3 in
      let (_, _, r5) = passed _ (emit (sends_usernames (published w p flags).1)) r4 in
      let (_, h6, _) = passed _ (accept (published w p flags).0) r5 in accept_passed _ h6

  open_authkeys_passed :
      (o : Option ℕ) {u : Unit {0}} → Reaches (open_authkeys w p flags o) u → o ≡ none
  unfolding open_authkeys
  open_authkeys_passed none h = refl
  open_authkeys_passed (some errno) (l, h) = absurd (cc)

  monitor_pattern-full : monitor_pattern w p flags ≡ p.device ++ b'.' ∷ codes "sshnp@"
  unfolding monitor_pattern snprintf
  monitor_pattern-full =
      take-all _ (p.device ++ b'.' ∷ codes "sshnp@")
        (omega (arith, length-append p.device (b'.' ∷ codes "sshnp@")))

  listen_passed :
      (home ping : Text) {x : LoopSetup}
      → Reaches (listen w p flags home ping) x
      → (is_zero (w.start_monitor x.monitor_regex) ≡ true)
        × (x.monitor_regex ≡ p.device ++ b'.' ∷ codes "sshnp@")
        × (w.open_error ≡ none)
        × (x.authkeys_path ≡ home ++ codes "/.ssh/authorized_keys")
  unfolding listen
  listen_passed home ping {x} h =
      let (_, _, r1) = passed _ (check (w.allocates regex) success) h in
      let (_, _, r2) = passed _ (listed w regex) r1 in
      let (_, _, r3) = passed _ (emit (starts_monitor (monitor_pattern w p flags))) r2 in
      let (_, h4, r4) = passed _ (accept (w.start_monitor (monitor_pattern w p flags))) r3 in
      let (_, _, r5) = passed _ (check (w.should_run 6) success) r4 in
      let (_, _, r6) = passed _ (check (w.allocates authkeys_filename) success) r5 in
      let (_, _, r7) = passed _ (listed w authkeys_filename) r6 in
      let (_, h8, r8) = passed _ (open_authkeys w p flags w.open_error) r7 in
      let (_, _, (l, e)) = passed _ (check (w.should_run 7) success) r8 in
      let regex_is : monitor_pattern w p flags ≡ x.monitor_regex = cc in
      let path_is : home ++ codes "/.ssh/authorized_keys" ≡ x.authkeys_path = cc in
      (
        subst (λ t. is_zero (w.start_monitor t) ≡ true) regex_is (accept_passed _ h4),
        sym regex_is ∙ monitor_pattern-full,
        open_authkeys_passed w.open_error h8,
        sym path_is,
      )

  last_runs :
      (setup x : LoopSetup)
      → Any (λ e. e ≡ runs_loop x) (runs_loop setup ∷ last_free w p flags ∷ [])
      → setup ≡ x
  last_runs setup x (inl h) = cc
  last_runs setup x (inr (inl h)) = elim (Bool-cases w.is_child) [
    | inl child ↦ absurd (ground (arith, child))
    | inr parent ↦ absurd (ground (arith, parent))
  ]
  last_runs setup x (inr (inr h)) = absurd h

  pub run_daemon-IsReady : (x : LoopSetup) → Runs x (run_daemon w p flags) → IsReady x
  unfolding run_daemon
  run_daemon-IsReady x h =
      let (home, r1, h1) =
        Runs-bind (load_keys w p flags) _ x (load_keys-IsStage w p flags).before h in
      let (root, r2, h2) =
        Runs-bind (find_root w p flags) _ x (find_root-IsStage w p flags).before h1 in
      let (_, r3, h3) =
        Runs-bind (connect w p flags root) _ x (connect-IsStage w p flags root).before h2 in
      let (ping, r4, h4) =
        Runs-bind (announce w p flags) _ x (announce-IsStage w p flags).before h3 in
      let (setup, r5, h5) =
        Runs-bind (listen w p flags home ping) _ x (listen-IsStage w p flags home ping).before h4 in
      let (home_is, named, loaded, cloned) = load_keys_passed r1 in
      let (monitor_in, worker_in, hooked) = connect_passed root r3 in
      let (started, pattern, opened, path) = listen_passed home ping r5 in
      subst IsReady (last_runs setup x h5) (record {
        home = home;
        home_is = home_is;
        named = named;
        keys_loaded = loaded;
        key_cloned = cloned;
        root = root;
        root_is = find_root_passed r2;
        monitor_authentic = monitor_in;
        worker_authentic = worker_in;
        hooked = hooked;
        usernames_sent = announce_passed r4;
        monitor_started = started;
        pattern = pattern;
        authkeys_opened = opened;
        path = path;
      })

list_options-IsBefore : (w : StartAnswers) → All IsBefore (log (list_options w))
unfolding list_options
list_options-IsBefore w = elim (Bool-cases (sum_added w option_memory == 0)) [
  | inl taken ↦ rw taken (tt, (tt, (tt, (tt, (tt, tt)))))
  | inr refused ↦ rw refused (tt, (tt, (tt, (tt, (tt, tt)))))
]

start_parsed-IsReady :
    (w : StartAnswers) (flags : Flags) (alloc : Allocation) (o : Options) (x : LoopSetup)
    (parsed : Outcome SshnpdParams)
    → parse_sshnpd_params alloc o ≡ parsed
    → Runs x (start_parsed w flags parsed)
    → (p : SshnpdParams) × (parse_sshnpd_params alloc o ≡ ok p) × IsReady w p flags x
start_parsed-IsReady w flags alloc o x error e h = absurd h
start_parsed-IsReady w flags alloc o x fault e h = absurd h
start_parsed-IsReady w flags alloc o x (ok p) e h =
    let (_, _, r) = Runs-bind (list_options w) _ x (list_options-IsBefore w) h in
    (p, e, run_daemon-IsReady w p flags x r)

-- If the main loop is run, then the options were parsed, and for the parameters that they came to: the
-- keys of the atSign were loaded and copied for signing, the root domain was understood and both clients
-- were authenticated at the host and port that it says, the hooks were set, the user name keys were sent
-- with the answer 0, the monitor was started on the keys of this device, and the file of authorized keys
-- in the home directory was opened.
pub daemon_main-IsReady :
    (w : StartAnswers) (flags : Flags) (alloc : Allocation) (o : Options) (x : LoopSetup)
    → Runs x (daemon_main w flags alloc o)
    → (p : SshnpdParams) × (parse_sshnpd_params alloc o ≡ ok p) × IsReady w p flags x
unfolding daemon_main
daemon_main-IsReady w flags alloc o x h =
    start_parsed-IsReady w flags alloc o x (parse_sshnpd_params alloc o) refl h
