-- ===== src/Start/Defaults.antt =====
-- packages/c/sshnpd/src/main.c: the start from the default values on. What argparse makes of the variables
-- is an argument.
use zettahealthonramp.Base.{
  ◌≡◌, refl, ap₂, subst, sym, ap, ◌∙◌, inl, inr, Option, none, some, List, [], ◌∷◌, ◌++◌, map,
  Bool-cases, Text, codes, ok, error, fault, true, if◌then◌else◌, c_str, arith,
}
use zettahealthonramp.Code.{is_zero}
use zettahealthonramp.PermitOpen.{
  parse_permitopen, read_allocated, read_entries, read_port, convert, signed, skip_spaces,
  read_digits, Entry, Env,
}
use zettahealthonramp.Params.{
  lower, default_permitopen, parse_algorithm, parse_sshnpd_params,
  apply_default_values_to_sshnpd_params, RawParams, Options, Allocation, SshnpdParams, ed25519,
}
use zettahealthonramp.Params.Accepted.{parse_sshnpd_params-IsAccepted, chosen_permitopen}
use zettahealthonramp.RootDomain.{strchr_colon, root_address}
use zettahealthonramp.DeviceInfo.{snprintf}
use zettahealthonramp.Start.{LoopSetup, StartAnswers, Flags, Start}
use zettahealthonramp.Start.Stages.{daemon_main}
use zettahealthonramp.Start.Loops.{Runs}
use zettahealthonramp.Start.Loops.Ready.{daemon_main-IsReady, IsReady}

-- The variables that the options are parsed into, those of `parse_sshnpd_params` too.
pub record Variables : Type 0 where
  pub raw : RawParams
  pub manager : Option Text
  pub permitopen : Option Text
  pub ssh_algorithm_input : Text

abbrev pub initial : Variables
initial = record {
  raw = apply_default_values_to_sshnpd_params;
  manager = none;
  permitopen = none;
  ssh_algorithm_input = [];
}

unfoldable pub options_of : Variables → Options
options_of v = record {
  atsign = v.raw.atsign;
  manager = v.manager;
  policy = v.raw.policy;
  device = v.raw.device;
  permitopen = v.permitopen;
  ssh_algorithm = v.raw.ssh_algorithm;
  ssh_algorithm_input = v.ssh_algorithm_input;
}

unfoldable pub flags_of : Variables → Flags
flags_of v = record {
  hide = v.raw.hide;
  sshpublickey = v.raw.sshpublickey;
  key_file = v.raw.key_file;
  root_domain = v.raw.root_domain;
}

unfoldable pub main : StartAnswers → Allocation → (Variables → Variables) → Start (Unit {0})
unfolding options_of flags_of apply_default_values_to_sshnpd_params
main w alloc argparse =
    let given = argparse initial in daemon_main w (flags_of given) alloc (options_of given)

-- An option that is not on the command line leaves its variable as it is.
pub record Leaves (argparse : Variables → Variables) : Type 0 where
  pub device : (argparse initial).raw.device ≡ initial.raw.device
  pub root_domain : (argparse initial).raw.root_domain ≡ initial.raw.root_domain
  pub permitopen : (argparse initial).permitopen ≡ initial.permitopen
  pub ssh_algorithm : (argparse initial).raw.ssh_algorithm ≡ initial.raw.ssh_algorithm
  pub ssh_algorithm_input : (argparse initial).ssh_algorithm_input ≡ initial.ssh_algorithm_input

abbrev pub default_permits : List Entry
default_permits =
    record { host = codes "localhost"; port = 22 }
    ∷ record { host = codes "localhost"; port = 3389 }
    ∷ []

permits_by_env :
    (env : Env)
    → parse_permitopen env default_permitopen ≡ (
        if env.hosts_allocated
        then if env.ports_allocated
          then (if env.errno_is_erange then error else ok default_permits)
          else fault
        else error)
unfolding parse_permitopen read_allocated read_entries read_port convert signed skip_spaces
    read_digits c_str
permits_by_env env = elim (Bool-cases env.hosts_allocated) [
  | inr no_hosts ↦ rw no_hosts refl
  | inl hosts ↦ elim (Bool-cases env.ports_allocated) [
    | inr no_ports ↦ rw (hosts, no_ports) refl
    | inl ports ↦ elim (Bool-cases env.errno_is_erange) [
      | inl range ↦ rw (hosts, ports, range) refl
      | inr good ↦ rw (hosts, ports, good) refl
    ]
  ]
]

default-permits :
    (env : Env) {es : List Entry}
    → parse_permitopen env default_permitopen ≡ ok es
    → es ≡ default_permits
default-permits env h = ground (arith, permits_by_env env)

root-default : root_address (some (codes "root.atsign.org")) ≡ ok (codes "root.atsign.org", 64)
unfolding root_address strchr_colon snprintf
root-default = refl

device-default : map lower (codes "default") ≡ codes "default"
unfolding lower
device-default = refl

algorithm-default : parse_algorithm ed25519 [] ≡ ok ed25519
unfolding parse_algorithm
algorithm-default = refl

ok_same : {A : Type 0} {a b : A} → ok a ≡ ok b → a ≡ b
ok_same h = cc

module _ (alloc : Allocation) (argparse : Variables → Variables) where
  pub parsed-default_permits :
      (p : SshnpdParams)
      → (argparse initial).permitopen ≡ initial.permitopen
      → parse_sshnpd_params alloc (options_of (argparse initial)) ≡ ok p
      → p.permits ≡ default_permits
  unfolding options_of
  parsed-default_permits p l parsed =
      let accepted = parse_sshnpd_params-IsAccepted alloc (options_of (argparse initial)) parsed in
      default-permits alloc.permitopen_env (
        subst (λ o. parse_permitopen alloc.permitopen_env (chosen_permitopen o) ≡ ok p.permits) l
          accepted.permits_parsed)

module _ (w : StartAnswers) (alloc : Allocation) (argparse : Variables → Variables) where
  abbrev given : Variables
  given = argparse initial

  -- The daemon as it stands if the command line leaves these options out.
  pub record IsDefault (x : LoopSetup) (p : SshnpdParams) : Type 0 where
    pub parsed : parse_sshnpd_params alloc (options_of given) ≡ ok p
    pub permits : p.permits ≡ default_permits
    pub device : p.device ≡ codes "default"
    pub ssh_algorithm : p.ssh_algorithm ≡ ed25519
    pub pattern : x.monitor_regex ≡ codes "default.sshnp@"
    pub monitor_in : is_zero (w.authenticate_monitor (codes "root.atsign.org") 64) ≡ true
    pub worker_in : is_zero (w.authenticate_worker (codes "root.atsign.org") 64) ≡ true

  ready-IsDefault :
      (x : LoopSetup) (p : SshnpdParams)
      → Leaves argparse
      → parse_sshnpd_params alloc (options_of given) ≡ ok p
      → IsReady w p (flags_of given) x
      → IsDefault x p
  unfolding options_of flags_of apply_default_values_to_sshnpd_params
  ready-IsDefault x p l parsed ready =
      let accepted = parse_sshnpd_params-IsAccepted alloc (options_of given) parsed in
      let named : p.device ≡ codes "default" =
        accepted.device_is ∙ ap (map lower) l.device ∙ device-default in
      let root_same : (codes "root.atsign.org", 64) ≡ ready.root =
        ok_same (sym root-default ∙ ap root_address (sym l.root_domain) ∙ ready.root_is) in
      record {
        parsed = parsed;
        permits = parsed-default_permits alloc argparse p l.permitopen parsed;
        device = named;
        ssh_algorithm = sym (
            ok_same (
              sym algorithm-default
              ∙ ap₂ parse_algorithm (sym l.ssh_algorithm) (sym l.ssh_algorithm_input)
              ∙ accepted.algorithm_parsed));
        pattern = ready.pattern ∙ ap (λ d. d ++ b'.' ∷ codes "sshnp@") named;
        monitor_in =
            subst (λ r. is_zero (w.authenticate_monitor r.0 r.1) ≡ true) (sym root_same)
              ready.monitor_authentic;
        worker_in =
            subst (λ r. is_zero (w.authenticate_worker r.0 r.1) ≡ true) (sym root_same)
              ready.worker_authentic;
      }

  -- If the command line leaves out the device, the root domain, the permit-open list and the ssh
  -- algorithm, and the main loop is run, then the list permits localhost at 22 and at 3389, the device
  -- is called default, the algorithm is ed25519, the monitor listens for that device, and both clients
  -- were authenticated at root.atsign.org and port 64.
  pub main-IsDefault :
      (x : LoopSetup)
      → Leaves argparse
      → Runs x (main w alloc argparse)
      → (p : SshnpdParams) × IsDefault x p
  unfolding main
  main-IsDefault x l h =
      let (p, parsed, ready) =
        daemon_main-IsReady w (flags_of given) alloc (options_of given) x h in
      (p, ready-IsDefault x p l parsed ready)
