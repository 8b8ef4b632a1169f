-- ===== src/Start.antt =====
-- packages/c/sshnpd/src/main.c: the start of the daemon, behind argparse. The answers of the libraries
-- and of the environment are a record; a stage goes on with a value, or it stops with the code that main
-- returns.
pub mod Stages
pub mod Cleaned
pub mod Loops
pub mod Defaults
pub mod Tests
use zettahealthonramp.Base.{
  ℕ, Bool, Option, none, some, List, [], ◌∷◌, ◌++◌, ◌==◌, if◌then◌else◌, Text,
}
use zettahealthonramp.Clients.{ClientEvent}
use zettahealthonramp.Code.{is_zero, ℤ, pos}
use zettahealthonramp.DeviceInfo.{Answers, KeyEvent}

-- What main puts on its list of things to free.
pub data Resource : Type 0 where
  manager_list permitopen_hosts permitopen_ports permitopen_str psa_crypto : Resource
  atkeys signingkey root_host monitor_ctx monitor_options worker worker_options : Resource
  ping_response regex authkeys_filename authkeys_file : Resource

-- What the main loop starts with.
pub record LoopSetup : Type 0 where
  pub monitor_regex : Text
  pub authkeys_path : Text
  pub ping_text : Text

pub data StartEvent : Type 0 where
  adds releases : Resource → StartEvent
  failure_free success_free : StartEvent
  authenticates_monitor authenticates_worker : Text → ℕ → StartEvent
  hooks_worker : List ClientEvent → StartEvent
  sends_usernames : List KeyEvent → StartEvent
  starts_monitor : Text → StartEvent
  runs_loop : LoopSetup → StartEvent

-- The answers; `should_run` by the tests of it in order, `open_error` is what `errno` holds if the file
-- of authorized keys is not opened, and `add` is what the list answers.
pub record StartAnswers : Type 0 where
  pub add : Resource → ℕ
  pub should_run : ℕ → Bool
  pub home_dir : Option Text
  pub username : Option Text
  pub populate_atkeys : Text → ℤ
  pub clone_signingkey : ℤ
  pub allocates : Resource → Bool
  pub buffer_allocated : Bool
  pub authenticate_monitor : Text → ℕ → ℤ
  pub authenticate_worker : Text → ℕ → ℤ
  pub set_hook : ℤ
  pub print_ping : Text → Bool → List Text → Option Text
  pub usernames : ℕ → Answers
  pub start_monitor : Text → ℤ
  pub open_error : Option ℕ
  pub is_child : Bool

-- The options that are only passed on.
pub record Flags : Type 0 where
  pub hide : Bool
  pub sshpublickey : Bool
  pub key_file : Option Text
  pub root_domain : Option Text

pub data Start {ℓ} (A : Type ℓ) : Type ℓ where
  goes : A → List StartEvent → Start A
  stops : ℤ → List StartEvent → Start A
  overruns : List StartEvent → Start A

abbrev pub behind {ℓ} : {A : Type ℓ} → List StartEvent → Start A → Start A
behind l (goes a m) = goes a (l ++ m)
behind l (stops c m) = stops c (l ++ m)
behind l (overruns m) = overruns (l ++ m)

infixl 5 ◌>>=◌ ◌>>◌
abbrev pub ◌>>=◌ {ℓ κ} : {A : Type ℓ} {B : Type κ} → Start A → (A → Start B) → Start B
goes a l >>= f = behind l (f a)
stops c l >>= f = stops c l
overruns l >>= f = overruns l

abbrev pub ◌>>◌ {ℓ} : {B : Type ℓ} → Start (Unit {0}) → Start B → Start B
m >> k = m >>= λ _. k

abbrev pub log {ℓ} : {A : Type ℓ} → Start A → List StartEvent
log (goes a l) = l
log (stops c l) = l
log (overruns l) = l

unfoldable pub emit : StartEvent → Start (Unit {0})
emit e = goes tt (e ∷ [])

-- A failure that is cleaned up after.
abbrev pub fails {ℓ} : {A : Type ℓ} → ℤ → Start A
fails c = stops c (failure_free ∷ [])

unfoldable pub check : Bool → ℤ → Start (Unit {0})
check b c = if b then goes tt [] else fails c

unfoldable pub accept : ℤ → Start (Unit {0})
accept c = if is_zero c then goes tt [] else fails c

unfoldable pub need {ℓ} : {A : Type ℓ} → Option A → ℤ → Start A
need none c = fails c
need (some a) c = goes a []

-- An entry of the list; what the list does not take is freed at once.
unfoldable pub listed : StartAnswers → Resource → Start (Unit {0})
listed w r =
    if w.add r == 0
    then goes tt (adds r ∷ [])
    else stops (pos (w.add r)) (releases r ∷ failure_free ∷ [])
