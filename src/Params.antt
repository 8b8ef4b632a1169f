-- ===== src/Params.antt =====
-- packages/c/sshnpd/src/params.c: the options of the daemon. What argparse makes of the command
-- line is an argument.
pub mod Managers
pub mod Accepted
use zettahealthonramp.Base.{
  ℕ, ◌+◌, Bool, true, false, not, ◌&&◌, ◌||◌, Option, none, some, List, [], ◌∷◌, map, leb, ◌==◌,
  if◌then◌else◌, is_some, Text, codes, take, str_eq, ◌>>=◌, Outcome, ok, error,
}
use zettahealthonramp.PermitOpen.{parse_permitopen, Entry, Env}

pub data SshAlgorithm : Type 0 where
  ed25519 rsa : SshAlgorithm

-- The variables that main gives a default to, and argparse writes over.
pub record RawParams : Type 0 where
  pub key_file : Option Text
  pub atsign : Option Text
  pub policy : Option Text
  pub device : Text
  pub sshpublickey : Bool
  pub hide : Bool
  pub verbose : Bool
  pub ssh_algorithm : SshAlgorithm
  pub root_domain : Option Text
  pub local_sshd_port : ℕ
  pub storage_path : Option Text

unfoldable pub apply_default_values_to_sshnpd_params : RawParams
apply_default_values_to_sshnpd_params = record {
  key_file = none;
  atsign = none;
  policy = none;
  device = codes "default";
  sshpublickey = false;
  hide = false;
  verbose = false;
  ssh_algorithm = ed25519;
  root_domain = some (codes "root.atsign.org");
  local_sshd_port = 22;
  storage_path = none;
}

-- What the options' variables hold behind `argparse_parse`; `none` is a null pointer.
pub record Options : Type 0 where
  pub atsign : Option Text
  pub manager : Option Text
  pub policy : Option Text
  pub device : Text
  pub permitopen : Option Text
  pub ssh_algorithm : SshAlgorithm
  pub ssh_algorithm_input : Text

pub record Allocation : Type 0 where
  pub permitopen_str : Bool
  pub manager_list : Bool
  pub permitopen_env : Env

pub record SshnpdParams : Type 0 where
  pub atsign : Text
  pub device : Text
  pub managers : List Text
  pub permits : List Entry
  pub ssh_algorithm : SshAlgorithm

-- The commas before the last byte.
unfoldable pub sep_count : Text → ℕ
sep_count [] = 0
sep_count (c ∷ []) = 0
sep_count (c ∷ d ∷ s) = (if c == b',' then 1 else 0) + sep_count (d ∷ s)

-- The strings that `manager_list` points to when the loop ends, and whether it broke off at a
-- trailing comma.
pub record Scan : Type 0 where
  pub first : Text
  pub others : List Text
  pub trailing : Bool

abbrev pub longer : ℕ → Scan → Scan
longer c r = record r { first = c ∷ r.first }

abbrev pub next_item : Scan → Scan
next_item r = record r { first = []; others = r.first ∷ r.others }

abbrev pub map_option {ℓ κ} : {A : Type ℓ} {B : Type κ} → (A → B) → Option A → Option B
map_option f none = none
map_option f (some a) = some (f a)

abbrev pub starts_at : Text → Bool
starts_at [] = false
starts_at (c ∷ s) = c == b'@'

abbrev pub is_nil : Text → Bool
is_nil [] = true
is_nil (c ∷ s) = false

-- One byte in front of what was scanned; `none` where a comma is followed by neither an '@' nor the
-- end.
unfoldable pub extend : ℕ → Text → Option Scan → Option Scan
extend c s rest =
    if not (c == b',')
    then map_option (longer c) rest
    else if is_nil s
    then some (record { first = []; others = []; trailing = true })
    else if starts_at s
    then map_option next_item rest
    else none

unfoldable pub scan : Text → Option Scan
unfolding extend
scan [] = some (record { first = []; others = []; trailing = false })
scan (c ∷ s) = extend c s (scan s)

-- `manager_list_len` is `sep_count + 1`, where a trailing comma has taken one off.
abbrev pub list_len : Text → Scan → ℕ
list_len s r = if r.trailing then sep_count s else sep_count s + 1

-- The managers as the daemon reads them later: as many as `manager_list_len` says.
unfoldable pub parse_managers : Text → Option (List Text)
unfolding scan sep_count
parse_managers s = map_option (λ r. take (list_len s r) (r.first ∷ r.others)) (scan s)

-- The bytes A to Z become lower case.
unfoldable pub lower : ℕ → ℕ
lower c = if leb b'A' c && leb c b'Z' then c + 32 else c

abbrev pub default_permitopen : Text
default_permitopen = codes "localhost:22,localhost:3389"

-- Without an input the variable stays as it was.
unfoldable pub parse_algorithm : SshAlgorithm → Text → Outcome SshAlgorithm
parse_algorithm before [] = ok before
parse_algorithm before (c ∷ s) =
    if str_eq (c ∷ s) (codes "ssh-rsa")
    then ok rsa
    else if str_eq (c ∷ s) (codes "ssh-ed25519")
    then ok ed25519
    else error

unfoldable pub permit_text : Allocation → Option Text → Outcome Text
permit_text alloc (some s) = ok s
permit_text alloc none = if alloc.permitopen_str then ok default_permitopen else error

unfoldable pub manager_items : Allocation → Option Text → Outcome (List Text)
manager_items alloc none = ok []
manager_items alloc (some s) =
    if not alloc.manager_list
    then error
    else elim (parse_managers s) [ none ↦ error | some ms ↦ ok ms ]

unfoldable pub require : Bool → Outcome (Unit {0})
require true = ok tt
require false = error

unfoldable pub required : Option Text → Outcome Text
required none = error
required (some s) = ok s

unfoldable pub parse_sshnpd_params : Allocation → Options → Outcome SshnpdParams
parse_sshnpd_params alloc o = do
  atsign ← required o.atsign
  given ← require (is_some o.manager || is_some o.policy)
  permit ← permit_text alloc o.permitopen
  permits ← parse_permitopen alloc.permitopen_env permit
  algorithm ← parse_algorithm o.ssh_algorithm o.ssh_algorithm_input
  valid ← require (starts_at atsign)
  managers ← manager_items alloc o.manager
  ok (record {
    atsign = atsign;
    device = map lower o.device;
    managers = managers;
    permits = permits;
    ssh_algorithm = algorithm;
  })
