-- ===== src/Params/Accepted.antt =====
-- What the accepted options of the daemon are.
use zettahealthonramp.Base.{
  ℕ, ◌≡◌, refl, subst, Bool, true, false, ◌&&◌, ◌||◌, Option, none, some, List, [], ◌∷◌, map, arith,
  leb, is_some, Text, All, first_passed, ok,
}
use zettahealthonramp.PermitOpen.{parse_permitopen}
use zettahealthonramp.Params.{
  starts_at, parse_managers, lower, default_permitopen, parse_algorithm, permit_text, manager_items,
  require, required, parse_sshnpd_params, Options, Allocation, SshnpdParams,
}

-- The list that is parsed where no permit-open option is given.
abbrev pub chosen_permitopen : Option Text → Text
chosen_permitopen none = default_permitopen
chosen_permitopen (some s) = s

abbrev pub IsLower : ℕ → Type 0
IsLower c = (leb b'A' c && leb c b'Z') ≡ false

abbrev pub ManagersOf : Option Text → List Text → Type 0
ManagersOf none ms = ms ≡ []
ManagersOf (some s) ms = parse_managers s ≡ some ms

-- The parameters `p` are what the options say, and they are fit for the daemon.
pub record IsAccepted (alloc : Allocation) (o : Options) (p : SshnpdParams) : Type 0 where
  pub atsign_given : o.atsign ≡ some p.atsign
  pub atsign_valid : starts_at p.atsign ≡ true
  pub someone_asks : (is_some o.manager || is_some o.policy) ≡ true
  pub device_is : p.device ≡ map lower o.device
  pub device_lower : All IsLower p.device
  pub permits_parsed :
      parse_permitopen alloc.permitopen_env (chosen_permitopen o.permitopen) ≡ ok p.permits
  pub algorithm_parsed : parse_algorithm o.ssh_algorithm o.ssh_algorithm_input ≡ ok p.ssh_algorithm
  pub managers_parsed : ManagersOf o.manager p.managers

map-lower-IsLower : (s : Text) → All IsLower (map lower s)
unfolding lower
map-lower-IsLower [] = tt
map-lower-IsLower (c ∷ s) = (ground arith, map-lower-IsLower s)

require-ok : (b : Bool) {u : Unit {0}} → require b ≡ ok u → b ≡ true
unfolding require
require-ok true h = refl
require-ok false h = cc

required-ok : (o : Option Text) {s : Text} → required o ≡ ok s → o ≡ some s
unfolding required
required-ok none h = cc
required-ok (some t) h = cc

permit_text-ok :
    (alloc : Allocation) (o : Option Text) {s : Text}
    → permit_text alloc o ≡ ok s
    → s ≡ chosen_permitopen o
unfolding permit_text
permit_text-ok alloc none h = ground arith
permit_text-ok alloc (some t) h = cc

manager_items-ok :
    (alloc : Allocation) (o : Option Text) {ms : List Text}
    → manager_items alloc o ≡ ok ms
    → ManagersOf o ms
unfolding manager_items
manager_items-ok alloc none h = cc
manager_items-ok alloc (some s) h = ground arith

-- Options are accepted only with an atSign that starts with '@' and with a manager or a policy; the
-- device name of the result is the given one without capitals, its permits are those parsed from the
-- given list or the default one, its algorithm the one that is named, and its managers what
-- parse_managers makes of the manager list.
pub parse_sshnpd_params-IsAccepted :
    (alloc : Allocation) (o : Options) {p : SshnpdParams}
    → parse_sshnpd_params alloc o ≡ ok p
    → IsAccepted alloc o p
unfolding parse_sshnpd_params
parse_sshnpd_params-IsAccepted alloc o {p} h =
    let (atsign, e1, h1) = first_passed _ (required o.atsign) h in
    let (u, e2, h2) = first_passed _ (require (is_some o.manager || is_some o.policy)) h1 in
    let (permit, e3, h3) = first_passed _ (permit_text alloc o.permitopen) h2 in
    let (permits, e4, h4) = first_passed _ (parse_permitopen alloc.permitopen_env permit) h3 in
    let (algorithm, e5, h5) =
      first_passed _ (parse_algorithm o.ssh_algorithm o.ssh_algorithm_input) h4 in
    let (v, e6, h6) = first_passed _ (require (starts_at atsign)) h5 in
    let (managers, e7, h7) = first_passed _ (manager_items alloc o.manager) h6 in
    let same_params : (record {
      atsign = atsign;
      device = map lower o.device;
      managers = managers;
      permits = permits;
      ssh_algorithm = algorithm;
    })
        ≡ p =
      cc h7 in
    subst (IsAccepted alloc o) same_params (record {
      atsign_given = required-ok o.atsign e1;
      atsign_valid = require-ok _ e6;
      someone_asks = require-ok _ e2;
      device_is = refl;
      device_lower = map-lower-IsLower o.device;
      permits_parsed = rw (← permit_text-ok alloc o.permitopen e3) e4;
      algorithm_parsed = e5;
      managers_parsed = manager_items-ok alloc o.manager e7;
    })
