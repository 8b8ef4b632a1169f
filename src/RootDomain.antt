-- ===== src/RootDomain.antt =====
-- packages/c/sshnpd/src/main.c: the host and the port of the root domain.
pub mod Address
pub mod Tests
use zettahealthonramp.Base.{
  ℕ, ◌-◌, ◌%◌, ◌^◌, Bool, true, false, Option, none, some, [], ◌∷◌, ltb, leb, ◌==◌, if◌then◌else◌,
  Text, codes, length, Outcome, ok, error, fault,
}
use zettahealthonramp.PermitOpen.{skip_spaces, read_digits}
use zettahealthonramp.DeviceInfo.{snprintf}

-- What stands in front of the first colon, and behind it.
unfoldable pub strchr_colon : Text → Option (Text × Text)
strchr_colon [] = none
strchr_colon (c ∷ s) =
    if c == b':'
    then some ([], s)
    else elim (strchr_colon s) [ none ↦ none | some r ↦ some (c ∷ r.0, r.1) ]

-- The digits as an `int` of 32 bits, cast to `uint16_t`; the flag is the sign. Beyond an `int` the C
-- library promises nothing.
unfoldable pub int_digits : Bool → Text → Option ℕ
int_digits negative s =
    let n = (read_digits 0 s).0 in
    if negative
    then (if ltb (2 ^ 31) n then none else some ((2 ^ 32 - n) % 2 ^ 16))
    else (if ltb (2 ^ 31 - 1) n then none else some (n % 2 ^ 16))

unfoldable pub signed_int : Text → Option ℕ
unfolding int_digits
signed_int [] = some 0
signed_int (c ∷ s) =
    if c == b'-'
    then int_digits true s
    else if c == b'+'
    then int_digits false s
    else int_digits false (c ∷ s)

-- `(uint16_t)atoi(s)`
unfoldable pub atoi : Text → Option ℕ
unfolding signed_int
atoi s = signed_int (skip_spaces s)

abbrev pub default_root_host : Text
default_root_host = codes "root.atsign.org"

abbrev pub default_root_port : ℕ
default_root_port = 64

abbrev pub with_port : Text → Option ℕ → Outcome (Text × ℕ)
with_port host none = fault
with_port host (some port) = if port == 0 then error else ok (host, port)

-- The host is printed up to the colon; without one, all of the domain is the host.
abbrev pub at_colon : Text → Option (Text × Text) → Outcome (Text × ℕ)
at_colon domain none = ok (snprintf 254 domain, default_root_port)
at_colon domain (some (host, port_str)) =
    if leb 253 (length host) then error else with_port (snprintf 254 host) (atoi port_str)

unfoldable pub root_address : Option Text → Outcome (Text × ℕ)
unfolding strchr_colon
root_address none = ok (default_root_host, default_root_port)
root_address (some domain) = at_colon domain (strchr_colon domain)
