-- ===== src/PermitOpen.antt =====
-- packages/c/sshnpd/src/permitopen.c: the list of host:port pairs that the daemon may connect to.
pub mod Decimal
pub mod Buffer
pub mod Trim
pub mod RoundTrip
pub mod Access
pub mod Reference
use zettahealthonramp.Base.{
  ℕ, zero, suc, ◌+◌, ◌-◌, ◌*◌, ◌%◌, ◌^◌, Bool, true, false, not, ◌&&◌, ◌||◌, Option, none, some,
  List, [], ◌∷◌, ◌++◌, ltb, leb, ◌==◌, if◌then◌else◌, Text, length, drop, str_eq, ◌>>=◌, c_str,
  Outcome, ok, error, fault,
}

-- One pair of `permitopen_hosts` and `permitopen_ports`; port 0 stands for '*'.
pub record Entry : Type 0 where
  pub host : Text
  pub port : ℕ

abbrev pub is_quote : ℕ → Bool
is_quote c = c == b'"' || c == b'\''

-- `permitopen_start`
pub leading_quotes : Text → ℕ
leading_quotes [] = 0
leading_quotes (c ∷ s) = let more = suc (leading_quotes s) in if is_quote c then more else 0

-- `permitopen_end`: `none` where the loop goes below the start of the input.
pub trimmed_end : Text → Option ℕ
trimmed_end [] = none
trimmed_end (c ∷ s) = elim (trimmed_end s) [
  | some n ↦ some (suc n)
  | none ↦ if is_quote c then none else some 1
]

abbrev pub is_separator : ℕ → Bool
is_separator c = c == b':' || c == b','

-- The marking loop over the next `n` bytes: the new bytes, and `sep_count`.
pub terminate : ℕ → List ℕ → List ℕ
terminate zero s = s
terminate (suc n) [] = []
terminate (suc n) (c ∷ s) = (if is_separator c then 0 else c) ∷ terminate n s

pub sep_count : ℕ → List ℕ → ℕ
sep_count zero s = 0
sep_count (suc n) [] = 0
sep_count (suc n) (c ∷ s) = (if c == b':' then 1 else 0) + sep_count n s

-- `long` has 64 bits.
abbrev pub long_max : ℕ
long_max = 2 ^ 63 - 1

abbrev pub is_digit : ℕ → Bool
is_digit c = leb b'0' c && leb c b'9'

abbrev pub is_space : ℕ → Bool
is_space c = c == b' ' || (leb 9 c && leb c 13)

unfoldable pub skip_spaces : Text → Text
skip_spaces [] = []
skip_spaces (c ∷ s) = if is_space c then skip_spaces s else c ∷ s

-- The digits read so far as a number, and the text behind them.
unfoldable pub read_digits : ℕ → Text → ℕ × Text
read_digits acc [] = (acc, [])
read_digits acc (c ∷ s) =
    let more = read_digits (acc * 10 + (c - b'0')) s in if is_digit c then more else (acc, c ∷ s)

abbrev pub starts_digit : Text → Bool
starts_digit [] = false
starts_digit (c ∷ _) = is_digit c

-- `strtol(s, &end, 10)` where it makes a conversion, stops at the NUL and is in range, cast to
-- `uint16_t`; the flag is the sign.
unfoldable pub convert : Bool → Text → Option ℕ
convert negative s = if not (starts_digit s) then none else elim (read_digits 0 s).1 [
  | _ ∷ _ ↦ none
  | [] ↦
      let n = (read_digits 0 s).0 in
      if negative
      then (if ltb (2 ^ 63) n then none else some ((2 ^ 64 - n) % 2 ^ 16))
      else (if ltb long_max n then none else some (n % 2 ^ 16))
]

unfoldable pub signed : Text → Option ℕ
unfolding convert
signed [] = none
signed (c ∷ s) =
    if c == b'-'
    then convert true s
    else if c == b'+'
    then convert false s
    else convert false (c ∷ s)

-- The port of one pair; the flag says that `errno` was ERANGE before the call.
unfoldable pub read_port : Bool → Text → Option ℕ
unfolding signed skip_spaces
read_port stale [] = none
read_port stale (c ∷ s) =
    if c == b'*'
    then elim s [ [] ↦ some 0 | _ ∷ _ ↦ none ]
    else if stale
    then none
    else signed (skip_spaces (c ∷ s))

abbrev pub or_error {ℓ} : {A : Type ℓ} → Option A → Outcome A
or_error none = error
or_error (some a) = ok a

-- The loop over `sep_count` pairs, from a pointer into the buffer.
unfoldable pub read_entries : Bool → ℕ → List ℕ → Outcome (List Entry)
unfolding read_port c_str
read_entries stale zero s = ok []
read_entries stale (suc n) s = do
  h ← c_str s
  p ← c_str h.1
  port ← or_error (read_port stale p.0)
  es ← read_entries stale n p.1
  ok (record { host = h.0; port = port } ∷ es)

-- What `malloc` and `errno` are at the call.
pub record Env : Type 0 where
  pub hosts_allocated : Bool
  pub ports_allocated : Bool
  pub errno_is_erange : Bool

-- A null `permitopen_ports` is not tested, and is written to by the first pair.
unfoldable pub read_allocated : Env → ℕ → List ℕ → Outcome (List Entry)
unfolding read_entries
read_allocated env zero s = if env.hosts_allocated then ok [] else error
read_allocated env (suc n) s =
    if not env.hosts_allocated
    then error
    else if env.ports_allocated
    then read_entries env.errno_is_erange (suc n) s
    else fault

unfoldable pub parse_permitopen : Env → Text → Outcome (List Entry)
unfolding leading_quotes trimmed_end terminate sep_count read_allocated
parse_permitopen env input = elim (trimmed_end input) [
  | none ↦ fault
  | some end ↦
      let start = leading_quotes input in
      let s = drop start (input ++ 0 ∷ []) in
      read_allocated env (sep_count (end - start) s) (terminate (end - start) s)
]

-- `permitopen_hosts[i][0] == '*' && strlen(permitopen_hosts[i]) == 1`
abbrev pub is_star : Text → Bool
is_star [] = false
is_star (c ∷ s) = c == b'*' && length (c ∷ s) == 1

unfoldable pub should_permitopen : List Entry → Text → ℕ → Bool
should_permitopen [] host port = false
should_permitopen (e ∷ es) host port =
    if (e.port == 0 || e.port == port) && (is_star e.host || str_eq e.host host)
    then true
    else should_permitopen es host port
