-- ===== src/Tests.antt =====
-- Runs of the models on concrete inputs, and the theorems at such inputs.
use zettahealthonramp.Base.{
  String, ℕ, ◌≡◌, refl, ◌≢◌, ◌↔◌, true, false, none, some, List, [], ◌∷◌, ◌++◌, map, arith, codes,
  All, Any, Lacks, c_str, ok, error, fault,
}
use zettahealthonramp.SshPublicKey.{is_valid_prefix, is_valid_prefix_iff}
use zettahealthonramp.PermitOpen.{
  skip_spaces, read_digits, convert, signed, read_port, read_entries, read_allocated,
  parse_permitopen, should_permitopen, Entry,
}
use zettahealthonramp.PermitOpen.Buffer.{
  entry, IsHostByte, IsPair, PortSpec, Pair, any_port, number,
}
use zettahealthonramp.PermitOpen.RoundTrip.{ready, print_list, parse_permitopen-print_list}
use zettahealthonramp.PermitOpen.Access.{Allows, permit_list, wrapped_port_is_wildcard}
use zettahealthonramp.Control.Fuel.{process_multiple_requests_ends}
use zettahealthonramp.Control.{collect, process_multiple_requests, parse_control_message, Message}
use zettahealthonramp.Control.Tokens.{
  Splits, process_multiple_requests-Splits, print_lines, always,
  process_multiple_requests-print_lines,
}
use zettahealthonramp.Control.Messages.{
  print_message, parse_control_message-print_message, IsMessage,
}
use zettahealthonramp.Params.{
  parse_managers, lower, parse_algorithm, permit_text, manager_items, require, required,
  parse_sshnpd_params, Options, Allocation, SshnpdParams, ed25519,
}
use zettahealthonramp.Params.Managers.{
  IsAtsign, print_managers, parse_managers-print_managers, parse_managers_trailing_comma,
}

abbrev entry_of : String → ℕ → Entry
entry_of h n = record { host = codes h; port = n }

parse_default :
    parse_permitopen ready (codes "localhost:22,localhost:3389")
    ≡ ok (entry_of "localhost" 22 ∷ entry_of "localhost" 3389 ∷ [])
unfolding parse_permitopen read_allocated read_entries read_port convert signed skip_spaces
    read_digits c_str
parse_default = refl

parse_refused :
    (parse_permitopen ready (codes "localhost:22x") ≡ error)
    × (parse_permitopen ready (codes "localhost:") ≡ error)
    × (parse_permitopen ready (codes "") ≡ fault)
unfolding parse_permitopen read_allocated read_entries read_port convert signed skip_spaces
    read_digits c_str
parse_refused = (refl, refl, refl)

parse_negative : parse_permitopen ready (codes "a:-1") ≡ ok (entry_of "a" 65535 ∷ [])
unfolding parse_permitopen read_allocated read_entries read_port convert signed skip_spaces
    read_digits c_str
parse_negative = refl

abbrev pair_of : String → PortSpec → Pair
pair_of h s = record { name = codes h; spec = s }

abbrev ssh_pair : Pair
ssh_pair = pair_of "localhost" (number 22)

abbrev star_pair : Pair
star_pair = pair_of "*" any_port

localhost_host : All IsHostByte (codes "localhost")
localhost_host = (refl, (refl, (refl, (refl, (refl, (refl, (refl, (refl, (refl, tt)))))))))

ssh_pair-IsPair : IsPair ssh_pair
ssh_pair-IsPair = (localhost_host, omega arith)

star_pair-IsPair : IsPair star_pair
star_pair-IsPair = ((refl, tt), tt)

permit_list_example :
    (es : List Entry) × (parse_permitopen ready (print_list (ssh_pair ∷ []) star_pair) ≡ ok es)
    × ((should_permitopen es (codes "localhost") 22 ≡ true)
        ↔ Any (Allows (codes "localhost") 22) (ssh_pair ∷ star_pair ∷ []))
permit_list_example =
    permit_list (ssh_pair ∷ []) star_pair (codes "localhost") 22 (ssh_pair-IsPair, tt)
      star_pair-IsPair (omega arith, (tt, tt))

parse_permitopen-print_list_example :
    parse_permitopen ready (b'"' ∷ [] ++ print_list (ssh_pair ∷ []) star_pair)
    ≡ ok (map entry (ssh_pair ∷ star_pair ∷ []))
parse_permitopen-print_list_example =
    parse_permitopen-print_list (b'"' ∷ []) (ssh_pair ∷ []) star_pair (refl, tt)
      (ssh_pair-IsPair, tt) star_pair-IsPair

wrapped_port_is_wildcard_example :
    (es : List Entry) × (parse_permitopen ready (print_list [] (pair_of "localhost" (number 65536)))
      ≡ ok es)
    × (should_permitopen es (codes "localhost") 25 ≡ true)
wrapped_port_is_wildcard_example =
    wrapped_port_is_wildcard [] (codes "localhost") 65536 25 tt localhost_host (omega arith) refl

abbrev connect : Message
connect = record { message_type = codes "connect"; aes_key = codes "k1"; aes_iv = codes "v1" }

connect-IsMessage : IsMessage connect
connect-IsMessage = record {
  type_is_token = (cc, omega arith);
  key_is_token = (cc, omega arith);
  iv_is_token = (cc, omega arith);
  starts_solid = refl;
}

process_multiple_requests-Splits_example :
    Splits always 0 b'\n' (codes "a\n\nb") (process_multiple_requests always (codes "a\n\nb"))
process_multiple_requests-Splits_example = process_multiple_requests-Splits always (codes "a\n\nb")

process_multiple_requests-print_lines_example :
    process_multiple_requests always (print_lines (codes "a" ∷ codes "bc" ∷ []))
    ≡ ok (codes "a" ∷ codes "bc" ∷ [])
process_multiple_requests-print_lines_example =
    process_multiple_requests-print_lines (codes "a" ∷ codes "bc" ∷ [])
      ((cc, omega arith), ((cc, omega arith), tt))

parse_control_message-print_message_example :
    parse_control_message (b' ' ∷ [] ++ print_message connect) ≡ ok connect
parse_control_message-print_message_example =
    parse_control_message-print_message (b' ' ∷ []) connect (refl, tt) connect-IsMessage refl

-- One atSign and a comma leave no manager at all.
no_manager_left : parse_managers (codes "@a,") ≡ some []
unfolding parse_managers
no_manager_left = refl

abbrev pub options : Options
options = record {
  atsign = some (codes "@dev");
  manager = some (codes "@a,@b");
  policy = none;
  device = codes "Pi4";
  permitopen = some (codes "*:22");
  ssh_algorithm = ed25519;
  ssh_algorithm_input = [];
}

abbrev pub allocation : Allocation
allocation = record { permitopen_str = true; manager_list = true; permitopen_env = ready }

abbrev pub parsed : SshnpdParams
parsed = record {
  atsign = codes "@dev";
  device = codes "pi4";
  managers = codes "@a" ∷ codes "@b" ∷ [];
  permits = entry_of "*" 22 ∷ [];
  ssh_algorithm = ed25519;
}

pub parse_options : parse_sshnpd_params allocation options ≡ ok parsed
unfolding parse_sshnpd_params required require permit_text parse_permitopen read_allocated
    read_entries read_port convert signed skip_spaces read_digits c_str parse_algorithm
    manager_items parse_managers lower
parse_options = refl

atsigns-IsAtsign : All IsAtsign (codes "@b" ∷ codes "@c" ∷ [])
atsigns-IsAtsign =
    ((refl, (omega arith, (omega arith, tt))), ((refl, (omega arith, (omega arith, tt))), tt))

first-Lacks : Lacks b',' (codes "@a")
first-Lacks = (omega arith, (omega arith, tt))

parse_managers-print_managers_example :
    parse_managers (print_managers (codes "@a") (codes "@b" ∷ codes "@c" ∷ []) false)
    ≡ some (codes "@a" ∷ codes "@b" ∷ codes "@c" ∷ [])
parse_managers-print_managers_example =
    parse_managers-print_managers (codes "@a") (codes "@b" ∷ codes "@c" ∷ []) first-Lacks
      atsigns-IsAtsign

parse_managers_trailing_comma_example :
    parse_managers (print_managers (codes "@a") (codes "@b" ∷ codes "@c" ∷ []) true)
    ≡ some (codes "@a" ∷ codes "@b" ∷ [])
parse_managers_trailing_comma_example =
    parse_managers_trailing_comma (codes "@a") (codes "@b" ∷ []) (codes "@c") first-Lacks
      atsigns-IsAtsign

is_valid_prefix_iff_example :
    (is_valid_prefix (codes "not a key") ≡ true) ↔ (codes "not a key" ≢ [])
is_valid_prefix_iff_example = is_valid_prefix_iff (codes "not a key")

process_multiple_requests_ends_example :
    collect always 0 100 (codes "a" ++ b'\n' ∷ codes "b")
    ≡ process_multiple_requests always (codes "a" ++ b'\n' ∷ codes "b")
process_multiple_requests_ends_example =
    process_multiple_requests_ends always (codes "a" ++ b'\n' ∷ codes "b") 100 (omega arith)
