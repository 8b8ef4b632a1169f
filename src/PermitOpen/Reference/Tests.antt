-- ===== src/PermitOpen/Reference/Tests.antt =====
-- Runs of packages/c/sshnpd/src/permitopen.c and of its reference, and the theorem at such an input.
use zettahealthonramp.Base.{◌≡◌, refl, [], ◌∷◌, arith, Text, codes, ok}
use zettahealthonramp.PermitOpen.{
  skip_spaces, read_digits, convert, signed, read_port, parse_permitopen,
}
use zettahealthonramp.PermitOpen.Buffer.{colons}
use zettahealthonramp.PermitOpen.RoundTrip.{ready}
use zettahealthonramp.PermitOpen.Reference.{fields, pairs, unquoted, split_permitopen}
use zettahealthonramp.PermitOpen.Reference.Agrees.{parse_permitopen-split_permitopen}

abbrev two_pairs : Text
two_pairs = codes "\"localhost:22,*:*"

split_runs :
    split_permitopen ready two_pairs
    ≡ ok (
        record { host = codes "localhost"; port = 22 } ∷ record { host = codes "*"; port = 0 } ∷ [])
unfolding split_permitopen unquoted fields pairs colons read_port signed convert read_digits
    skip_spaces
split_runs = refl

parse_permitopen-split_permitopen_example :
    parse_permitopen ready two_pairs ≡ split_permitopen ready two_pairs
parse_permitopen-split_permitopen_example =
    parse_permitopen-split_permitopen ready two_pairs (ground arith)
