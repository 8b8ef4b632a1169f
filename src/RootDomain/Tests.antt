-- ===== src/RootDomain/Tests.antt =====
-- Runs of packages/c/sshnpd/src/main.c on root domains, and the theorem at such an input.
use zettahealthonramp.Base.{
  ◌%◌, ◌^◌, ◌≡◌, refl, ◌||◌, some, ◌∷◌, ◌++◌, arith, leb, ◌==◌, if◌then◌else◌, codes, take, ok,
  error,
}
use zettahealthonramp.PermitOpen.{skip_spaces, read_digits}
use zettahealthonramp.PermitOpen.Decimal.{decimal}
use zettahealthonramp.DeviceInfo.{snprintf}
use zettahealthonramp.RootDomain.{strchr_colon, int_digits, signed_int, atoi, root_address}
use zettahealthonramp.RootDomain.Address.{root_address_lem}

root_with_port : root_address (some (codes "root.atsign.wtf:64")) ≡ ok (codes "root.atsign.wtf", 64)
unfolding root_address strchr_colon atoi signed_int int_digits skip_spaces read_digits snprintf
root_with_port = refl

-- A port is cut to 16 bits, and what stands behind it is not read.
root_cut : root_address (some (codes "root:65600x")) ≡ ok (codes "root", 64)
unfolding root_address strchr_colon atoi signed_int int_digits skip_spaces read_digits snprintf
root_cut = refl

root_address_lem_example :
    (root_address (some (codes "root" ++ b':' ∷ decimal 65600))
      ≡ (if leb 253 4 || 65600 % 2 ^ 16 == 0 then error else ok (codes "root", 65600 % 2 ^ 16)))
    × (root_address (some (codes "root")) ≡ ok (take 253 (codes "root"), 64))
root_address_lem_example = root_address_lem (codes "root") (ground arith) 65600 (omega arith)
