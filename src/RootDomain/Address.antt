-- ===== src/RootDomain/Address.antt =====
-- packages/c/sshnpd/src/main.c: which host and port a root domain comes to.
use zettahealthonramp.Base.{
  ℕ, ◌%◌, ◌^◌, ◌<◌, ◌≡◌, refl, ap, ap₂, ◌∙◌, inl, inr, true, false, ◌||◌, none, some, [], ◌∷◌, ◌++◌,
  arith, leb, ◌==◌, if◌then◌else◌, Bool-cases, Text, length, take, take-all, Lacks, ok, error,
}
use zettahealthonramp.PermitOpen.{skip_spaces, starts_digit}
use zettahealthonramp.PermitOpen.Decimal.{decimal, read_digits-decimal, starts_digit-decimal}
use zettahealthonramp.DeviceInfo.{snprintf}
use zettahealthonramp.RootDomain.{
  strchr_colon, int_digits, signed_int, atoi, default_root_port, with_port, at_colon, root_address,
}

strchr_colon-append :
    (host rest : Text) → Lacks b':' host → strchr_colon (host ++ b':' ∷ rest) ≡ some (host, rest)
unfolding strchr_colon
strchr_colon-append [] rest h = refl
strchr_colon-append (c ∷ host) rest (hc, hh) = ground (arith, strchr_colon-append host rest hh)

strchr_colon-Lacks : (host : Text) → Lacks b':' host → strchr_colon host ≡ none
unfolding strchr_colon
strchr_colon-Lacks [] h = refl
strchr_colon-Lacks (c ∷ host) (hc, hh) = ground (arith, strchr_colon-Lacks host hh)

atoi-int_digits : (s : Text) → starts_digit s ≡ true → atoi s ≡ int_digits false s
unfolding atoi signed_int skip_spaces
atoi-int_digits [] d = cc
atoi-int_digits (c ∷ s) d = ground arith

int_digits-decimal : (n : ℕ) → n < 2 ^ 31 → int_digits false (decimal n) ≡ some (n % 2 ^ 16)
unfolding int_digits
int_digits-decimal n h = rw (read_digits-decimal n) (ground arith)

atoi-decimal : (n : ℕ) → n < 2 ^ 31 → atoi (decimal n) ≡ some (n % 2 ^ 16)
atoi-decimal n h = atoi-int_digits (decimal n) (starts_digit-decimal n) ∙ int_digits-decimal n h

module _ (host : Text) (no_colon : Lacks b':' host) where
  root_address-at_colon :
      (rest : Text)
      → root_address (some (host ++ b':' ∷ rest))
        ≡ at_colon (host ++ b':' ∷ rest) (some (host, rest))
  unfolding root_address
  root_address-at_colon rest =
      ap (at_colon (host ++ b':' ∷ rest)) (strchr_colon-append host rest no_colon)

  snprintf-short : length host < 253 → snprintf 254 host ≡ host
  unfolding snprintf
  snprintf-short short = take-all 253 host (omega arith)

  root_address-with_port :
      (n : ℕ)
      → n < 2 ^ 31
      → leb 253 (length host) ≡ false
      → root_address (some (host ++ b':' ∷ decimal n)) ≡ with_port host (some (n % 2 ^ 16))
  root_address-with_port n small short =
      root_address-at_colon (decimal n)
      ∙ ap (λ b. if b then error else with_port (snprintf 254 host) (atoi (decimal n))) short
      ∙ ap₂ with_port (snprintf-short (ground (arith, short))) (atoi-decimal n small)

  root_address_long :
      (n : ℕ)
      → leb 253 (length host) ≡ true
      → root_address (some (host ++ b':' ∷ decimal n)) ≡ error
  root_address_long n long =
      root_address-at_colon (decimal n)
      ∙ ap (λ b. if b then error else with_port (snprintf 254 host) (atoi (decimal n))) long

  root_address_without_port : root_address (some host) ≡ ok (take 253 host, default_root_port)
  unfolding root_address snprintf
  root_address_without_port = ap (at_colon host) (strchr_colon-Lacks host no_colon)

  -- For a host that has no colon: with a colon and a number below 2^31 behind it, the root domain comes
  -- to the host and to the number modulo 2^16, and is refused if that is 0 or if the host has 253 bytes
  -- or more. With nothing behind it, it comes to the first 253 bytes of the host and to port 64.
  pub root_address_lem :
      (n : ℕ)
      → n < 2 ^ 31
      → (root_address (some (host ++ b':' ∷ decimal n))
          ≡ (if leb 253 (length host) || n % 2 ^ 16 == 0 then error else ok (host, n % 2 ^ 16)))
        × (root_address (some host) ≡ ok (take 253 host, 64))
  root_address_lem n small = (
    elim (Bool-cases (leb 253 (length host))) [
      | inl long ↦ rw long (root_address_long n long)
      | inr short ↦ rw short (root_address-with_port n small short)
    ],
    root_address_without_port,
  )
