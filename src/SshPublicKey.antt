-- ===== src/SshPublicKey.antt =====
-- packages/c/sshnpd/src/handle_sshpublickey.c: the test on the prefix of a public key.
use zettahealthonramp.Base.{
  ℕ, ◌≡◌, refl, ◌≢◌, ◌↔◌, inl, inr, Bool, true, false, List, [], ◌∷◌, arith, ltb, ◌==◌,
  if◌then◌else◌, Bool-cases, Text, codes, length, strncmp,
}

abbrev pub supported_key_prefixes : List Text
supported_key_prefixes =
    codes "ecdsa-sha2-nistp" ∷ codes "rsa-sha2-" ∷ codes "ssh-rsa" ∷ codes "ssh-ed25519" ∷ []

-- The loop over the prefixes; `prefix_len` is the length of the key itself.
unfoldable pub some_prefix : Text → List Text → Bool
some_prefix ssh_key [] = false
some_prefix ssh_key (prefix ∷ rest) =
    let prefix_len = length ssh_key in
    let later = some_prefix ssh_key rest in
    if ltb prefix_len (length ssh_key)
    then later
    else if strncmp prefix_len ssh_key prefix
    then true
    else later

unfoldable pub is_valid_prefix : Text → Bool
is_valid_prefix ssh_key = some_prefix ssh_key supported_key_prefixes

first_differs :
    (c d : ℕ) (s p : Text) (rest : List Text) → c ≢ d → some_prefix (c ∷ s) ((d ∷ p) ∷ rest) ≡ true
unfolding some_prefix strncmp
first_differs c d s p rest h = ground arith

first_skipped :
    (s p : Text) (rest : List Text) → some_prefix s rest ≡ true → some_prefix s (p ∷ rest) ≡ true
unfolding some_prefix
first_skipped s p rest h = ground arith

some_key_valid : (c : ℕ) (s : Text) → is_valid_prefix (c ∷ s) ≡ true
unfolding is_valid_prefix
some_key_valid c s = elim (Bool-cases (c == b'e')) [
  | inl e ↦
      first_skipped (c ∷ s) (codes "ecdsa-sha2-nistp") _
        (first_differs c b'r' s (codes "sa-sha2-") _ (ground arith))
  | inr differs ↦ first_differs c b'e' s (codes "cdsa-sha2-nistp") _ (ground arith)
]

no_key_refused : is_valid_prefix [] ≡ false
unfolding is_valid_prefix some_prefix strncmp
no_key_refused = refl

-- Every key but the empty one passes the test on its prefix, whatever it begins with.
pub is_valid_prefix_iff : (ssh_key : Text) → (is_valid_prefix ssh_key ≡ true) ↔ (ssh_key ≢ [])
is_valid_prefix_iff [] = ground (arith, no_key_refused)
is_valid_prefix_iff (c ∷ s) = ground (arith, some_key_valid c s)
