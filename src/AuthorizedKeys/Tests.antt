-- ===== src/AuthorizedKeys/Tests.antt =====
-- Runs of packages/c/sshnpd/src/file_utils.c and handle_sshpublickey.c, and the theorems at such inputs.
use zettahealthonramp.Base.{
  ◌≡◌, refl, ◌⊎◌, true, false, [], ◌∷◌, ◌++◌, arith, Text, codes, strncmp, ok, fault,
}
use zettahealthonramp.Code.{is_zero, success}
use zettahealthonramp.Daemon.{strip, strstr}
use zettahealthonramp.SshPublicKey.{some_prefix, is_valid_prefix}
use zettahealthonramp.AuthorizedKeys.{
  lines, until_nul, some_line, ends_line, append_entry, authorize_ssh_public_key,
  handle_sshpublickey, FileAnswers,
}
use zettahealthonramp.AuthorizedKeys.Added.{Within}
use zettahealthonramp.AuthorizedKeys.Kept.{
  authorize_ssh_public_key-Authorises, authorize_ssh_public_key_twice,
}

abbrev pub file_answers : FileAnswers
file_answers = record {
  reopens = true;
  seek_start = success;
  buffer_allocated = true;
  seek_end = success;
  prints = true;
  print_error = 0;
  flush = success;
  kept = 0;
}

abbrev pub one_key : Text
one_key = codes "ssh-rsa A" ++ b'\n' ∷ []

abbrev two_keys : Text
two_keys = one_key ++ codes "no-pty ssh-rsa B" ++ b'\n' ∷ []

key_added :
    authorize_ssh_public_key file_answers one_key (codes "no-pty") (codes "ssh-rsa B")
    ≡ ok (success, two_keys)
unfolding authorize_ssh_public_key append_entry ends_line some_line lines until_nul strstr strip
key_added = refl

-- A file whose last line has no newline: the key is put on that line.
key_joined :
    handle_sshpublickey file_answers true (codes "ssh-rsa A") (codes "ssh-rsa B")
    ≡ ok (codes "ssh-rsa Assh-rsa B" ++ b'\n' ∷ [])
unfolding handle_sshpublickey authorize_ssh_public_key append_entry ends_line some_line lines
    until_nul strstr strip is_valid_prefix some_prefix strncmp
key_joined = refl

-- A file that cannot be reopened: the null stream is unlocked.
key_crashes :
    handle_sshpublickey (record file_answers { reopens = false }) true one_key (codes "ssh-rsa B")
    ≡ fault
unfolding handle_sshpublickey authorize_ssh_public_key is_valid_prefix some_prefix strncmp
key_crashes = refl

authorize_ssh_public_key-Authorises_example :
    ((rest : Text) × (two_keys ≡ one_key ++ rest))
    × ((is_zero success ≡ false) ⊎ Within (codes "ssh-rsa B") two_keys)
authorize_ssh_public_key-Authorises_example =
    authorize_ssh_public_key-Authorises file_answers one_key (codes "no-pty") (codes "ssh-rsa B")
      two_keys success key_added

authorize_ssh_public_key_twice_example :
    authorize_ssh_public_key file_answers two_keys [] (codes "ssh-rsa B") ≡ ok (success, two_keys)
authorize_ssh_public_key_twice_example =
    authorize_ssh_public_key_twice file_answers file_answers one_key (codes "no-pty") [] b's'
      (codes "sh-rsa B") two_keys (ground arith) (ground arith, ground arith)
      (ground arith, ground arith) key_added refl refl refl
