-- ===== src/AuthorizedKeys.antt =====
-- packages/c/sshnpd/src/file_utils.c, and its caller handle_sshpublickey.c: a public key is added to
-- the file of authorized keys. What the C library answers on the file is a record; the file is its
-- bytes, and no read of it fails.
pub mod Added
pub mod Kept
pub mod Tests
use zettahealthonramp.Base.{
  ℕ, Bool, true, false, not, ◌||◌, List, [], ◌∷◌, ◌++◌, ◌==◌, if◌then◌else◌, is_some, Text, take,
  ◌>>=◌, Outcome, ok, fault,
}
use zettahealthonramp.Code.{is_zero, success, failure, ℤ, negsuc}
use zettahealthonramp.Daemon.{strstr}
use zettahealthonramp.SshPublicKey.{is_valid_prefix}

pub record FileAnswers : Type 0 where
  pub reopens : Bool
  pub seek_start : ℤ
  pub buffer_allocated : Bool
  pub seek_end : ℤ
  pub prints : Bool
  pub print_error : ℕ
  pub flush : ℤ
  -- How much of an entry stands in the file if printing or flushing it fails.
  pub kept : ℕ

abbrev pub last_line : Text → List Text
last_line [] = []
last_line (a ∷ acc) = (a ∷ acc) ∷ []

-- What `getline` returns, call by call, with the bytes of the line so far.
unfoldable pub lines : Text → Text → List Text
lines acc [] = last_line acc
lines acc (c ∷ s) =
    let ended = (acc ++ c ∷ []) ∷ lines [] s in
    let longer = lines (acc ++ c ∷ []) s in if c == b'\n' then ended else longer

-- What a function on strings reads of a buffer.
unfoldable pub until_nul : Text → Text
until_nul [] = []
until_nul (c ∷ s) = let rest = until_nul s in if c == 0 then [] else c ∷ rest

unfoldable pub some_line : Text → List Text → Bool
unfolding until_nul
some_line key [] = false
some_line key (line ∷ rest) = is_some (strstr key (until_nul line)) || some_line key rest

-- Whether `key[strlen(key) - 1]` is a newline; for an empty key the byte in front of it is read.
unfoldable pub ends_line : Text → Outcome Bool
ends_line [] = fault
ends_line (c ∷ []) = ok (c == b'\n')
ends_line (c ∷ d ∷ s) = ends_line (d ∷ s)

abbrev pub postfix : Bool → Text
postfix true = []
postfix false = b'\n' ∷ []

abbrev pub entry : Text → Text → Bool → Text
entry [] key newline = key ++ postfix newline
entry (p ∷ permissions) key newline = (p ∷ permissions) ++ b' ' ∷ (key ++ postfix newline)

-- The code, and the file.
unfoldable pub append_entry : FileAnswers → Text → Text → Outcome (ℤ × Text)
append_entry w contents text =
    if not w.prints
    then ok (negsuc w.print_error, contents ++ take w.kept text)
    else if is_zero w.flush
    then ok (success, contents ++ text)
    else ok (w.flush, contents ++ take w.kept text)

-- A null stream is unlocked where the file cannot be reopened.
unfoldable pub authorize_ssh_public_key : FileAnswers → Text → Text → Text → Outcome (ℤ × Text)
unfolding some_line ends_line append_entry lines
authorize_ssh_public_key w contents permissions key =
    if not w.reopens
    then fault
    else if not (is_zero w.seek_start)
    then ok (w.seek_start, contents)
    else if not w.buffer_allocated
    then ok (failure, contents)
    else if some_line key (lines [] contents)
    then ok (success, contents)
    else if not (is_zero w.seek_end)
    then ok (w.seek_end, contents)
    else ends_line key >>= λ newline. append_entry w contents (entry permissions key newline)

-- The handler answers nothing; the file is what is left.
unfoldable pub handle_sshpublickey : FileAnswers → Bool → Text → Text → Outcome Text
handle_sshpublickey w sshpublickey contents ssh_key =
    if not sshpublickey
    then ok contents
    else if not (is_valid_prefix ssh_key)
    then ok contents
    else authorize_ssh_public_key w contents [] ssh_key >>= λ r. ok r.1
