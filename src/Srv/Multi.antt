-- ===== src/Srv/Multi.antt =====
-- packages/c/srv/src/srv.c: run_srv_daemon_side_multi, from its parameters on.
use zettahealthonramp.Base.{
  ◌+◌, Bool, true, false, not, ◌&&◌, Option, none, some, List, [], ◌==◌, if◌then◌else◌, Text,
  length, Outcome, ok, error, fault,
}
use zettahealthonramp.Code.{is_zero, minus_one, ℤ, pos, negsuc}
use zettahealthonramp.SrvParams.{SrvParams}
use zettahealthonramp.Srv.{
  create_encrypter_and_decrypter, side_transformer, control_loop, Crypto, Cipher, Ending, Round,
  exits, overruns,
}

abbrev pub int_eq : ℤ → ℤ → Bool
int_eq (pos a) (pos b) = a == b
int_eq (pos a) (negsuc b) = false
int_eq (negsuc a) (pos b) = false
int_eq (negsuc a) (negsuc b) = a == b

-- What the two sends of an auth string add up to, against its length and the newline.
unfoldable pub auth_complete : Bool → Option Text → ℤ → Outcome Bool
auth_complete false auth sent = ok true
auth_complete true none sent = fault
auth_complete true (some s) sent = ok (int_eq sent (pos (length s + 1)))

-- The key is decoded and set before the iv is looked at.
unfoldable pub key_is_set : Crypto → Text → Bool
key_is_set C key =
    is_zero (C.base64_decode key)
    && length (C.base64_decoded key) == 32
    && is_zero (C.setkey_enc (C.base64_decoded key))

-- A null string is followed where it is decoded.
unfoldable pub session_cipher : Crypto → SrvParams → Outcome (Option Cipher)
session_cipher C p = if not p.rv_e2ee then ok none else elim p.session_aes_key_string [
  | none ↦ fault
  | some key ↦ elim p.session_aes_iv_string [
    | none ↦ fault
    | some iv ↦ ok (create_encrypter_and_decrypter C key iv).1
  ]
]

-- What the control side of the multi-session mode meets.
pub record Session : Type 0 where
  pub connected : ℤ
  pub auth_sent : ℤ
  pub buffer_allocated : Bool
  pub rounds : List Round
  pub last : ℤ

abbrev pub open_control :
    Crypto → SrvParams → Session → Option Cipher → Outcome Bool → List (Option Cipher) × Ending
open_control C p a c (ok true) =
    if not a.buffer_allocated
    then ([], exits minus_one)
    else control_loop C (side_transformer p.rv_e2ee c) a.rounds a.last
open_control C p a c (ok false) = ([], exits minus_one)
open_control C p a c error = ([], overruns)
open_control C p a c fault = ([], overruns)

abbrev pub with_cipher :
    Crypto → SrvParams → Session → Outcome (Option Cipher) → List (Option Cipher) × Ending
with_cipher C p a (ok c) =
    if not (is_zero a.connected)
    then ([], exits a.connected)
    else open_control C p a c (auth_complete p.rv_auth p.rvd_auth_string a.auth_sent)
with_cipher C p a error = ([], overruns)
with_cipher C p a fault = ([], overruns)

-- The threads that were started, and the end. The code of the ciphers is logged and not acted on.
unfoldable pub run_srv_daemon_side_multi :
    Crypto → SrvParams → Session → List (Option Cipher) × Ending
unfolding session_cipher key_is_set auth_complete side_transformer
run_srv_daemon_side_multi C p a = with_cipher C p a (session_cipher C p)
