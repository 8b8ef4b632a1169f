-- ===== src/Composition/KeyFile.antt =====
-- packages/c/sshnpd/src/daemon.c with handle_sshpublickey.c and file_utils.c: the file of authorized keys
-- while the main loop runs.
pub mod Grown
pub mod Tests
use zettahealthonramp.Base.{
  ◌≡◌, refl, sym, ap, ◌∙◌, ◌⊎◌, inl, inr, Bool, true, false, ◌||◌, Option, none, some, List, [],
  ◌∷◌, ◌++◌, append-nil, append_assoc, arith, if◌then◌else◌, Bool-cases, Text, Any, ◌>>=◌, Outcome,
  ok, error, fault,
}
use zettahealthonramp.Code.{ℤ}
use zettahealthonramp.SshPublicKey.{is_valid_prefix}
use zettahealthonramp.AuthorizedKeys.{authorize_ssh_public_key, handle_sshpublickey, FileAnswers}
use zettahealthonramp.AuthorizedKeys.Kept.{authorize_ssh_public_key-Authorises}
use zettahealthonramp.Daemon.{
  round, Action, Config, State, nk_sshpublickey, nk_none, nk_ping, nk_ssh_request, nk_npt_request,
  notification, sends_device_info, reads, reconnects, handles, Notification as Received,
}
use zettahealthonramp.Composition.Loop.{answers, crashes, Turn}
use zettahealthonramp.Composition.Loop.Served.{round-Dispatches, Dispatches, Handles}

-- A round of the loop, and what the C library answers on the file in it.
pub record FileTurn : Type 1 where
  pub turn : Turn
  pub file : FileAnswers

-- The handler reads the value of the notification; a null pointer is followed.
abbrev pub add_key : Bool → FileTurn → Option Text → Text → Outcome Text
add_key on t none contents = if on then fault else ok contents
add_key on t (some key) contents = handle_sshpublickey t.file on contents key

-- What the actions of a round make of the file.
unfoldable pub actions_file : Bool → FileTurn → List Action → Text → Outcome Text
actions_file on t [] contents = ok contents
actions_file on t (handles nk_sshpublickey ∷ l) contents =
    add_key on t t.turn.decrypted_value contents >>= actions_file on t l
actions_file on t (_ ∷ l) contents = actions_file on t l contents

-- What the loop makes of it, until it is left.
unfoldable pub daemon_file : Config → Text → Bool → State → List FileTurn → Text → Outcome Text
daemon_file c ping_response on s [] contents = ok contents
daemon_file c ping_response on s (t ∷ ts) contents =
    let after = round c s (answers c ping_response t.turn) in
    let later = daemon_file c ping_response on after.0 ts in
    let left = after.0.is_child_process || crashes c ping_response t.turn after.1 in
    actions_file on t after.1 contents >>= λ file. if left then ok file else later file
