-- ===== src/Handler/Tests.antt =====
-- Runs of the request handlers of packages/c/sshnpd/src, and the theorems at such inputs.
use zettahealthonramp.Base.{
  ◌+◌, ◌≡◌, refl, ◌↔◌, true, false, Option, none, some, [], ◌∷◌, if◌then◌else◌, Text, codes, str_eq,
  strncmp,
}
use zettahealthonramp.Code.{success, failure}
use zettahealthonramp.PermitOpen.{should_permitopen}
use zettahealthonramp.SrvParams.{apply_default_values_to_srv_params, SrvParams}
use zettahealthonramp.Handler.World.{
  log, value, resource_number, hits, allocs, frees, World, envelope, rvd_auth_string, notifies,
  child, parent, still_running, failed, got,
}
use zettahealthonramp.Handler.Envelope.{
  item, verify_payload_contents, verify_envelope_contents, parse_envelope,
  extract_envelope_from_notification, verify_envelope_signature, verify_decoded, verify_with_key,
  verify_envelope_signature_from, payload_type_ssh,
}
use zettahealthonramp.Handler.Envelope.Contents.{
  verify_envelope_contents_ssh, IsEnvelope, IsSshPayload,
}
use zettahealthonramp.Handler.Envelope.Signature.{verify_envelope_signature_from-IsSigned, IsSigned}
use zettahealthonramp.Handler.Session.{
  sealed, rvd_auth_payload, sign_auth, create_rvd_auth_string, encrypt_iv, encrypt_session,
  check_key_type, setup_rvd_session_encryption, SessionKeys,
}
use zettahealthonramp.Handler.Success.{
  response_name, response_payload, send_notification, name_response, sign_response,
  send_success_payload,
}
use zettahealthonramp.Handler.Request.{
  session_srv_params, key_base64, iv_base64, ssh_local, run_srv_process, auth_if_asked,
  keys_if_asked, child_process, parent_process, after_wait, after_fork, npt_relay, npt_local,
  ssh_relay, npt_keyed, npt_authenticated, npt_verified, npt_received, handle_npt_request,
  ssh_keyed, ssh_authenticated, ssh_verified, ssh_received, handle_ssh_request, Session,
}
use zettahealthonramp.Handler.Authorised.Requests.{IsAuthorisedNpt, IsSetUp}
use zettahealthonramp.Handler.Authorised.Outcomes.{IsResponse}
use zettahealthonramp.Handler.Authorised.Npt.{
  handle_npt_request-srv, handle_npt_request-notifies, BridgesNpt,
}
use zettahealthonramp.Handler.Authorised.Ssh.{
  handle_ssh_request-srv, handle_ssh_request-notifies, IsAuthorisedSsh, BridgesSsh,
}
use zettahealthonramp.Handler.Releases.{IsKept}
use zettahealthonramp.Handler.Releases.Requests.{handle_npt_request_releases}
use zettahealthonramp.Handler.Releases.Leaks.{handle_ssh_request_leaves}
use zettahealthonramp.Handler.Session.Recovery.{setup_rvd_session_encryption-Recovers, Recovers}
use zettahealthonramp.Handler.Sample.{
  sample_string, sample, srv_runs, notifications, srv_runs-Emits, notifications-Emits, params,
  received, npt_params,
}

sample_accepted :
    value (verify_envelope_signature_from sample [] (some (codes "@a"))) ≡ some success
unfolding verify_envelope_signature_from verify_with_key verify_decoded verify_envelope_signature
    str_eq item
sample_accepted = refl

verify_envelope_signature_from-IsSigned_example : IsSigned sample [] (some (codes "@a"))
verify_envelope_signature_from-IsSigned_example =
    verify_envelope_signature_from-IsSigned sample [] (some (codes "@a")) sample_accepted

verify_envelope_contents_ssh_example :
    (verify_envelope_contents sample [] payload_type_ssh ≡ success)
    ↔ (IsEnvelope sample [] × IsSshPayload sample (item sample "payload" []))
verify_envelope_contents_ssh_example = verify_envelope_contents_ssh sample []

npt_child_runs : srv_runs (log (handle_npt_request sample params received)) ≡ npt_params ∷ []
unfolding handle_npt_request npt_received npt_verified npt_authenticated npt_keyed npt_relay
    npt_local extract_envelope_from_notification parse_envelope verify_envelope_signature_from
    verify_with_key str_eq item verify_decoded verify_envelope_signature verify_envelope_contents
    verify_payload_contents should_permitopen auth_if_asked create_rvd_auth_string sign_auth
    keys_if_asked strncmp after_fork after_wait child_process parent_process run_srv_process
    session_srv_params check_key_type encrypt_iv encrypt_session rvd_auth_payload sealed
    setup_rvd_session_encryption name_response response_name response_payload send_notification
    send_success_payload sign_response apply_default_values_to_srv_params
npt_child_runs = refl

handle_npt_request-srv_example :
    (sample.forked ≡ child)
    × (e : Text) × (a : IsAuthorisedNpt sample params received e) × BridgesNpt sample
        (item sample "payload" e)
        a.requested
        npt_params
handle_npt_request-srv_example =
    handle_npt_request-srv sample params received npt_params
      (srv_runs-Emits _ npt_params [] npt_child_runs)

-- The same, where the fork makes this process the parent.
abbrev sample_parent : World
sample_parent = record sample { forked = parent }

abbrev response_key : Text
response_key = codes "x.pi4"

npt_parent_notifies :
    notifications (log (handle_npt_request sample_parent params received))
    ≡ (response_key, some []) ∷ []
unfolding handle_npt_request npt_received npt_verified npt_authenticated npt_keyed npt_relay
    npt_local extract_envelope_from_notification parse_envelope verify_envelope_signature_from
    verify_with_key str_eq item verify_decoded verify_envelope_signature verify_envelope_contents
    verify_payload_contents should_permitopen auth_if_asked create_rvd_auth_string sign_auth
    keys_if_asked strncmp after_fork after_wait child_process parent_process run_srv_process
    session_srv_params check_key_type encrypt_iv encrypt_session rvd_auth_payload sealed
    setup_rvd_session_encryption name_response response_name response_payload send_notification
    send_success_payload sign_response apply_default_values_to_srv_params
npt_parent_notifies = refl

handle_npt_request-notifies_example :
    (sample_parent.forked ≡ parent)
    × (sample_parent.waited ≡ still_running)
    × (e : Text) × IsAuthorisedNpt sample_parent params received e
    × (s : Session) × IsSetUp sample_parent (item sample_parent "payload" e) s
    × IsResponse sample_parent
        (notifies response_key (some []))
        tt
        (item sample_parent "payload" e)
        params.device
        (key_base64 s.keys)
        (iv_base64 s.keys)
handle_npt_request-notifies_example =
    handle_npt_request-notifies sample_parent params received response_key (some [])
      (notifications-Emits _ response_key (some []) [] npt_parent_notifies)

npt_child_returns : value (handle_npt_request sample params received) ≡ some true
unfolding handle_npt_request npt_received npt_verified npt_authenticated npt_keyed npt_relay
    npt_local extract_envelope_from_notification parse_envelope verify_envelope_signature_from
    verify_with_key str_eq item verify_decoded verify_envelope_signature verify_envelope_contents
    verify_payload_contents should_permitopen auth_if_asked create_rvd_auth_string sign_auth
    keys_if_asked strncmp after_fork after_wait child_process parent_process run_srv_process
    session_srv_params check_key_type encrypt_iv encrypt_session rvd_auth_payload sealed
    setup_rvd_session_encryption name_response response_name response_payload send_notification
    send_success_payload sign_response apply_default_values_to_srv_params
npt_child_returns = refl

envelope-IsKept : IsKept (resource_number envelope)
unfolding hits
envelope-IsKept = record {
  no_atkey = refl;
  no_buffer = refl;
  no_key = refl;
  no_aes_key = refl;
  no_iv = refl;
  no_name = refl;
}

handle_npt_request_releases_example :
    allocs 1 (log (handle_npt_request sample params received))
    ≡ frees 1 (log (handle_npt_request sample params received))
handle_npt_request_releases_example =
    handle_npt_request_releases sample params received 1 true envelope-IsKept npt_child_returns

abbrev ssh_params : SrvParams
ssh_params = record npt_params { local_host = some (codes "localhost"); multi = false }

ssh_child_runs : srv_runs (log (handle_ssh_request sample params received)) ≡ ssh_params ∷ []
unfolding handle_ssh_request ssh_received ssh_verified ssh_authenticated ssh_keyed ssh_relay
    ssh_local extract_envelope_from_notification parse_envelope verify_envelope_signature_from
    verify_with_key str_eq item verify_decoded verify_envelope_signature verify_envelope_contents
    verify_payload_contents should_permitopen auth_if_asked create_rvd_auth_string sign_auth
    keys_if_asked strncmp after_fork after_wait child_process parent_process run_srv_process
    session_srv_params check_key_type encrypt_iv encrypt_session rvd_auth_payload sealed
    setup_rvd_session_encryption name_response response_name response_payload send_notification
    send_success_payload sign_response apply_default_values_to_srv_params
ssh_child_runs = refl

handle_ssh_request-srv_example :
    (sample.forked ≡ child)
    × (e : Text) × IsAuthorisedSsh sample received e
    × BridgesSsh sample params (item sample "payload" e) ssh_params
handle_ssh_request-srv_example =
    handle_ssh_request-srv sample params received ssh_params
      (srv_runs-Emits _ ssh_params [] ssh_child_runs)

ssh_parent_notifies :
    notifications (log (handle_ssh_request sample_parent params received))
    ≡ (response_key, some []) ∷ []
unfolding handle_ssh_request ssh_received ssh_verified ssh_authenticated ssh_keyed ssh_relay
    ssh_local extract_envelope_from_notification parse_envelope verify_envelope_signature_from
    verify_with_key str_eq item verify_decoded verify_envelope_signature verify_envelope_contents
    verify_payload_contents should_permitopen auth_if_asked create_rvd_auth_string sign_auth
    keys_if_asked strncmp after_fork after_wait child_process parent_process run_srv_process
    session_srv_params check_key_type encrypt_iv encrypt_session rvd_auth_payload sealed
    setup_rvd_session_encryption name_response response_name response_payload send_notification
    send_success_payload sign_response apply_default_values_to_srv_params
ssh_parent_notifies = refl

handle_ssh_request-notifies_example :
    (sample_parent.forked ≡ parent)
    × (sample_parent.waited ≡ still_running)
    × (e : Text) × IsAuthorisedSsh sample_parent received e
    × (s : Session) × IsSetUp sample_parent (item sample_parent "payload" e) s
    × IsResponse sample_parent
        (notifies response_key (some []))
        tt
        (item sample_parent "payload" e)
        params.device
        (key_base64 s.keys)
        (iv_base64 s.keys)
handle_ssh_request-notifies_example =
    handle_ssh_request-notifies sample_parent params received response_key (some [])
      (notifications-Emits _ response_key (some []) [] ssh_parent_notifies)

-- A client whose key has another type.
abbrev other_key_type : Text → Option Text
other_key_type k =
    if str_eq k (codes "clientEphemeralPKType") then some (codes "ec") else sample_string k

abbrev refusing : World
refusing = record sample { string_value = other_key_type }

ec_key : refusing.string_value (item refusing "clientEphemeralPKType" []) ≡ some (codes "ec")
unfolding item str_eq
ec_key = refl

abbrev refused_auth : Option Text
refused_auth = some []

ssh_refused :
    (value (extract_envelope_from_notification refusing received) ≡ some (some (codes "{}")))
    × (value (verify_envelope_signature_from refusing (codes "{}") received.from) ≡ some success)
    × (verify_envelope_contents refusing (codes "{}") payload_type_ssh ≡ success)
    × (value (auth_if_asked refusing (item refusing "payload" (codes "{}")))
        ≡ some (got refused_auth))
    × (value (keys_if_asked refusing (item refusing "payload" (codes "{}")))
        ≡ some (failed failure))
    × (value (handle_ssh_request refusing params received) ≡ some false)
unfolding handle_ssh_request ssh_received ssh_verified ssh_authenticated ssh_keyed ssh_relay
    ssh_local extract_envelope_from_notification parse_envelope verify_envelope_signature_from
    verify_with_key str_eq item verify_decoded verify_envelope_signature verify_envelope_contents
    verify_payload_contents should_permitopen auth_if_asked create_rvd_auth_string sign_auth
    keys_if_asked strncmp after_fork after_wait child_process parent_process run_srv_process
    session_srv_params check_key_type encrypt_iv encrypt_session rvd_auth_payload sealed
    setup_rvd_session_encryption name_response response_name response_payload send_notification
    send_success_payload sign_response apply_default_values_to_srv_params
ssh_refused = (refl, refl, refl, refl, refl, refl)

handle_ssh_request_leaves_example :
    allocs 1 (log (handle_ssh_request refusing params received))
    ≡ frees 1 (log (handle_ssh_request refusing params received))
      + (hits 1 envelope + (elim refused_auth [ none ↦ 0 | some s ↦ hits 1 rvd_auth_string ]))
handle_ssh_request_leaves_example =
    handle_ssh_request_leaves refusing params received (codes "{}") refused_auth failure 1 false
      envelope-IsKept ssh_refused.0 ssh_refused.1 ssh_refused.2 ssh_refused.3 ssh_refused.4
      ssh_refused.5

sample_keys : SessionKeys
sample_keys = record {
  aes_key = codes "aes";
  iv = codes "iv";
  aes_key_base64 = codes "aes";
  iv_base64 = codes "iv";
}

sample-Recovers : Recovers sample (codes "x") (λ t. t) (λ t. t)
sample-Recovers = record { decode-encode = λ t. refl; decrypt-encrypt = λ t. refl }

sample_pk : sample.string_value (item sample "clientEphemeralPK" []) ≡ some (codes "x")
unfolding item str_eq
sample_pk = refl

sample_set_up : value (setup_rvd_session_encryption sample []) ≡ some (got sample_keys)
unfolding setup_rvd_session_encryption check_key_type encrypt_session encrypt_iv item str_eq strncmp
    sample_keys
sample_set_up = refl

setup_rvd_session_encryption-Recovers_example :
    (sample_keys.aes_key_base64 ≡ sample_keys.aes_key) × (sample_keys.iv_base64 ≡ sample_keys.iv)
setup_rvd_session_encryption-Recovers_example =
    setup_rvd_session_encryption-Recovers sample [] (codes "x") (λ t. t) (λ t. t) sample_keys
      sample_pk sample-Recovers sample_set_up

-- A request without a session id.
abbrev no_session : Text → Option Text
no_session k = if str_eq k (codes "sessionId") then none else sample_string k

abbrev unnamed : World
unnamed = record sample { string_value = no_session }

session_missing : unnamed.string_value (item unnamed "sessionId" []) ≡ none
unfolding item str_eq
session_missing = refl

abbrev unsendable : World
unsendable = record sample { notify = failure }

unsendable_returns :
    value (send_success_payload unsendable [] (codes "pi4") none none (some (codes "@a")))
    ≡ some success
unfolding send_success_payload sign_response name_response send_notification response_name item
    str_eq
unsendable_returns = refl
