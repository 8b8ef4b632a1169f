-- ===== src/Composition/Defaults/Tests.antt =====
-- A run of packages/c/sshnpd with its default permit-open list, and the theorem at it.
use zettahealthonramp.Base.{◌≡◌, refl, false, some, [], ◌∷◌, codes, str_eq, strncmp}
use zettahealthonramp.PermitOpen.{should_permitopen}
use zettahealthonramp.SrvParams.{apply_default_values_to_srv_params, SrvParams}
use zettahealthonramp.Daemon.{
  key_of_name, strip, strstr, tail_of, name_at, notification_name, dispatch, handle_notification,
  count_message, act_on, round, notification, Notification as Received,
}
use zettahealthonramp.Handler.Envelope.{
  item, verify_payload_contents, verify_envelope_contents, parse_envelope,
  extract_envelope_from_notification, verify_envelope_signature, verify_decoded, verify_with_key,
  verify_envelope_signature_from,
}
use zettahealthonramp.Handler.Session.{
  sealed, rvd_auth_payload, sign_auth, create_rvd_auth_string, encrypt_iv, encrypt_session,
  check_key_type, setup_rvd_session_encryption,
}
use zettahealthonramp.Handler.Success.{
  response_name, response_payload, send_notification, name_response, sign_response,
  send_success_payload,
}
use zettahealthonramp.Handler.Request.{
  session_srv_params, ssh_local, run_srv_process, auth_if_asked, keys_if_asked, child_process,
  parent_process, after_wait, after_fork, npt_relay, npt_local, ssh_relay, npt_keyed,
  npt_authenticated, npt_verified, npt_received, handle_npt_request, ssh_keyed, ssh_authenticated,
  ssh_verified, ssh_received, handle_ssh_request,
}
use zettahealthonramp.Handler.Sample.{srv_runs, srv_runs-Emits, npt_params}
use zettahealthonramp.Composition.Loop.{handling, answers, daemon_log, Turn}
use zettahealthonramp.Composition.Strangers.{loop_config as set_up, begun, request_of, request_turn}
use zettahealthonramp.Tests.{allocation}
use zettahealthonramp.Start.Tests.{short_line, short_params, short_setup, parse_short}
use zettahealthonramp.Composition.Defaults.{daemon_log-IsLocal, IsLocal}

abbrev asked : Received
asked = record (request_of (codes "default") (codes "@a")) {
  key = codes "@dev:ssh_request.default.sshnp@a";
}

abbrev ssh_turn : Turn
ssh_turn = record (request_turn (codes "default") (codes "@a")) { message = notification asked }

abbrev ssh_params : SrvParams
ssh_params = record npt_params { local_host = some (codes "localhost"); multi = false }

default_runs_srv :
    srv_runs (daemon_log (set_up short_params 22 short_setup) [] begun (ssh_turn ∷ []))
    ≡ ssh_params ∷ []
unfolding daemon_log answers handling round count_message act_on handle_notification
    notification_name strstr strip tail_of name_at dispatch key_of_name handle_npt_request
    handle_ssh_request ssh_received ssh_verified ssh_authenticated ssh_keyed ssh_relay ssh_local
    npt_received npt_verified npt_authenticated npt_keyed npt_relay npt_local
    extract_envelope_from_notification parse_envelope verify_envelope_signature_from verify_with_key
    str_eq item verify_decoded verify_envelope_signature verify_envelope_contents
    verify_payload_contents should_permitopen auth_if_asked create_rvd_auth_string sign_auth
    keys_if_asked strncmp after_fork after_wait child_process parent_process run_srv_process
    session_srv_params check_key_type encrypt_iv encrypt_session rvd_auth_payload sealed
    setup_rvd_session_encryption name_response response_name response_payload send_notification
    send_success_payload sign_response apply_default_values_to_srv_params
default_runs_srv = refl

daemon_log-IsLocal_example : IsLocal ssh_params
daemon_log-IsLocal_example =
    daemon_log-IsLocal allocation short_line short_params 22 short_setup begun (ssh_turn ∷ [])
      ssh_params refl parse_short (srv_runs-Emits _ ssh_params [] default_runs_srv)
