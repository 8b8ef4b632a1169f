-- ===== src/Composition/Loop/Tests.antt =====
-- Runs of the main loop of packages/c/sshnpd/src/daemon.c with its handlers, and the theorems at such
-- inputs.
use zettahealthonramp.Base.{
  arith, ◌≡◌, refl, true, false, some, [], ◌∷◌, codes, Any, str_eq, strncmp,
}
use zettahealthonramp.Clients.{ClientAnswers}
use zettahealthonramp.Code.{success}
use zettahealthonramp.PermitOpen.{should_permitopen}
use zettahealthonramp.SrvParams.{apply_default_values_to_srv_params}
use zettahealthonramp.Daemon.{
  key_of_name, strip, strstr, tail_of, name_at, notification_name, dispatch, handle_notification,
  count_message, act_on, round, Config, State, notification, Notification as Received,
}
use zettahealthonramp.Handler.Envelope.{
  item, verify_payload_contents, verify_envelope_contents, parse_envelope,
  extract_envelope_from_notification, verify_envelope_signature, verify_decoded, verify_with_key,
  verify_envelope_signature_from,
}
use zettahealthonramp.Handler.Session.{
  sealed, rvd_auth_payload, sign_auth, create_rvd_auth_string, encrypt_iv, encrypt_session,
  check_key_type, setup_rvd_session_encryption,
}
use zettahealthonramp.Handler.Success.{
  response_name, response_payload, send_notification, name_response, sign_response,
  send_success_payload,
}
use zettahealthonramp.Handler.Request.{
  session_srv_params, ssh_local, run_srv_process, auth_if_asked, keys_if_asked, child_process,
  parent_process, after_wait, after_fork, npt_relay, npt_local, ssh_relay, npt_keyed,
  npt_authenticated, npt_verified, npt_received, handle_npt_request, ssh_keyed, ssh_authenticated,
  ssh_verified, ssh_received, handle_ssh_request, Session,
}
use zettahealthonramp.Handler.Sample.{sample, srv_runs, srv_runs-Emits, npt_params}
use zettahealthonramp.Composition.Loop.{
  handling, answers, daemon_log, request_params, received, Turn,
}
use zettahealthonramp.Handler.World.{runs_srv}
use zettahealthonramp.Composition.Strangers.{
  loop_config as set_up, begun, request_of, request_of-name, request_turn, daemon_log-stranger,
  AsksNpt,
}
use zettahealthonramp.Handler.Authorised.Completes.{served_params, IsServable}
use zettahealthonramp.Params.{SshnpdParams, ed25519}
use zettahealthonramp.Start.{LoopSetup}
use zettahealthonramp.Composition.Loop.Served.{daemon_log-Serves, Serves}

abbrev npt_received_key : Received
npt_received_key = record {
  value_initialized = true;
  key_initialized = true;
  is_stats = false;
  key = codes "@dev:npt_request.pi4.sshnp@a";
  from = codes "@a";
  to = codes "@dev";
}

abbrev loop_config : Config
loop_config = record {
  device = codes "pi4";
  local_sshd_port = 22;
  managers = codes "@boss" ∷ [];
  permits = record { host = codes "x"; port = 22 } ∷ [];
  monitor_regex = codes "pi4.sshnp@";
}

abbrev answering : ClientAnswers
answering = record {
  worker_connected = true;
  authenticate_worker = success;
  set_hook = success;
  authenticate_monitor = success;
  start_monitor = λ _. success;
}

abbrev turn : Turn
turn = record {
  world = sample;
  clients = answering;
  read = success;
  message = notification npt_received_key;
  decrypted_value = some (codes "{}");
  from_initialized = true;
}

abbrev started : State
started = record { timeout_counter = 0; is_child_process = false }

loop_runs_srv : srv_runs (daemon_log loop_config [] started (turn ∷ turn ∷ [])) ≡ npt_params ∷ []
unfolding daemon_log answers handling round count_message act_on handle_notification
    notification_name strstr strip tail_of name_at dispatch key_of_name handle_npt_request
    handle_ssh_request ssh_received ssh_verified ssh_authenticated ssh_keyed ssh_relay ssh_local
    npt_received npt_verified npt_authenticated npt_keyed npt_relay npt_local
    extract_envelope_from_notification parse_envelope verify_envelope_signature_from verify_with_key
    str_eq item verify_decoded verify_envelope_signature verify_envelope_contents
    verify_payload_contents should_permitopen auth_if_asked create_rvd_auth_string sign_auth
    keys_if_asked strncmp after_fork after_wait child_process parent_process run_srv_process
    session_srv_params check_key_type encrypt_iv encrypt_session rvd_auth_payload sealed
    setup_rvd_session_encryption name_response response_name response_payload send_notification
    send_success_payload sign_response apply_default_values_to_srv_params
loop_runs_srv = refl

daemon_log-Serves_example : Any (Serves loop_config [] npt_params) (turn ∷ turn ∷ [])
daemon_log-Serves_example =
    daemon_log-Serves loop_config [] started (turn ∷ turn ∷ []) npt_params
      (srv_runs-Emits _ npt_params [] loop_runs_srv)

abbrev boss_params : SshnpdParams
boss_params = record {
  atsign = codes "@dev";
  device = codes "pi4";
  managers = codes "@boss" ∷ [];
  permits = record { host = codes "x"; port = 22 } ∷ [];
  ssh_algorithm = ed25519;
}

abbrev boss_setup : LoopSetup
boss_setup = record {
  monitor_regex = codes "pi4.sshnp@";
  authkeys_path = codes "/root/.ssh/authorized_keys";
  ping_text = [];
}

abbrev boss_config : Config
boss_config = set_up boss_params 22 boss_setup

abbrev stranger : Received
stranger = request_of (codes "pi4") (codes "@stranger")

abbrev stranger_turn : Turn
stranger_turn = request_turn (codes "pi4") (codes "@stranger")

abbrev stranger_session : Session
stranger_session = record {
  auth = some [];
  keys = some (record {
    aes_key = codes "aes";
    iv = codes "iv";
    aes_key_base64 = codes "aes";
    iv_base64 = codes "iv";
  });
}

stranger-IsServable :
    IsServable sample
      (request_params boss_config)
      (received stranger_turn stranger)
      (codes "{}")
      (codes "x")
      stranger_session
unfolding extract_envelope_from_notification parse_envelope verify_envelope_signature_from
    verify_with_key str_eq item verify_decoded verify_envelope_signature verify_envelope_contents
    verify_payload_contents should_permitopen auth_if_asked create_rvd_auth_string sign_auth
    keys_if_asked strncmp npt_local check_key_type encrypt_iv encrypt_session rvd_auth_payload
    sealed setup_rvd_session_encryption
stranger-IsServable = record {
  extracted = refl;
  accepted = refl;
  contents = refl;
  host_is = refl;
  permitted = refl;
  set_up = record { auth_is = refl; keys_are = refl };
  is_child = refl;
}

stranger-AsksNpt : AsksNpt boss_config stranger
stranger-AsksNpt = record {
  has_value = refl;
  has_key = refl;
  no_stats = refl;
  named = request_of-name (codes "pi4") (codes "@stranger");
}

-- The only manager is @boss.
daemon_log-stranger_example :
    Any
      (λ ev. ev ≡ runs_srv (served_params sample (codes "{}") stranger_session))
      (daemon_log boss_config [] begun (stranger_turn ∷ []))
daemon_log-stranger_example =
    daemon_log-stranger boss_config [] begun stranger_turn stranger (codes "{}") (codes "x")
      stranger_session [] (omega arith) refl stranger-AsksNpt stranger-IsServable
