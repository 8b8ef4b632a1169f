-- ===== src/Composition/Tests.antt =====
-- The theorems on the handlers and srv, at runs of packages/c/sshnpd/src/handle_npt_request.c and
-- packages/c/srv/src/main.c.
use zettahealthonramp.Base.{◌≡◌, refl, true, false, none, some, [], ◌∷◌, codes, str_eq, strncmp, ok}
use zettahealthonramp.Code.{success, pos}
use zettahealthonramp.PermitOpen.{should_permitopen}
use zettahealthonramp.SrvParams.{
  apply_default_values_to_srv_params, from_environment, load_auth, load_keys, parse_srv_params,
  SrvParams, SrvEnvironment,
}
use zettahealthonramp.Handler.World.{log, World}
use zettahealthonramp.Handler.Envelope.{
  item, verify_payload_contents, verify_envelope_contents, parse_envelope,
  extract_envelope_from_notification, verify_envelope_signature, verify_decoded, verify_with_key,
  verify_envelope_signature_from,
}
use zettahealthonramp.Handler.Session.{
  sealed, rvd_auth_payload, sign_auth, create_rvd_auth_string, encrypt_iv, encrypt_session,
  check_key_type, setup_rvd_session_encryption,
}
use zettahealthonramp.Handler.Success.{
  response_name, response_payload, send_notification, name_response, sign_response,
  send_success_payload,
}
use zettahealthonramp.Handler.Request.{
  session_srv_params, run_srv_process, auth_if_asked, keys_if_asked, child_process, parent_process,
  after_wait, after_fork, npt_relay, npt_local, npt_keyed, npt_authenticated, npt_verified,
  npt_received, handle_npt_request,
}
use zettahealthonramp.Handler.Sample.{
  sample, srv_runs, srv_runs-Emits, params, received, npt_params,
}
use zettahealthonramp.Srv.{zeros, Crypto}
use zettahealthonramp.Srv.Multi.{session_cipher, Session}
use zettahealthonramp.Composition.{generated_cipher, handle_npt_request-cipher, SameCrypto}
use zettahealthonramp.Srv.Socket.{run_srv_daemon_side_single, run_srv, SocketAnswers, a, single}
use zettahealthonramp.Composition.Main.{is_ok, srv_main, srv_main_single}

-- A world whose keys have the length that srv wants.
abbrev keyed : World
keyed = record sample { generated_key = zeros 32; generated_iv = zeros 16 }

abbrev keyed_params : SrvParams
keyed_params = record npt_params {
  session_aes_key_string = some (zeros 32);
  session_aes_iv_string = some (zeros 16);
}

-- The codec of the world: a text stands for itself.
abbrev same_crypto : Crypto
same_crypto = record {
  base64_decode = λ t. success;
  base64_decoded = λ t. t;
  setkey_enc = λ k. success;
}

keyed-SameCrypto : SameCrypto keyed same_crypto
keyed-SameCrypto = record {
  decodes = λ t. refl;
  decode-encode = λ t. refl;
  key_bytes = refl;
  iv_bytes = refl;
  key_sets = refl;
}

keyed_child_runs : srv_runs (log (handle_npt_request keyed params received)) ≡ keyed_params ∷ []
unfolding handle_npt_request npt_received npt_verified npt_authenticated npt_keyed npt_relay
    npt_local extract_envelope_from_notification parse_envelope verify_envelope_signature_from
    verify_with_key str_eq item verify_decoded verify_envelope_signature verify_envelope_contents
    verify_payload_contents should_permitopen auth_if_asked create_rvd_auth_string sign_auth
    keys_if_asked strncmp after_fork after_wait child_process parent_process run_srv_process
    session_srv_params check_key_type encrypt_iv encrypt_session rvd_auth_payload sealed
    setup_rvd_session_encryption name_response response_name response_payload send_notification
    send_success_payload sign_response apply_default_values_to_srv_params
keyed_child_runs = refl

handle_npt_request-cipher_example :
    (keyed_params.multi ≡ true)
    × (session_cipher same_crypto keyed_params ≡ ok (some (generated_cipher keyed)))
handle_npt_request-cipher_example =
    handle_npt_request-cipher keyed same_crypto keyed-SameCrypto params received keyed_params
      (srv_runs-Emits _ keyed_params [] keyed_child_runs) refl

abbrev inherited_environment : SrvEnvironment
inherited_environment = record {
  rvd_auth_string = some (codes "auth");
  session_aes_key_string = some (zeros 32);
  session_aes_iv_string = some (zeros 16);
}

-- What argparse leaves: the secrets are not there yet.
abbrev single_options : SrvParams
single_options = record npt_params {
  multi = false;
  rvd_auth_string = none;
  session_aes_key_string = none;
  session_aes_iv_string = none;
}

abbrev single_loaded : SrvParams
single_loaded = record single_options {
  rvd_auth_string = some (codes "auth");
  session_aes_key_string = some (zeros 32);
  session_aes_iv_string = some (zeros 16);
}

abbrev reached_sockets : SocketAnswers
reached_sockets = record {
  network = record { net_connect = λ h s. success; net_bind = λ h s. success };
  auth_sent = pos 5;
  thread_a = success;
  thread_b = success;
  exited = a;
}

abbrev no_session : Session
no_session = record {
  connected = success;
  auth_sent = success;
  buffer_allocated = true;
  rounds = [];
  last = success;
}

single_runs :
    srv_main same_crypto inherited_environment single_options reached_sockets no_session
    ≡ single (run_srv_daemon_side_single same_crypto single_loaded reached_sockets)
unfolding srv_main run_srv parse_srv_params load_auth load_keys from_environment
single_runs = refl

srv_main_single_example :
    is_ok (run_srv_daemon_side_single same_crypto single_loaded reached_sockets) ≡ true
srv_main_single_example =
    srv_main_single same_crypto inherited_environment single_options reached_sockets no_session
      (run_srv_daemon_side_single same_crypto single_loaded reached_sockets) single_runs
