-- ===== src/Srv/Tests.antt =====
-- Runs of packages/c/srv/src/srv.c and params.c, and the theorems at such inputs.
use zettahealthonramp.Base.{
  ℕ, ◌≡◌, refl, true, false, none, some, List, [], ◌∷◌, arith, if◌then◌else◌, Text, codes, length,
  str_eq, ok,
}
use zettahealthonramp.Code.{success, minus_one, pos}
use zettahealthonramp.SrvParams.{
  from_environment, load_auth, load_keys, parse_srv_params, SrvParams, SrvEnvironment,
}
use zettahealthonramp.Control.{Message}
use zettahealthonramp.Control.Tokens.{print_lines, always}
use zettahealthonramp.Control.Messages.{print_message}
use zettahealthonramp.Srv.{zeros, control_loop, Crypto, Answers, Round, exits, no_transformer}
use zettahealthonramp.Srv.Connections.{lines, all_threads, control_loop-threads, IsConnect, Carries}
use zettahealthonramp.Srv.Multi.{auth_complete}
use zettahealthonramp.Srv.Socket.{
  other, run_threads, socket_to_socket, SocketEvent, SocketAnswers, a, b, initializes, opens_pipe,
  sends_auth, announces, closes_pipe, frees_ciphers, starts_thread, joins_thread, cancels_thread,
}
use zettahealthonramp.Srv.Socket.Reached.{socket_to_socket-IsReached, IsReached}
use zettahealthonramp.Side.Connect.{service, opened, srv_side_init, connects_to, frees_socket}
use zettahealthonramp.PermitOpen.Decimal.{digits, decimal}
use zettahealthonramp.DeviceInfo.{snprintf}
use zettahealthonramp.Srv.Socket.Threads.{thread_starts, thread_stops, socket_to_socket_threads}

abbrev no_environment : SrvEnvironment
no_environment = record {
  rvd_auth_string = none;
  session_aes_key_string = none;
  session_aes_iv_string = none;
}

abbrev environment : SrvEnvironment
environment = record {
  rvd_auth_string = some (codes "auth");
  session_aes_key_string = some (codes "k");
  session_aes_iv_string = some (codes "v");
}

abbrev options : SrvParams
options = record {
  host = some (codes "relay");
  port = 8000;
  local_host = some (codes "localhost");
  local_port = 22;
  bind_local_port = false;
  rv_auth = true;
  rv_e2ee = true;
  multi = true;
  rvd_auth_string = none;
  session_aes_key_string = none;
  session_aes_iv_string = none;
}

abbrev loaded : SrvParams
loaded = record options {
  rvd_auth_string = some (codes "auth");
  session_aes_key_string = some (codes "k");
  session_aes_iv_string = some (codes "v");
}

parse_loaded : parse_srv_params no_environment environment options ≡ some loaded
unfolding parse_srv_params load_auth load_keys from_environment
parse_loaded = refl

parse_refused : parse_srv_params no_environment no_environment options ≡ none
unfolding parse_srv_params load_auth load_keys from_environment
parse_refused = refl

-- Any text decodes to as many zero bytes as it takes.
abbrev crypto : Crypto
crypto = record {
  base64_decode = λ t. success;
  base64_decoded = λ t. zeros (length t);
  setkey_enc = λ k. success;
}

abbrev short : Text
short = codes "k"

abbrev request : Message
request = record { message_type = codes "connect"; aes_key = codes "k1"; aes_iv = codes "v1" }

request-IsConnect : IsConnect request
unfolding print_message
request-IsConnect = record {
  message = record {
    type_is_token = ((λ e. ground (arith, e)), omega arith);
    key_is_token = ((λ e. ground (arith, e)), omega arith);
    iv_is_token = ((λ e. ground (arith, e)), omega arith);
    starts_solid = refl;
  };
  iv_ends = refl;
  one_line = ((λ e. ground (arith, e)), omega arith);
  no_nul = omega arith;
  connects = refl;
}

abbrev grants : ℕ → Answers
grants i = record {
  transformers_allocated = true;
  params_allocated = true;
  thread_created = success;
}

abbrev round_of : Text → Round
round_of s = record {
  received = s;
  output_allocated = true;
  transform_code = success;
  output = s;
  requests_allocated = always;
  answers = grants;
}

abbrev two_requests : List Message
two_requests = request ∷ request ∷ []

round-Carries : Carries no_transformer (round_of (lines two_requests)) two_requests
unfolding print_lines print_message
round-Carries = record {
  is_set = λ e. ground (arith, e);
  output_allocated = refl;
  transformed = refl;
  requests_allocated = refl;
  granted = record { transformers = λ i. refl; parameters = λ i. refl; threads = λ i. refl };
  requests = (request-IsConnect, (request-IsConnect, tt));
  fits = omega arith;
  carries = refl;
}

control_loop-threads_example :
    control_loop crypto no_transformer (round_of (lines two_requests) ∷ []) success
    ≡ (all_threads crypto (two_requests ∷ []), exits success)
control_loop-threads_example =
    control_loop-threads crypto no_transformer (round_of (lines two_requests) ∷ [])
      (two_requests ∷ []) success (round-Carries, tt)

abbrev connection : SocketAnswers
connection = record {
  network = record { net_connect = λ h s. success; net_bind = λ h s. success };
  auth_sent = pos 5;
  thread_a = success;
  thread_b = success;
  exited = b;
}

abbrev done_events : List SocketEvent
done_events =
    initializes a (connects_to (some (codes "localhost")) (codes "22") ∷ [])
    ∷ initializes b (connects_to (some (codes "relay")) (codes "8000") ∷ [])
    ∷ opens_pipe
    ∷ sends_auth
    ∷ starts_thread a
    ∷ starts_thread b
    ∷ announces
    ∷ joins_thread b
    ∷ cancels_thread a
    ∷ closes_pipe
    ∷ frees_ciphers
    ∷ []

connection_done :
    socket_to_socket loaded (some (codes "auth")) false connection ≡ ok (success, done_events)
unfolding socket_to_socket auth_complete run_threads other srv_side_init service opened snprintf
    decimal digits
connection_done = refl

socket_to_socket_threads_example : thread_starts a done_events ≡ thread_stops a done_events
socket_to_socket_threads_example =
    socket_to_socket_threads loaded (some (codes "auth")) false connection a success done_events
      connection_done

socket_to_socket-IsReached_example :
    IsReached loaded (some (codes "auth")) false connection done_events
socket_to_socket-IsReached_example =
    socket_to_socket-IsReached loaded connection (some (codes "auth")) false done_events
      (omega arith) (omega arith) connection_done

-- The relay cannot be reached: its socket is freed, and that of side a stays as it is.
abbrev half : SocketAnswers
half = record connection {
  network = record {
    net_connect = λ h s. if str_eq s (codes "22") then success else minus_one;
    net_bind = λ h s. success;
  };
}

half_connected :
    socket_to_socket loaded (some (codes "auth")) false half
    ≡ ok (
      minus_one,
      initializes a (connects_to (some (codes "localhost")) (codes "22") ∷ [])
          ∷ initializes b (connects_to (some (codes "relay")) (codes "8000") ∷ frees_socket ∷ [])
          ∷ [],
    )
unfolding socket_to_socket auth_complete run_threads srv_side_init service opened snprintf decimal
    digits str_eq
half_connected = refl
