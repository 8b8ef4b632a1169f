-- ===== src/Srv/Socket.antt =====
-- packages/c/srv/src/srv.c: socket_to_socket and its callers.
pub mod Threads
pub mod Reached
use zettahealthonramp.Base.{
  Bool, true, false, not, Option, List, [], ◌∷◌, ◌++◌, if◌then◌else◌, Text, ◌>>=◌, Outcome, ok,
  error, fault,
}
use zettahealthonramp.Code.{is_zero, success, failure, minus_one, ℤ}
use zettahealthonramp.SrvParams.{SrvParams}
use zettahealthonramp.Side.Connect.{srv_side_init, Network, SideHints, SideEvent}
use zettahealthonramp.Srv.{side_transformer, Crypto, Cipher, Ending, Transformer}
use zettahealthonramp.Srv.Multi.{auth_complete, session_cipher, run_srv_daemon_side_multi, Session}

pub data Side : Type 0 where
  a b : Side

unfoldable pub other : Side → Side
other a = b
other b = a

-- What a connection does: it sets up a side, opens the pipe, starts, joins and cancels the threads
-- of the sides, tells the daemon that it is ready, and clears up.
pub data SocketEvent : Type 0 where
  initializes : Side → List SideEvent → SocketEvent
  opens_pipe sends_auth announces closes_pipe frees_ciphers : SocketEvent
  starts_thread joins_thread cancels_thread : Side → SocketEvent

-- What the connections, the sends and the threads answer; `exited` is the side whose thread is the
-- first to write to the pipe.
pub record SocketAnswers : Type 0 where
  pub network : Network
  pub auth_sent : ℤ
  pub thread_a : ℤ
  pub thread_b : ℤ
  pub exited : Side

abbrev pub hints_a : SrvParams → SideHints
hints_a p = record {
  is_side_a = true;
  is_server = false;
  host = p.local_host;
  port = p.local_port;
  transforms = p.rv_e2ee;
}

abbrev pub hints_b : SrvParams → SideHints
hints_b p = record {
  is_side_a = false;
  is_server = false;
  host = p.host;
  port = p.port;
  transforms = p.rv_e2ee;
}

abbrev pub side_hints : SrvParams → Side → SideHints
side_hints p a = hints_a p
side_hints p b = hints_b p

-- What comes of setting up a side.
abbrev pub init : SrvParams → SocketAnswers → Side → ℤ × List SideEvent
init p n s = srv_side_init n.network (side_hints p s)

-- Both sides are set up.
abbrev pub both : SrvParams → SocketAnswers → List SocketEvent
both p n = initializes a (init p n a).1 ∷ initializes b (init p n b).1 ∷ []

abbrev pub if_ciphers : Bool → List SocketEvent
if_ciphers true = frees_ciphers ∷ []
if_ciphers false = []

abbrev pub unless_ready : Bool → List SocketEvent
unless_ready true = []
unless_ready false = announces ∷ []

abbrev pub if_auth : Bool → List SocketEvent
if_auth true = sends_auth ∷ []
if_auth false = []

-- The label `exit`.
abbrev pub socket_exit : SrvParams → List SocketEvent
socket_exit p = closes_pipe ∷ if_ciphers p.rv_e2ee

-- The threads, once the auth string is sent.
unfoldable pub run_threads : SrvParams → Bool → SocketAnswers → ℤ × List SocketEvent
unfolding other
run_threads p is_srv_ready n =
    if not (is_zero n.thread_a)
    then (n.thread_a, socket_exit p)
    else if not (is_zero n.thread_b)
    then (n.thread_b, starts_thread a ∷ cancels_thread a ∷ socket_exit p)
    else (
      success,
      starts_thread a
          ∷ starts_thread b
          ∷ (unless_ready is_srv_ready
              ++ (joins_thread n.exited ∷ cancels_thread (other n.exited) ∷ socket_exit p)),
    )

abbrev pub after_auth :
    SrvParams → Bool → SocketAnswers → Outcome Bool → Outcome (ℤ × List SocketEvent)
after_auth p is_srv_ready n (ok true) =
    let run = run_threads p is_srv_ready n in
    ok (run.0, both p n ++ opens_pipe ∷ (if_auth p.rv_auth ++ run.1))
after_auth p is_srv_ready n (ok false) = ok (minus_one, both p n ++ opens_pipe ∷ sends_auth ∷ [])
after_auth p is_srv_ready n error = error
after_auth p is_srv_ready n fault = fault

-- The code that is returned, and what was done; a null auth string is followed.
unfoldable pub socket_to_socket :
    SrvParams → Option Text → Bool → SocketAnswers → Outcome (ℤ × List SocketEvent)
socket_to_socket p auth is_srv_ready n =
    if not (is_zero (init p n a).0)
    then ok ((init p n a).0, initializes a (init p n a).1 ∷ [])
    else if not (is_zero (init p n b).0)
    then ok ((init p n b).0, both p n)
    else after_auth p is_srv_ready n (auth_complete p.rv_auth auth n.auth_sent)

-- The transformers of sides a and b, and the connection. A cipher that failed is logged and used.
unfoldable pub run_srv_daemon_side_single :
    Crypto → SrvParams → SocketAnswers → Outcome (Transformer × (ℤ × List SocketEvent))
run_srv_daemon_side_single C p n = do
  c ← session_cipher C p
  r ← socket_to_socket p p.rvd_auth_string false n
  ok (side_transformer p.rv_e2ee c, (r.0, r.1 ++ if_ciphers p.rv_e2ee))

-- What `run_srv` comes to: the single or the multi-session mode, or `exit(1)`.
pub data Run : Type 0 where
  single : Outcome (Transformer × (ℤ × List SocketEvent)) → Run
  multi : List (Option Cipher) × Ending → Run
  leaves_process : ℤ → Run

unfoldable pub run_srv : Crypto → SrvParams → SocketAnswers → Session → Run
run_srv C p n s =
    if p.bind_local_port
    then leaves_process failure
    else if not p.multi
    then single (run_srv_daemon_side_single C p n)
    else multi (run_srv_daemon_side_multi C p s)
