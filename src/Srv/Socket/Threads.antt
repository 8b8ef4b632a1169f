-- ===== src/Srv/Socket/Threads.antt =====
-- What socket_to_socket of packages/c/srv/src/srv.c leaves behind.
use zettahealthonramp.Base.{
  ℕ, suc, ◌+◌, ◌≡◌, refl, ◌≢◌, Bool, true, false, Option, some, List, [], ◌∷◌, ◌++◌, arith, Text,
  length, Outcome, ok, error, fault,
}
use zettahealthonramp.Code.{success, minus_one, ℤ, pos, negsuc}
use zettahealthonramp.SrvParams.{SrvParams}
use zettahealthonramp.Srv.Multi.{int_eq, auth_complete}
use zettahealthonramp.Srv.Socket.{
  other, init, both, if_ciphers, unless_ready, if_auth, socket_exit, run_threads, after_auth,
  socket_to_socket, Side, SocketEvent, SocketAnswers, a, b, opens_pipe, sends_auth, closes_pipe,
  starts_thread, joins_thread, cancels_thread,
}

abbrev pub is_side : Side → Side → ℕ
is_side a a = 1
is_side a b = 0
is_side b a = 0
is_side b b = 1

-- How often the thread of a side is started, and how often it is joined or cancelled.
abbrev pub thread_starts : Side → List SocketEvent → ℕ
thread_starts s [] = 0
thread_starts s (starts_thread t ∷ l) = is_side s t + thread_starts s l
thread_starts s (_ ∷ l) = thread_starts s l

abbrev pub thread_stops : Side → List SocketEvent → ℕ
thread_stops s [] = 0
thread_stops s (joins_thread t ∷ l) = is_side s t + thread_stops s l
thread_stops s (cancels_thread t ∷ l) = is_side s t + thread_stops s l
thread_stops s (_ ∷ l) = thread_stops s l

abbrev pub pipe_opens : List SocketEvent → ℕ
pipe_opens [] = 0
pipe_opens (opens_pipe ∷ l) = suc (pipe_opens l)
pipe_opens (_ ∷ l) = pipe_opens l

abbrev pub pipe_closes : List SocketEvent → ℕ
pipe_closes [] = 0
pipe_closes (closes_pipe ∷ l) = suc (pipe_closes l)
pipe_closes (_ ∷ l) = pipe_closes l

int_eq_lem : (i : ℤ) (k : ℕ) → i ≢ pos k → int_eq i (pos k) ≡ false
int_eq_lem (pos j) k ne = ground arith
int_eq_lem (negsuc j) k ne = refl

-- The one that is joined and the other one are both sides.
sides_lem : (s x : Side) → is_side s x + is_side s (other x) ≡ is_side s a + is_side s b
unfolding other
sides_lem a a = refl
sides_lem a b = refl
sides_lem b a = refl
sides_lem b b = refl

-- The events around the threads.
module _ (s : Side) where
  exit_lem : (e : Bool) → (thread_starts s (if_ciphers e) ≡ 0) × (thread_stops s (if_ciphers e) ≡ 0)
  exit_lem true = (refl, refl)
  exit_lem false = (refl, refl)

  ready_lem :
      (r : Bool) (l : List SocketEvent)
      → (thread_starts s (unless_ready r ++ l) ≡ thread_starts s l)
        × (thread_stops s (unless_ready r ++ l) ≡ thread_stops s l)
  ready_lem true l = (refl, refl)
  ready_lem false l = (refl, refl)

  auth_lem :
      (r : Bool) (l : List SocketEvent)
      → (thread_starts s (if_auth r ++ l) ≡ thread_starts s l)
        × (thread_stops s (if_auth r ++ l) ≡ thread_stops s l)
  auth_lem true l = (refl, refl)
  auth_lem false l = (refl, refl)

  run_threads_lem :
      (p : SrvParams) (is_srv_ready : Bool) (n : SocketAnswers)
      → thread_starts s (run_threads p is_srv_ready n).1
        ≡ thread_stops s (run_threads p is_srv_ready n).1
  unfolding run_threads
  run_threads_lem p is_srv_ready n =
      let last = joins_thread n.exited ∷ cancels_thread (other n.exited) ∷ socket_exit p in
      ground (arith, exit_lem p.rv_e2ee, ready_lem is_srv_ready last, sides_lem s n.exited)

  after_auth_lem :
      (p : SrvParams) (is_srv_ready : Bool) (n : SocketAnswers) (o : Outcome Bool) (code : ℤ)
      (l : List SocketEvent)
      → after_auth p is_srv_ready n o ≡ ok (code, l)
      → thread_starts s l ≡ thread_stops s l
  after_auth_lem p is_srv_ready n (ok true) code l h =
      ground (
        arith,
        run_threads_lem p is_srv_ready n,
        auth_lem p.rv_auth (run_threads p is_srv_ready n).1,
      )
  after_auth_lem p is_srv_ready n (ok false) code l h = ground arith
  after_auth_lem p is_srv_ready n error code l h = cc
  after_auth_lem p is_srv_ready n fault code l h = cc

-- Whatever the connections, the sends and the threads answer: of each side, a thread that was started
-- is joined or cancelled exactly once before the connection returns, and no other is.
pub socket_to_socket_threads :
    (p : SrvParams) (auth : Option Text) (is_srv_ready : Bool) (n : SocketAnswers) (s : Side)
    (code : ℤ) (l : List SocketEvent)
    → socket_to_socket p auth is_srv_ready n ≡ ok (code, l)
    → thread_starts s l ≡ thread_stops s l
unfolding socket_to_socket
socket_to_socket_threads p auth is_srv_ready n s code l h =
    ground
      (arith, after_auth_lem s p is_srv_ready n (auth_complete p.rv_auth auth n.auth_sent) code l)

-- Where the auth string is not sent in full, both sides stay connected and the pipe stays open.
socket_to_socket_unsent :
    (p : SrvParams) (auth : Text) (is_srv_ready : Bool) (n : SocketAnswers)
    → (init p n a).0 ≡ success
    → (init p n b).0 ≡ success
    → p.rv_auth ≡ true
    → n.auth_sent ≢ pos (length auth + 1)
    → (l : List SocketEvent) × (socket_to_socket p (some auth) is_srv_ready n ≡ ok (minus_one, l))
      × (pipe_opens l ≡ 1)
      × (pipe_closes l ≡ 0)
unfolding socket_to_socket auth_complete
socket_to_socket_unsent p auth is_srv_ready n sa sb on ne = (
  both p n ++ opens_pipe ∷ sends_auth ∷ [],
  ground (arith, int_eq_lem n.auth_sent (length auth + 1) ne),
  refl,
  refl,
)
