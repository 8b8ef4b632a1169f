-- ===== src/Srv/Socket/Reached.antt =====
-- What stands behind a connection of packages/c/srv/src/srv.c that returns 0.
use zettahealthonramp.Base.{
  ◌^◌, ◌<◌, ◌≡◌, refl, ap, ◌∙◌, subst, inl, inr, Bool, true, false, Option, List, [], ◌∷◌, ◌++◌,
  if◌then◌else◌, arith, Bool-cases, Text, Outcome, ok, error, fault,
}
use zettahealthonramp.Code.{is_zero, success, is_zero_iff, ℤ}
use zettahealthonramp.PermitOpen.Decimal.{decimal}
use zettahealthonramp.SrvParams.{SrvParams}
use zettahealthonramp.Side.Connect.{opened, srv_side_init, service-decimal, SideEvent, connects_to}
use zettahealthonramp.Srv.Multi.{auth_complete}
use zettahealthonramp.Srv.Socket.{
  hints_a, hints_b, side_hints, init, run_threads, after_auth, socket_to_socket, other, if_auth,
  unless_ready, if_ciphers, Side, SocketEvent, SocketAnswers, a, b, initializes, opens_pipe,
  sends_auth, announces, closes_pipe, frees_ciphers, starts_thread, joins_thread, cancels_thread,
}

opened_zero : (res : ℤ) (call : SideEvent) → is_zero (opened res call).0 ≡ true → res ≡ success
unfolding opened
opened_zero res call h = ground (arith, is_zero_iff res)

opened_event :
    (res : ℤ) (call : SideEvent)
    → is_zero (opened res call).0 ≡ true
    → (opened res call).1 ≡ call ∷ []
unfolding opened
opened_event res call h = ground (arith, is_zero_iff res)

-- What a connection that succeeds does, in order: it connects to the local host and to the relay, each at
-- its whole port in decimal, opens the pipe, sends the auth string if it is asked to, starts both threads,
-- tells the daemon if it has not been told yet, joins the thread that ends first, cancels the other
-- one, and clears up.
abbrev pub reached_events : SrvParams → Bool → Side → List SocketEvent
reached_events p is_srv_ready exited =
    initializes a (connects_to p.local_host (decimal p.local_port) ∷ [])
    ∷ initializes b (connects_to p.host (decimal p.port) ∷ [])
    ∷ opens_pipe
    ∷ ((if p.rv_auth then sends_auth ∷ [] else [])
        ++ starts_thread a
          ∷ starts_thread b
          ∷ ((if is_srv_ready then [] else announces ∷ [])
              ++ joins_thread exited
                ∷ cancels_thread (elim exited [ a ↦ b | b ↦ a ])
                ∷ closes_pipe
                ∷ (if p.rv_e2ee then frees_ciphers ∷ [] else [])))

-- The calls succeeded, an auth string was sent whole with its newline, and these are the events.
pub record IsReached (p : SrvParams) (auth : Option Text) (is_srv_ready : Bool) (n : SocketAnswers)
    (l : List SocketEvent) : Type 0 where
  pub local : n.network.net_connect p.local_host (decimal p.local_port) ≡ success
  pub remote : n.network.net_connect p.host (decimal p.port) ≡ success
  pub told : auth_complete p.rv_auth auth n.auth_sent ≡ ok true
  pub threads : (n.thread_a ≡ success) × (n.thread_b ≡ success)
  pub events : l ≡ reached_events p is_srv_ready n.exited

module _ (p : SrvParams) (n : SocketAnswers) where
  init-connect :
      (s : Side)
      → (side_hints p s).port < 2 ^ 16
      → is_zero (init p n s).0 ≡ true
      → n.network.net_connect (side_hints p s).host (decimal (side_hints p s).port) ≡ success
  unfolding srv_side_init
  init-connect a fits h =
      subst (λ t. n.network.net_connect p.local_host t ≡ success) (service-decimal (hints_a p) fits)
        (opened_zero _ _ h)
  init-connect b fits h =
      subst (λ t. n.network.net_connect p.host t ≡ success) (service-decimal (hints_b p) fits)
        (opened_zero _ _ h)

  run_threads_zero :
      (is_srv_ready : Bool)
      → (run_threads p is_srv_ready n).0 ≡ success
      → (n.thread_a ≡ success) × (n.thread_b ≡ success)
  unfolding run_threads
  run_threads_zero is_srv_ready h = ground (arith, is_zero_iff n.thread_a, is_zero_iff n.thread_b)

  init-events :
      (s : Side)
      → (side_hints p s).port < 2 ^ 16
      → is_zero (init p n s).0 ≡ true
      → (init p n s).1 ≡ connects_to (side_hints p s).host (decimal (side_hints p s).port) ∷ []
  unfolding srv_side_init
  init-events a fits h =
      opened_event _ _ h
      ∙ ap (λ t. connects_to p.local_host t ∷ []) (service-decimal (hints_a p) fits)
  init-events b fits h =
      opened_event _ _ h ∙ ap (λ t. connects_to p.host t ∷ []) (service-decimal (hints_b p) fits)

  if_auth_same : (r : Bool) → if_auth r ≡ (if r then sends_auth ∷ [] else [])
  if_auth_same true = refl
  if_auth_same false = refl

  unless_ready_same : (r : Bool) → unless_ready r ≡ (if r then [] else announces ∷ [])
  unless_ready_same true = refl
  unless_ready_same false = refl

  if_ciphers_same : (r : Bool) → if_ciphers r ≡ (if r then frees_ciphers ∷ [] else [])
  if_ciphers_same true = refl
  if_ciphers_same false = refl

  other_same : (s : Side) → other s ≡ (elim s [ a ↦ b | b ↦ a ])
  unfolding other
  other_same a = refl
  other_same b = refl

  run_threads_events :
      (is_srv_ready : Bool)
      → (run_threads p is_srv_ready n).0 ≡ success
      → (run_threads p is_srv_ready n).1
        ≡ starts_thread a
          ∷ starts_thread b
          ∷ (unless_ready is_srv_ready
              ++ joins_thread n.exited
                ∷ cancels_thread (other n.exited)
                ∷ closes_pipe
                ∷ if_ciphers p.rv_e2ee)
  unfolding run_threads
  run_threads_events is_srv_ready h = ground (arith, is_zero_iff n.thread_a, is_zero_iff n.thread_b)

  after_auth_zero :
      (is_srv_ready : Bool) (o : Outcome Bool) (l : List SocketEvent)
      → after_auth p is_srv_ready n o ≡ ok (success, l)
      → (o ≡ ok true)
        × ((run_threads p is_srv_ready n).0 ≡ success)
        × (l
            ≡ initializes a (init p n a).1
              ∷ initializes b (init p n b).1
              ∷ opens_pipe
              ∷ (if_auth p.rv_auth ++ (run_threads p is_srv_ready n).1))
  after_auth_zero is_srv_ready (ok true) l h = (refl, cc, cc)
  after_auth_zero is_srv_ready (ok false) l h = absurd (ground arith)
  after_auth_zero is_srv_ready error l h = absurd (cc)
  after_auth_zero is_srv_ready fault l h = absurd (cc)

  -- Without the names of the model.
  written_out :
      (is_srv_ready : Bool)
      → p.local_port < 2 ^ 16
      → p.port < 2 ^ 16
      → is_zero (init p n a).0 ≡ true
      → is_zero (init p n b).0 ≡ true
      → (run_threads p is_srv_ready n).0 ≡ success
      → (initializes a (init p n a).1
          ∷ initializes b (init p n b).1
          ∷ opens_pipe
          ∷ (if_auth p.rv_auth ++ (run_threads p is_srv_ready n).1))
        ≡ reached_events p is_srv_ready n.exited
  written_out is_srv_ready fits_a fits_b good fine ran =
      rw
        (
          init-events a fits_a good,
          init-events b fits_b fine,
          run_threads_events is_srv_ready ran,
          if_auth_same p.rv_auth,
          unless_ready_same is_srv_ready,
          if_ciphers_same p.rv_e2ee,
          other_same n.exited,
        )
        refl

  -- A connection that returns 0, with ports of 16 bits, has connected to the local host and to the relay at
  -- exactly their ports, sent the auth string whole if it is asked to, started both threads, told the
  -- daemon unless it had been told, joined the thread that ended first, cancelled the other one, closed the
  -- pipe and freed the ciphers that there were: these are its events, in this order, and no others.
  pub socket_to_socket-IsReached :
      (auth : Option Text) (is_srv_ready : Bool) (l : List SocketEvent)
      → p.local_port < 2 ^ 16
      → p.port < 2 ^ 16
      → socket_to_socket p auth is_srv_ready n ≡ ok (success, l)
      → IsReached p auth is_srv_ready n l
  unfolding socket_to_socket
  socket_to_socket-IsReached auth is_srv_ready l fits_a fits_b h =
      elim (Bool-cases (is_zero (init p n a).0)) [
        | inr bad ↦ absurd (ground (arith, bad))
        | inl good ↦ elim (Bool-cases (is_zero (init p n b).0)) [
          | inr bad ↦ absurd (ground (arith, good, bad))
          | inl fine ↦
              let (told, ran, events) =
                after_auth_zero is_srv_ready (auth_complete p.rv_auth auth n.auth_sent) l
                  (ground (arith, good, fine)) in
              record {
                local = init-connect a fits_a good;
                remote = init-connect b fits_b fine;
                told = told;
                threads = run_threads_zero is_srv_ready ran;
                events = events ∙ written_out is_srv_ready fits_a fits_b good fine ran;
              }
        ]
      ]
