-- ===== src/Composition/Main.antt =====
-- packages/c/srv/src/main.c: the parameters that params.c lets through, and srv.c that runs on them.
use zettahealthonramp.Base.{
  ◌≡◌, refl, sym, ap, ◌∙◌, inl, inr, Bool, true, false, not, ◌||◌, Option, none, some, List, arith,
  Bool-cases, Option-cases, is_some, Text, ◌>>=◌, Outcome, ok, error, fault,
}
use zettahealthonramp.SrvParams.{parse_srv_params, SrvParams, SrvEnvironment}
use zettahealthonramp.SrvParams.Complete.{parse_srv_params-IsComplete, IsComplete}
use zettahealthonramp.Srv.{create_encrypter_and_decrypter, Crypto, Cipher, Transformer}
use zettahealthonramp.Srv.Multi.{auth_complete, session_cipher, Session}
use zettahealthonramp.Code.{is_zero, failure, ℤ}
use zettahealthonramp.Srv.Socket.{
  init, after_auth, socket_to_socket, run_srv_daemon_side_single, run_srv, SocketEvent,
  SocketAnswers, Run, a, b, single, leaves_process,
}

abbrev null_environment : SrvEnvironment
null_environment = record {
  rvd_auth_string = none;
  session_aes_key_string = none;
  session_aes_iv_string = none;
}

-- A result, in place of an access outside of a buffer.
abbrev pub is_ok {ℓ} : {A : Type ℓ} → Outcome A → Bool
is_ok (ok x) = true
is_ok error = false
is_ok fault = false

is_ok-map {ℓ κ} :
    {A : Type ℓ} {B : Type κ} (o : Outcome A) (f : A → B)
    → is_ok o ≡ true
    → is_ok (o >>= λ r. ok (f r)) ≡ true
is_ok-map (ok x) f h = refl
is_ok-map error f h = h
is_ok-map fault f h = h

auth_complete_total :
    (on : Bool) (auth : Option Text) (sent : ℤ)
    → (not on || is_some auth) ≡ true
    → (complete : Bool) × (auth_complete on auth sent ≡ ok complete)
unfolding auth_complete
auth_complete_total false auth sent h = (true, refl)
auth_complete_total true none sent h = absurd (ground arith)
auth_complete_total true (some s) sent h = (_, refl)

after_auth_total :
    (p : SrvParams) (n : SocketAnswers) (complete : Bool)
    → is_ok (after_auth p false n (ok complete)) ≡ true
after_auth_total p n true = refl
after_auth_total p n false = refl

abbrev run_parsed : Crypto → SocketAnswers → Session → Option SrvParams → Run
run_parsed C n s none = leaves_process failure
run_parsed C n s (some p) = run_srv C p n s

-- From the parameters that argparse leaves.
unfoldable pub srv_main : Crypto → SrvEnvironment → SrvParams → SocketAnswers → Session → Run
srv_main C inherited p n s = run_parsed C n s (parse_srv_params null_environment inherited p)

module _ (C : Crypto) (q : SrvParams) where
  session_cipher_total :
      (not q.rv_e2ee || is_some q.session_aes_key_string) ≡ true
      → (not q.rv_e2ee || is_some q.session_aes_iv_string) ≡ true
      → (c : Option Cipher) × (session_cipher C q ≡ ok c)
  unfolding session_cipher
  session_cipher_total hk hi = elim (Bool-cases q.rv_e2ee) [
    | inr off ↦ rw off (none, refl)
    | inl on ↦ elim (Option-cases q.session_aes_key_string) [
      | inl no_key ↦ absurd (ground (arith, on, no_key))
      | inr (key, has_key) ↦ elim (Option-cases q.session_aes_iv_string) [
        | inl no_iv ↦ absurd (ground (arith, on, no_iv))
        | inr (iv, has_iv) ↦
            rw (on, has_key, has_iv) ((create_encrypter_and_decrypter C key iv).1, refl)
      ]
    ]
  ]

  socket_to_socket_total :
      (n : SocketAnswers)
      → (not q.rv_auth || is_some q.rvd_auth_string) ≡ true
      → is_ok (socket_to_socket q q.rvd_auth_string false n) ≡ true
  unfolding socket_to_socket
  socket_to_socket_total n h = elim (Bool-cases (is_zero (init q n a).0)) [
    | inr bad ↦ rw bad refl
    | inl good ↦ elim (Bool-cases (is_zero (init q n b).0)) [
      | inr bad ↦ rw (good, bad) refl
      | inl fine ↦
          let (complete, is) = auth_complete_total q.rv_auth q.rvd_auth_string n.auth_sent h in
          rw (good, fine, is) (after_auth_total q n complete)
    ]
  ]

  single_total :
      (given inherited : SrvEnvironment) (p : SrvParams) (n : SocketAnswers)
      → IsComplete given inherited p q
      → is_ok (run_srv_daemon_side_single C q n) ≡ true
  unfolding run_srv_daemon_side_single
  single_total given inherited p n full =
      let (c, is) = session_cipher_total full.has_key full.has_iv in
      rw is (
        is_ok-map (socket_to_socket q q.rvd_auth_string false n) _
          (socket_to_socket_total n full.has_auth))

  run_single :
      (n : SocketAnswers) (s : Session) (o : Outcome (Transformer × (ℤ × List SocketEvent)))
      → run_srv C q n s ≡ single o
      → run_srv_daemon_side_single C q n ≡ o
  unfolding run_srv
  run_single n s o h = elim (Bool-cases q.bind_local_port) [
    | inl bound ↦ absurd (ground (arith, bound))
    | inr free ↦ elim (Bool-cases q.multi) [
      | inl many ↦ absurd (ground (arith, free, many))
      | inr one ↦ ground (arith, free, one)
    ]
  ]

module _ (C : Crypto) (inherited : SrvEnvironment) (p : SrvParams) (n : SocketAnswers) where
  parsed_total :
      (s : Session) (o : Outcome (Transformer × (ℤ × List SocketEvent))) (parsed : Option SrvParams)
      → parse_srv_params null_environment inherited p ≡ parsed
      → run_parsed C n s parsed ≡ single o
      → is_ok o ≡ true
  parsed_total s o none e h = absurd (ground arith)
  parsed_total s o (some q) e h =
      ap is_ok (sym (run_single C q n s o h))
      ∙ single_total C q null_environment inherited p n
          (parse_srv_params-IsComplete null_environment inherited p q e)

  -- Where the main function of srv runs the single-session mode, no null string is followed, whatever
  -- the options, the environment and the network are.
  pub srv_main_single :
      (s : Session) (o : Outcome (Transformer × (ℤ × List SocketEvent)))
      → srv_main C inherited p n s ≡ single o
      → is_ok o ≡ true
  unfolding srv_main
  srv_main_single s o h = parsed_total s o (parse_srv_params null_environment inherited p) refl h
