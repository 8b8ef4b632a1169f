-- ===== src/Srv/Connections.antt =====
-- The control loop of packages/c/srv/src/srv.c: one thread for each request to connect.
use zettahealthonramp.Base.{
  ℕ, zero, suc, ◌-◌, ◌<◌, ◌≡◌, refl, ap, ◌∙◌, ◌≢◌, true, false, Option, none, List, [], ◌∷◌, ◌++◌,
  map, arith, Text, codes, length, All, All-append, str_eq, str_eq_iff, Lacks, c_str-append, ok,
}
use zettahealthonramp.Code.{success, ℤ}
use zettahealthonramp.Control.{Message}
use zettahealthonramp.Control.Tokens.{
  IsToken, print_lines, always, process_multiple_requests-print_lines,
}
use zettahealthonramp.Control.Messages.{
  EndsSolid, print_message, parse_control_message-print_message, IsMessage,
}
use zettahealthonramp.Srv.{
  zeros, create_encrypter_and_decrypter, no_encrypt, start_session, handle_message, handle_requests,
  buffer_len, buffered, handle_buffer, handle_round, control_loop, Crypto, Cipher, Answers, Round,
  Transformer, starts, exits, no_transformer, set_transformer, unset_transformer,
}

-- A request to connect that the other side may send.
pub record IsConnect (m : Message) : Type 0 where
  pub message : IsMessage m
  pub iv_ends : EndsSolid m.aes_iv
  pub one_line : IsToken b'\n' (print_message m)
  pub no_nul : Lacks 0 (print_message m)
  pub connects : m.message_type ≡ codes "connect"

-- Each allocation succeeds, and each thread starts.
pub record IsGranted (answers : ℕ → Answers) : Type 0 where
  pub transformers : (i : ℕ) → (answers i).transformers_allocated ≡ true
  pub parameters : (i : ℕ) → (answers i).params_allocated ≡ true
  pub threads : (i : ℕ) → (answers i).thread_created ≡ success

-- The cipher of the thread for a request.
abbrev pub thread_cipher : Crypto → Message → Option Cipher
thread_cipher C m = (create_encrypter_and_decrypter C m.aes_key m.aes_iv).1

-- The text that would switch encryption off is compared with the wrong string.
no_encrypt-false : (m : Message) → no_encrypt m ≡ false
unfolding no_encrypt str_eq
no_encrypt-false m = ground arith

start_session-starts :
    (C : Crypto) (a : Answers) (m : Message)
    → a.transformers_allocated ≡ true
    → a.params_allocated ≡ true
    → a.thread_created ≡ success
    → start_session C a m ≡ starts (thread_cipher C m)
unfolding start_session
start_session-starts C a m t p c = ground (arith, no_encrypt-false m)

handle_message-starts :
    (C : Crypto) (answers : ℕ → Answers) (i : ℕ) (m : Message)
    → IsGranted answers
    → m.message_type ≡ codes "connect"
    → handle_message C (answers i) m ≡ starts (thread_cipher C m)
unfolding handle_message
handle_message-starts C answers i m g e =
    rw ((str_eq_iff m.message_type (codes "connect")).1 e)
      (start_session-starts C (answers i) m (g.transformers i) (g.parameters i) (g.threads i))

handle_requests-started :
    (C : Crypto) (answers : ℕ → Answers) (i : ℕ) (ms : List Message)
    → IsGranted answers
    → All IsConnect ms
    → handle_requests C answers i (map print_message ms)
      ≡ record { started = map (thread_cipher C) ms; ending = none }
unfolding handle_requests
handle_requests-started C answers i [] g h = refl
handle_requests-started C answers i (m ∷ ms) g (hm, h) =
    rw
      (
        parse_control_message-print_message [] m tt hm.message hm.iv_ends,
        handle_message-starts C answers i m g hm.connects,
        handle_requests-started C answers (suc i) ms g h,
      )
      refl

zeros-pos : (k : ℕ) → 0 < k → zeros k ≡ 0 ∷ zeros (k - 1)
zeros-pos zero h = elim h [ ]
zeros-pos (suc k) h = ap (λ n. 0 ∷ zeros n) (omega arith)

pub buffered-text : (s : Text) → Lacks 0 s → length s < buffer_len → buffered s ≡ ok s
unfolding buffered
buffered-text s h lt =
    rw (zeros-pos (buffer_len - length s) (omega arith))
      (rw (c_str-append s (zeros (buffer_len - length s - 1)) h) refl)

-- What the other side sends in one piece.
abbrev pub lines : List Message → Text
lines ms = print_lines (map print_message ms)

lines-Lacks : (ms : List Message) → All IsConnect ms → Lacks 0 (lines ms)
unfolding print_lines
lines-Lacks [] h = tt
lines-Lacks (m ∷ ms) (hm, h) =
    All-append (λ c. c ≢ 0) (print_message m) _ hm.no_nul (omega arith, lines-Lacks ms h)

lines-IsToken : (ms : List Message) → All IsConnect ms → All (IsToken b'\n') (map print_message ms)
lines-IsToken [] h = tt
lines-IsToken (m ∷ ms) (hm, h) = (hm.one_line, lines-IsToken ms h)

-- The bytes that a round works on: what was read, or what the transformer makes of it.
abbrev pub carried : Transformer → Round → Text
carried no_transformer r = r.received
carried set_transformer r = r.output
carried unset_transformer r = r.received

-- A round that carries whole requests, and in which nothing fails.
pub record Carries (t : Transformer) (r : Round) (ms : List Message) : Type 0 where
  pub is_set : t ≢ unset_transformer
  pub output_allocated : r.output_allocated ≡ true
  pub transformed : r.transform_code ≡ success
  pub requests_allocated : r.requests_allocated ≡ always
  pub granted : IsGranted r.answers
  pub requests : All IsConnect ms
  pub fits : length (lines ms) < buffer_len
  pub carries : carried t r ≡ lines ms

handle_buffer-started :
    (C : Crypto) (r : Round) (ms : List Message)
    → r.requests_allocated ≡ always
    → IsGranted r.answers
    → All IsConnect ms
    → length (lines ms) < buffer_len
    → handle_buffer C r (lines ms) ≡ record { started = map (thread_cipher C) ms; ending = none }
unfolding handle_buffer
handle_buffer-started C r ms alloc granted h fits =
    rw
      (
        buffered-text (lines ms) (lines-Lacks ms h) fits,
        alloc,
        process_multiple_requests-print_lines (map print_message ms) (lines-IsToken ms h),
      )
      (handle_requests-started C r.answers 0 ms granted h)

handle_round-carried :
    (C : Crypto) (t : Transformer) (r : Round) (ms : List Message)
    → Carries t r ms
    → handle_round C t r ≡ handle_buffer C r (carried t r)
unfolding handle_round
handle_round-carried C no_transformer r ms c = refl
handle_round-carried C set_transformer r ms c = ground arith
handle_round-carried C unset_transformer r ms c = absurd (c.is_set refl)

handle_round-started :
    (C : Crypto) (t : Transformer) (r : Round) (ms : List Message)
    → Carries t r ms
    → handle_round C t r ≡ record { started = map (thread_cipher C) ms; ending = none }
handle_round-started C t r ms c =
    handle_round-carried C t r ms c
    ∙ ap (handle_buffer C r) c.carries
    ∙ handle_buffer-started C r ms c.requests_allocated c.granted c.requests c.fits

-- The rounds carry these requests, each as many as fit.
abbrev pub AllCarry : Transformer → List Round → List (List Message) → Type 0
AllCarry t [] [] = Unit
AllCarry t (r ∷ rs) (ms ∷ mss) = Carries t r ms × AllCarry t rs mss
AllCarry t _ _ = ⊥

abbrev pub all_threads : Crypto → List (List Message) → List (Option Cipher)
all_threads C [] = []
all_threads C (ms ∷ mss) = map (thread_cipher C) ms ++ all_threads C mss

-- Over any number of reads of a control channel that is plain or decrypted, each of which carries whole
-- lines that are well-formed requests to connect, without a NUL and together below 4096 bytes, and while
-- no allocation, decryption or creation of a thread fails: each request starts exactly one thread, in the
-- order of the requests, with the cipher of its own key and iv, and the loop ends with the code of the
-- last read. No such request switches encryption off.
pub control_loop-threads :
    (C : Crypto) (t : Transformer) (rs : List Round) (mss : List (List Message)) (last : ℤ)
    → AllCarry t rs mss
    → control_loop C t rs last ≡ (all_threads C mss, exits last)
unfolding control_loop
control_loop-threads C t [] [] last h = refl
control_loop-threads C t (r ∷ rs) (ms ∷ mss) last (c, h) = rw (handle_round-started C t r ms c) (
    ap (λ rest. (map (thread_cipher C) ms ++ rest.0, rest.1))
      (control_loop-threads C t rs mss last h))
control_loop-threads C t [] (ms ∷ mss) last h = absurd h
control_loop-threads C t (r ∷ rs) [] last h = absurd h
