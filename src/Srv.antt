-- ===== src/Srv.antt =====
-- packages/c/srv/src/srv.c: the daemon side of srv, its ciphers and its control loop. What mbedtls,
-- atchops, malloc and pthreads answer are arguments.
pub mod Ciphers
pub mod Connections
pub mod Multi
pub mod Failures
pub mod Socket
pub mod Tests
use zettahealthonramp.Base.{
  ℕ, zero, suc, ◌-◌, Bool, true, false, not, ◌&&◌, ◌||◌, Option, none, some, List, [], ◌∷◌, ◌++◌,
  ◌==◌, if◌then◌else◌, Text, codes, length, str_eq, ◌>>=◌, c_str, Outcome, ok, error, fault,
}
use zettahealthonramp.Code.{is_zero, success, minus_one, ℤ, pos}
use zettahealthonramp.Control.{process_multiple_requests, parse_control_message, Message}

-- The base64 decoder and the key schedule.
pub record Crypto : Type 0 where
  pub base64_decode : Text → ℤ
  pub base64_decoded : Text → Text
  pub setkey_enc : Text → ℤ

-- The state of a `chunked_transformer_t` that was set up; both directions begin with the same.
pub record Cipher : Type 0 where
  pub aes_key : Text
  pub nonce_counter : Text
  pub nc_off : ℕ
  pub stream_block : Text

abbrev pub zeros : ℕ → Text
zeros zero = []
zeros (suc n) = 0 ∷ zeros n

module _ (C : Crypto) where
  open C use {base64_decode, base64_decoded, setkey_enc}

  abbrev pub cipher : Text → Text → Cipher
  cipher key iv = record {
    aes_key = base64_decoded key;
    nonce_counter = base64_decoded iv;
    nc_off = 0;
    stream_block = zeros 16;
  }

  -- The code that is returned, and the cipher if the transform functions were set. A wrong length
  -- is returned as the 0 of the decoder.
  unfoldable pub create_encrypter_and_decrypter : Text → Text → ℤ × Option Cipher
  create_encrypter_and_decrypter key iv =
      if not (is_zero (base64_decode key)) || not (length (base64_decoded key) == 32)
      then (base64_decode key, none)
      else if not (is_zero (setkey_enc (base64_decoded key)))
      then (setkey_enc (base64_decoded key), none)
      else if not (is_zero (base64_decode iv)) || not (length (base64_decoded iv) == 16)
      then (base64_decode iv, none)
      else (base64_decode iv, some (cipher key iv))

-- What is answered to one `connect`: the two transformers, the thread's parameters, the thread.
pub record Answers : Type 0 where
  pub transformers_allocated : Bool
  pub params_allocated : Bool
  pub thread_created : ℤ

-- What one request comes to. `starts` has the cipher of the new thread, `none` if its transformers
-- were not set up; `leaves` goes to the label `exit` with a code.
pub data Verdict : Type 0 where
  starts : Option Cipher → Verdict
  ignores : Verdict
  leaves : ℤ → Verdict

-- The second string is a literal and not the iv of the request.
unfoldable pub no_encrypt : Message → Bool
no_encrypt m =
    str_eq m.aes_key (codes "no") && str_eq (codes "new_session_aes_iv_string") (codes "encrypt")

-- The code of the ciphers is written over by that of the thread.
unfoldable pub start_session : Crypto → Answers → Message → Verdict
unfolding no_encrypt
start_session C a m =
    let made = create_encrypter_and_decrypter C m.aes_key m.aes_iv in
    if not a.transformers_allocated
    then leaves success
    else if not a.params_allocated
    then leaves (if no_encrypt m then success else made.0)
    else if not (is_zero a.thread_created)
    then leaves a.thread_created
    else if no_encrypt m
    then starts none
    else starts made.1

unfoldable pub handle_message : Crypto → Answers → Message → Verdict
handle_message C a m =
    if str_eq m.message_type (codes "connect") then start_session C a m else ignores

-- How srv ends: with a code, by an access outside of a buffer, or by a call of a transform function
-- that was never set.
pub data Ending : Type 0 where
  exits : ℤ → Ending
  overruns calls_unset : Ending

-- The threads that were started, and the end, if it came.
pub record Batch : Type 0 where
  pub started : List (Option Cipher)
  pub ending : Option Ending

abbrev pub ends : Ending → Batch
ends e = record { started = []; ending = some e }

abbrev pub proceeds : Verdict → Batch → Batch
proceeds (starts c) rest = record rest { started = c ∷ rest.started }
proceeds ignores rest = rest
proceeds (leaves code) rest = ends (exits code)

abbrev pub handle_parsed : Crypto → Answers → Outcome Message → Batch → Batch
handle_parsed C a (ok m) rest = proceeds (handle_message C a m) rest
handle_parsed C a error rest = ends (exits minus_one)
handle_parsed C a fault rest = ends overruns

-- The loop over the requests of one buffer; the answers are given by the request's number.
unfoldable pub handle_requests : Crypto → (ℕ → Answers) → ℕ → List Text → Batch
handle_requests C answers i [] = record { started = []; ending = none }
handle_requests C answers i (r ∷ rs) =
    let rest = handle_requests C answers (suc i) rs in
    handle_parsed C (answers i) (parse_control_message r) rest

-- What one round of the control loop meets: the bytes that were read, 4096 at most, what the control
-- side's transformer answers and writes, and the other answers.
pub record Round : Type 0 where
  pub received : Text
  pub output_allocated : Bool
  pub transform_code : ℤ
  pub output : Text
  pub requests_allocated : ℕ → Bool
  pub answers : ℕ → Answers

abbrev pub buffer_len : ℕ
buffer_len = 4096

-- The C string in a buffer of zeros that these bytes were written to; without a NUL it is read
-- past its end.
unfoldable pub buffered : Text → Outcome Text
buffered s = c_str (s ++ zeros (buffer_len - length s)) >>= λ r. ok r.0

abbrev pub handle_split : Crypto → Round → Outcome (List Text) → Batch
handle_split C r (ok rs) = handle_requests C r.answers 0 rs
handle_split C r error = ends (exits minus_one)
handle_split C r fault = ends overruns

unfoldable pub handle_buffer : Crypto → Round → Text → Batch
unfolding buffered
handle_buffer C r s =
    handle_split C r (buffered s >>= λ t. process_multiple_requests r.requests_allocated t)

-- The transformer of a side: none, one whose functions were set, and one where they were not.
pub data Transformer : Type 0 where
  no_transformer set_transformer unset_transformer : Transformer

unfoldable pub side_transformer : Bool → Option Cipher → Transformer
side_transformer false c = no_transformer
side_transformer true none = unset_transformer
side_transformer true (some c) = set_transformer

-- The length of the read is its `res`, which is returned where the output is not allocated.
unfoldable pub handle_round : Crypto → Transformer → Round → Batch
handle_round C no_transformer r = handle_buffer C r r.received
handle_round C set_transformer r =
    if not r.output_allocated
    then ends (exits (pos (length r.received)))
    else if not (is_zero r.transform_code)
    then ends (exits r.transform_code)
    else handle_buffer C r r.output
handle_round C unset_transformer r =
    if not r.output_allocated then ends (exits (pos (length r.received))) else ends calls_unset

-- A batch, and the rest of the loop if the batch does not end it.
unfoldable pub then_rest :
    Option Ending
    → List (Option Cipher)
    → List (Option Cipher) × Ending
    → List (Option Cipher) × Ending
then_rest (some e) started rest = (started, e)
then_rest none started rest = (started ++ rest.0, rest.1)

-- The loop over the rounds; the last read answers `last`, which is not positive.
unfoldable pub control_loop : Crypto → Transformer → List Round → ℤ → List (Option Cipher) × Ending
unfolding then_rest
control_loop C t [] last = ([], exits last)
control_loop C t (r ∷ rs) last =
    let rest = control_loop C t rs last in
    then_rest (handle_round C t r).ending (handle_round C t r).started rest
