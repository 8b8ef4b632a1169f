-- ===== src/Side/Stream.antt =====
-- packages/c/srv/src/srv.c and side.c: aes_ctr_crypt_stream as the transformer of a side, and two such
-- sides with a network between them. The place in the stream stands for the counter, the offset and the
-- block that a transformer keeps.
pub mod Tests
use zettahealthonramp.Base.{
  ℕ, zero, suc, ◌+◌, ◌<◌, ◌≡◌, refl, sym, ap, ap₂, ◌∙◌, false, true, Option, none, some, List, [],
  ◌∷◌, ◌++◌, arith, if◌then◌else◌, Text, concat, length, All,
}
use zettahealthonramp.Code.{is_zero, success, ℤ}
use zettahealthonramp.Side.{srv_side_handle, Hints}
use zettahealthonramp.Side.Relay.{full_answers, outputs, srv_side_handle-outputs, Transforms}

-- `mbedtls_aes_crypt_ctr` at a place of the stream: what it answers and what it writes.
abbrev pub CryptCtr : Type 0
CryptCtr = ℕ → Text → ℤ × Text

unfoldable pub aes_ctr_crypt_stream : CryptCtr → ℕ → Text → Option Text
aes_ctr_crypt_stream crypt_ctr place input =
    if is_zero (crypt_ctr place input).0 then some (crypt_ctr place input).1 else none

-- The place in the stream at which a chunk begins.
abbrev pub place_of : List Text → ℕ → ℕ
place_of [] k = 0
place_of (c ∷ cs) zero = 0
place_of (c ∷ cs) (suc k) = length c + place_of cs k

-- A client of another client, whose transformer has the state that the chunks before leave.
abbrev pub stream_hints : CryptCtr → List Text → Hints
stream_hints crypt_ctr chunks = record {
  is_server = false;
  other_is_server = false;
  has_transformer = true;
  transform = λ k c. aes_ctr_crypt_stream crypt_ctr (place_of chunks k) c;
}

-- The counter mode: no call fails, a text may be handed over in parts, and the same call undoes it.
pub record IsCounterMode (crypt_ctr : CryptCtr) : Type 0 where
  pub answers : (n : ℕ) (t : Text) → (crypt_ctr n t).0 ≡ success
  pub keeps : (n : ℕ) (t : Text) → length (crypt_ctr n t).1 ≡ length t
  pub splits :
      (n : ℕ) (t u : Text)
      → (crypt_ctr n (t ++ u)).1 ≡ (crypt_ctr n t).1 ++ (crypt_ctr (n + length t) u).1
  pub undoes : (n : ℕ) (t : Text) → (crypt_ctr n (crypt_ctr n t).1).1 ≡ t

outputs-shift :
    (g : ℕ → Text → Text) (k : ℕ) (cs : List Text)
    → outputs g (suc k) cs ≡ outputs (λ j. g (suc j)) k cs
outputs-shift g k [] = refl
outputs-shift g k (c ∷ cs) = ap (λ t. g (suc k) c ++ t) (outputs-shift g (suc k) cs)

outputs-same :
    (f g : ℕ → Text → Text) (k : ℕ) (cs : List Text)
    → ((j : ℕ) (c : Text) → f j c ≡ g j c)
    → outputs f k cs ≡ outputs g k cs
outputs-same f g k [] h = refl
outputs-same f g k (c ∷ cs) h = ap₂ (λ t u. t ++ u) (h k c) (outputs-same f g (suc k) cs h)

no_bytes : (t : Text) → length t ≡ 0 → [] ≡ t
no_bytes [] h = refl
no_bytes (c ∷ t) h = absurd (ground arith)

module _ (crypt_ctr : CryptCtr) (mode : IsCounterMode crypt_ctr) where
  -- What a side writes for a chunk of the list, behind `n` bytes.
  abbrev written : ℕ → List Text → ℕ → Text → Text
  written n chunks k c = (crypt_ctr (n + place_of chunks k) c).1

  none_written : (n : ℕ) → [] ≡ (crypt_ctr n []).1
  none_written n = no_bytes (crypt_ctr n []).1 (mode.keeps n [])

  outputs-concat :
      (n : ℕ) (chunks : List Text)
      → outputs (written n chunks) 0 chunks ≡ (crypt_ctr n (concat chunks)).1
  outputs-concat n [] = none_written n
  outputs-concat n (c ∷ cs) =
      ap₂ (λ t u. t ++ u) (ap (λ m. (crypt_ctr m c).1) (omega arith))
        (outputs-shift (written n (c ∷ cs)) 0 cs
          ∙ outputs-same _ (written (n + length c) cs) 0 cs
              (λ j d. ap (λ m. (crypt_ctr m d).1) (omega arith))
          ∙ outputs-concat (n + length c) cs)
      ∙ sym (mode.splits n c (concat cs))

  stream-Transforms :
      (chunks : List Text) → Transforms (stream_hints crypt_ctr chunks) (written 0 chunks)
  unfolding aes_ctr_crypt_stream
  stream-Transforms chunks = record {
    reads = refl;
    writes = refl;
    makes = λ k c.
        rw (mode.answers (place_of chunks k) c) (ap (λ m. some (crypt_ctr m c).1) (omega arith));
    keeps = λ k c. mode.keeps (0 + place_of chunks k) c;
  }

  -- What a side sends is its input in counter mode, however the input was cut.
  side-concat :
      (chunks : List Text)
      → All (λ c. 0 < length c) chunks
      → srv_side_handle (stream_hints crypt_ctr chunks) chunks (full_answers chunks)
        ≡ (crypt_ctr 0 (concat chunks)).1
  side-concat chunks ne =
      srv_side_handle-outputs (stream_hints crypt_ctr chunks) (written 0 chunks) chunks
        (stream-Transforms chunks) ne
      ∙ outputs-concat 0 chunks

  -- If every send takes all that it is given and the cipher is in counter mode with the same key, what
  -- one side encrypts in chunks and the other side decrypts in chunks, cut by the network in whatever
  -- way, is what went in.
  pub srv_side_handle-recovers :
      (chunks received : List Text)
      → All (λ c. 0 < length c) chunks
      → All (λ c. 0 < length c) received
      → concat received
        ≡ srv_side_handle (stream_hints crypt_ctr chunks) chunks (full_answers chunks)
      → srv_side_handle (stream_hints crypt_ctr received) received (full_answers received)
        ≡ concat chunks
  srv_side_handle-recovers chunks received ne me e =
      side-concat received me
      ∙ ap (λ t. (crypt_ctr 0 t).1) (e ∙ side-concat chunks ne)
      ∙ mode.undoes 0 (concat chunks)
