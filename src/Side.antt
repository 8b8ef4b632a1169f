-- ===== src/Side.antt =====
-- packages/c/srv/src/side.c: one side of a socket connection, which hands what it reads to the other
-- side. The answers of the network are arguments.
pub mod Relay
pub mod Connect
pub mod Stream
use zettahealthonramp.Base.{
  ℕ, zero, suc, ◌-◌, Bool, Option, none, some, List, [], ◌∷◌, ◌++◌, if◌then◌else◌, Text, length,
  take,
}
use zettahealthonramp.Code.{ℤ, pos, negsuc}

-- What the other side was sent, and the answers of later calls of `mbedtls_net_send`.
pub record Sent : Type 0 where
  pub bytes : Text
  pub answers : List ℤ

-- `while (len > 0)`: each round sends from the start of the buffer. An answer is the number of
-- bytes that the call took, which is at most `len`, or negative. Without an answer the call blocks.
unfoldable pub send_loop : Text → ℕ → List ℤ → Sent
send_loop buffer len [] = record { bytes = []; answers = [] }
send_loop buffer zero (a ∷ answers) = record { bytes = []; answers = a ∷ answers }
send_loop buffer (suc len) (negsuc e ∷ answers) = record { bytes = []; answers = answers }
send_loop buffer (suc len) (pos n ∷ answers) =
    let rest = send_loop buffer (suc len - n) answers in
    record rest { bytes = take n buffer ++ rest.bytes }

-- What a side is started with. The transformer has a state, so it is given the number of the round;
-- `none` is an error.
pub record Hints : Type 0 where
  pub is_server : Bool
  pub other_is_server : Bool
  pub has_transformer : Bool
  pub transform : ℕ → Text → Option Text

abbrev pub transformed : Hints → ℕ → Text → Option Text
transformed h k chunk = if h.has_transformer then h.transform k chunk else some chunk

-- The receive loop, over what `mbedtls_net_recv` gives in turn until it gives nothing more: the
-- bytes that the other side is sent. A side that is a server stops the whole process.
unfoldable pub relay : Hints → ℕ → List Text → List ℤ → Text
relay h k [] answers = []
relay h k (chunk ∷ chunks) answers = elim (transformed h k chunk) [
  | none ↦ []
  | some out ↦
      if h.other_is_server
      then []
      else let sent = send_loop out (length chunk) answers in
        sent.bytes ++ relay h (suc k) chunks sent.answers
]

unfoldable pub srv_side_handle : Hints → List Text → List ℤ → Text
srv_side_handle h chunks answers = if h.is_server then [] else relay h 0 chunks answers
