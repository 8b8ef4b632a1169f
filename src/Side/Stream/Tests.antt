-- ===== src/Side/Stream/Tests.antt =====
-- A run of two sides of packages/c/srv/src/side.c, and the theorem at it.
use zettahealthonramp.Base.{
  ℕ, suc, ◌+◌, ◌-◌, ◌%◌, ◌≡◌, refl, ap, ap₂, List, [], ◌∷◌, map, map-append, arith, ◌==◌,
  if◌then◌else◌, Text, codes, concat, length,
}
use zettahealthonramp.Code.{success}
use zettahealthonramp.Side.{send_loop, relay, srv_side_handle}
use zettahealthonramp.Side.Relay.{full_answers}
use zettahealthonramp.Side.Stream.{
  CryptCtr, aes_ctr_crypt_stream, stream_hints, IsCounterMode, srv_side_handle-recovers,
}

-- A cipher that changes the last bit of each byte.
abbrev flip : ℕ → ℕ
flip c = if c % 2 == 0 then c + 1 else c - 1

abbrev flip_bits : CryptCtr
flip_bits place t = (success, map flip t)

flip-flip : (c : ℕ) → flip (flip c) ≡ c
flip-flip c = ground arith

length-flipped : (t : Text) → length (map flip t) ≡ length t
length-flipped [] = refl
length-flipped (c ∷ t) = ap suc (length-flipped t)

flipped_twice : (t : Text) → map flip (map flip t) ≡ t
flipped_twice [] = refl
flipped_twice (c ∷ t) = ap₂ (λ d u. d ∷ u) (flip-flip c) (flipped_twice t)

flip_bits-IsCounterMode : IsCounterMode flip_bits
flip_bits-IsCounterMode = record {
  answers = λ n t. refl;
  keeps = λ n t. length-flipped t;
  splits = λ n t u. map-append flip t u;
  undoes = λ n t. flipped_twice t;
}

abbrev sent : List Text
sent = codes "ab" ∷ codes "c" ∷ []

-- The network cuts the stream in another place.
abbrev arrived : List Text
arrived = codes "`" ∷ codes "cb" ∷ []

arrived-sent :
    concat arrived ≡ srv_side_handle (stream_hints flip_bits sent) sent (full_answers sent)
unfolding srv_side_handle relay send_loop aes_ctr_crypt_stream
arrived-sent = refl

srv_side_handle-recovers_example :
    srv_side_handle (stream_hints flip_bits arrived) arrived (full_answers arrived) ≡ concat sent
srv_side_handle-recovers_example =
    srv_side_handle-recovers flip_bits flip_bits-IsCounterMode sent arrived
      (omega arith, (omega arith, tt)) (omega arith, (omega arith, tt)) arrived-sent
