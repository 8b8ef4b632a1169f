-- ===== src/Srv/Failures.antt =====
-- Where packages/c/srv/src/srv.c gives up the control channel.
use zettahealthonramp.Base.{◌<◌, ◌≡◌, refl, List, [], ◌∷◌, ◌++◌, Text, length, Lacks}
use zettahealthonramp.Code.{minus_one, ℤ}
use zettahealthonramp.Control.Tokens.{IsToken, always, process_multiple_requests_line}
use zettahealthonramp.Control.Messages.{StartsSolid, EndsSolid, parse_control_message_cut}
use zettahealthonramp.Srv.Connections.{buffered-text}
use zettahealthonramp.Srv.{
  handle_requests, buffer_len, handle_buffer, handle_round, control_loop, Crypto, Round, exits,
  no_transformer,
}

-- A request that arrives in two reads, the first of which stops in its key, ends the channel: no
-- thread is started, and no later read is looked at.
control_loop_cut :
    (C : Crypto) (r : Round) (rs : List Round) (last : ℤ) (t k : Text)
    → IsToken b':' t
    → IsToken b':' k
    → StartsSolid t
    → EndsSolid k
    → IsToken b'\n' (t ++ b':' ∷ k)
    → Lacks 0 (t ++ b':' ∷ k)
    → length (t ++ b':' ∷ k) < buffer_len
    → r.requests_allocated ≡ always
    → r.received ≡ t ++ b':' ∷ k
    → control_loop C no_transformer (r ∷ rs) last ≡ ([], exits minus_one)
unfolding control_loop handle_round handle_buffer handle_requests
control_loop_cut C r rs last t k ht hk st ek line nul fits alloc is =
    rw
      (
        is,
        buffered-text (t ++ b':' ∷ k) nul fits,
        alloc,
        process_multiple_requests_line (t ++ b':' ∷ k) line,
        parse_control_message_cut t k ht hk st ek,
      )
      refl
