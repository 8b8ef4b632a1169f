-- ===== src/Handler/Releases/Leaks.antt =====
-- What handle_ssh_request.c and the key exchange of handler_commons.c do not release.
use zettahealthonramp.Base.{
  ℕ, ◌+◌, ◌≡◌, refl, ◌≢◌, Bool, true, false, Option, none, some, [], ◌∷◌, arith, Text, codes,
  length, strncmp,
}
use zettahealthonramp.Code.{success, failure, ℤ}
use zettahealthonramp.PermitOpen.{signed}
use zettahealthonramp.Handler.World.{
  log, value, return, hits, allocs, frees, Notification, World, Trace, envelope, rvd_auth_string,
  session_aes_key, session_iv, alloc, failed, got, done, crash,
}
use zettahealthonramp.Handler.Traces.{Moves-done, Moves-frame, Moves-bind_value, Moves}
use zettahealthonramp.Handler.Envelope.{
  item, verify_envelope_contents, extract_envelope_from_notification,
  verify_envelope_signature_from, payload_type_ssh,
}
use zettahealthonramp.Handler.Session.{check_key_type, setup_rvd_session_encryption}
use zettahealthonramp.Handler.Request.{
  auth_if_asked, keys_if_asked, ssh_keyed, ssh_authenticated, ssh_verified, ssh_received,
  handle_ssh_request, RequestParams,
}
use zettahealthonramp.Handler.Releases.Envelopes.{
  verify_envelope_signature_from-Moves, extract_envelope-Moves,
}
use zettahealthonramp.Handler.Releases.{
  nothing, held_auth, held_keys, held_envelope, auth_if_asked-Moves, keys_if_asked-Moves, IsKept,
}

strncmp-eq : (t u : Text) → length t ≡ length u → strncmp (length u) t u ≡ false → t ≡ u
unfolding strncmp
strncmp-eq [] [] l h = refl
strncmp-eq [] (d ∷ u) l h = absurd (omega arith)
strncmp-eq (c ∷ t) [] l h = absurd (omega arith)
strncmp-eq (c ∷ t) (d ∷ u) l h = ground (arith, strncmp-eq t u)

module _ (W : World) where
  open W use {Json, string_value}

  check_unsupported :
      (pk : Option Text) (t : Text)
      → t ≢ codes "rsa2048"
      → check_key_type W pk t ≡ return (failed failure)
  unfolding check_key_type
  check_unsupported pk t ne = ground (arith, strncmp-eq t (codes "rsa2048"))

  -- Where the type of the client's key is not rsa2048, the session key and the iv were allocated and
  -- nothing is released, whatever else the payload holds.
  setup_unsupported :
      (payload : Json) (t : Text)
      → W.is_string (item W "clientEphemeralPK" payload) ≡ true
      → W.is_string (item W "clientEphemeralPKType" payload) ≡ true
      → string_value (item W "clientEphemeralPKType" payload) ≡ some t
      → t ≢ codes "rsa2048"
      → W.generate_key ≡ success
      → W.generate_iv ≡ success
      → W.base64_encode W.generated_key ≡ success
      → W.base64_encode W.generated_iv ≡ success
      → W.allocates session_aes_key ≡ true
      → W.allocates session_iv ≡ true
      → setup_rvd_session_encryption W payload
        ≡ done (failed failure) (alloc session_aes_key ∷ alloc session_iv ∷ [])
  unfolding setup_rvd_session_encryption
  setup_unsupported payload t pk pk_type is ne key iv key64 iv64 m1 m2 =
      ground (arith, check_unsupported (string_value (item W "clientEphemeralPK" payload)) t ne)

  -- What an ssh request leaves when its keys were refused.
  module _ (r : ℕ) (k : IsKept r) (params : RequestParams) (from : Option Text) (e : Json)
      (auth : Option Text) (c : ℤ) where
    abbrev left : Bool → ℕ
    left b = hits r envelope + held_auth r (got auth)

    ssh_authenticated-left :
        value (keys_if_asked W (item W "payload" e)) ≡ some (failed c)
        → Moves r
            (hits r envelope + held_auth r (got auth))
            left
            (ssh_authenticated W params from (item W "payload" e) (got auth))
    unfolding ssh_authenticated ssh_keyed
    ssh_authenticated-left refused =
        Moves-bind_value r (hits r envelope + held_auth r (got auth))
          (λ a. hits r envelope + held_auth r (got auth) + held_keys r a) left _ _ (failed c)
          (Moves-frame r (hits r envelope + held_auth r (got auth)) (held_keys r)
            (λ a. hits r envelope + held_auth r (got auth) + held_keys r a) _ (λ a. omega arith)
            (keys_if_asked-Moves W r k (item W "payload" e)))
          refused (Moves-done r _ left false [] (omega arith))

    ssh_verified-left :
        verify_envelope_contents W e payload_type_ssh ≡ success
        → value (auth_if_asked W (item W "payload" e)) ≡ some (got auth)
        → value (keys_if_asked W (item W "payload" e)) ≡ some (failed c)
        → Moves r (hits r envelope) left (ssh_verified W params from e)
    unfolding ssh_verified
    ssh_verified-left contents authenticated refused = rw contents (
        Moves-bind_value r (hits r envelope) (λ a. hits r envelope + held_auth r a) left _ _
          (got auth)
          (Moves-frame r (hits r envelope) (held_auth r) (λ a. hits r envelope + held_auth r a) _
            (λ a. omega arith) (auth_if_asked-Moves W r k (item W "payload" e)))
          authenticated (ssh_authenticated-left refused))

    ssh_received-left :
        value (verify_envelope_signature_from W e from) ≡ some success
        → verify_envelope_contents W e payload_type_ssh ≡ success
        → value (auth_if_asked W (item W "payload" e)) ≡ some (got auth)
        → value (keys_if_asked W (item W "payload" e)) ≡ some (failed c)
        → Moves r (hits r envelope) left (ssh_received W params from (some e))
    unfolding ssh_received
    ssh_received-left signed contents authenticated refused =
        Moves-bind_value r (hits r envelope) (λ res. hits r envelope) left _ _ success
          (Moves-frame r (hits r envelope) nothing (λ res. hits r envelope) _ (λ a. omega arith)
            (verify_envelope_signature_from-Moves W r k e from))
          signed (ssh_verified-left contents authenticated refused)

left_over :
    (r d : ℕ) (t : Trace Bool) (b : Bool)
    → Moves r 0 (λ a. d) t
    → value t ≡ some b
    → allocs r (log t) ≡ frees r (log t) + d
left_over r d (done x l) b m e = omega (arith, m.settles)
left_over r d (crash l) b m e = cc

-- An ssh request that is signed and well formed, and whose session keys are refused, leaves its
-- envelope and its auth string allocated when the handler returns.
pub handle_ssh_request_leaves :
    (W : World) (params : RequestParams) (n : Notification) (e : W.Json) (auth : Option Text)
    (c : ℤ) (r : ℕ) (b : Bool)
    → IsKept r
    → value (extract_envelope_from_notification W n) ≡ some (some e)
    → value (verify_envelope_signature_from W e n.from) ≡ some success
    → verify_envelope_contents W e payload_type_ssh ≡ success
    → value (auth_if_asked W (item W "payload" e)) ≡ some (got auth)
    → value (keys_if_asked W (item W "payload" e)) ≡ some (failed c)
    → value (handle_ssh_request W params n) ≡ some b
    → allocs r (log (handle_ssh_request W params n))
      ≡ frees r (log (handle_ssh_request W params n))
        + (hits r envelope + (elim auth [ none ↦ 0 | some s ↦ hits r rvd_auth_string ]))
unfolding handle_ssh_request
handle_ssh_request_leaves W params n e auth c r b k extracted signed contents authed refused v =
    left_over r _ (handle_ssh_request W params n) b
      (Moves-bind_value r 0 (held_envelope r) (left W r k params n.from e auth c) _ _ (some e)
        (extract_envelope-Moves W r n) extracted
        (ssh_received-left W r k params n.from e auth c signed contents authed refused))
      v
