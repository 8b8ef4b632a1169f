-- ===== src/Handler/Releases/Requests.antt =====
-- The release of what a request of packages/c/sshnpd/src allocates, on every path.
use zettahealthonramp.Base.{
  ℕ, ◌+◌, ◌≡◌, Bool, false, not, Option, none, some, [], ◌∷◌, ◌++◌, arith, Text,
}
use zettahealthonramp.Code.{is_zero}
use zettahealthonramp.PermitOpen.{should_permitopen}
use zettahealthonramp.SrvParams.{SrvParams}
use zettahealthonramp.Handler.World.{
  log, value, hits, allocs, frees, Fork, Wait, Notification, World, Result, Trace, envelope, free,
  child, parent, no_fork, still_running, exited, no_wait, failed, got, done, crash,
}
use zettahealthonramp.Handler.Traces.{
  Moves-done, Moves-if, Moves-frame, Moves-bind, Moves-deref_bind, Moves,
}
use zettahealthonramp.Handler.Envelope.{item, verify_envelope_contents, payload_type_npt}
use zettahealthonramp.Handler.Session.{SessionKeys}
use zettahealthonramp.Handler.Request.{
  free_auth, free_plain, free_base64, child_process, parent_process, after_wait, after_fork,
  npt_local, npt_keyed, npt_authenticated, npt_verified, npt_received, handle_npt_request,
  RequestParams,
}
use zettahealthonramp.Handler.Releases.Envelopes.{
  verify_envelope_signature_from-Moves, extract_envelope-Moves,
}
use zettahealthonramp.Handler.Releases.Response.{send_success_payload-Moves}
use zettahealthonramp.Handler.Releases.{
  nothing, held_auth, held_keys, held_envelope, auth_if_asked-Moves, keys_if_asked-Moves, IsKept,
}

module _ (W : World) (r : ℕ) (k : IsKept r) where
  open W use {Json}

  abbrev held_session : Option Text → Option SessionKeys → ℕ
  held_session auth keys = hits r envelope + held_auth r (got auth) + held_keys r (got keys)

  release-Moves :
      (auth : Option Text) (keys : Option SessionKeys) (b : Bool)
      → Moves r (held_session auth keys) nothing (
          done b
            (free_base64 keys ++ (free_auth auth ++ (free_plain keys ++ (free envelope ∷ [])))))
  release-Moves none none b = record { settles = ground arith }
  release-Moves (some a) none b = record { settles = ground arith }
  release-Moves none (some s) b = record { settles = ground arith }
  release-Moves (some a) (some s) b = record { settles = ground arith }

  child_process-Moves :
      (auth : Option Text) (keys : Option SessionKeys) (p : SrvParams)
      → Moves r
          (held_session auth keys)
          nothing
          (child_process W p (record { auth = auth; keys = keys }))
  unfolding child_process
  child_process-Moves none none p = record { settles = ground arith }
  child_process-Moves (some a) none p = record { settles = ground arith }
  child_process-Moves none (some s) p = record { settles = ground arith }
  child_process-Moves (some a) (some s) p = record { settles = ground arith }

  parent_process-Moves :
      (payload : Json) (device : Text) (auth : Option Text) (keys : Option SessionKeys)
      (from : Option Text)
      → Moves r
          (held_session auth keys)
          nothing
          (parent_process W payload device (record { auth = auth; keys = keys }) from)
  unfolding parent_process
  parent_process-Moves payload device auth keys from =
      Moves-bind r (held_session auth keys) (λ a. held_session auth keys) nothing _ _
        (Moves-frame r (held_session auth keys) nothing (λ a. held_session auth keys) _
          (λ a. omega arith) (send_success_payload-Moves W r k payload device _ _ from))
        (λ a. release-Moves auth keys false)

  after_wait-Moves :
      (payload : Json) (device : Text) (auth : Option Text) (keys : Option SessionKeys)
      (from : Option Text) (w : Wait)
      → Moves r
          (held_session auth keys)
          nothing
          (after_wait W payload device (record { auth = auth; keys = keys }) from w)
  unfolding after_wait
  after_wait-Moves payload device auth keys from still_running =
      parent_process-Moves payload device auth keys from
  after_wait-Moves payload device auth keys from exited = release-Moves auth keys false
  after_wait-Moves payload device auth keys from no_wait = release-Moves auth keys false

  after_fork-Moves :
      (payload : Json) (device : Text) (auth : Option Text) (keys : Option SessionKeys)
      (from : Option Text) (p : SrvParams) (f : Fork)
      → Moves r
          (held_session auth keys)
          nothing
          (after_fork W payload device (record { auth = auth; keys = keys }) from p f)
  unfolding after_fork
  after_fork-Moves payload device auth keys from p child = child_process-Moves auth keys p
  after_fork-Moves payload device auth keys from p no_fork = release-Moves auth keys false
  after_fork-Moves payload device auth keys from p parent =
      after_wait-Moves payload device auth keys from W.waited

  npt_keyed-Moves :
      (params : RequestParams) (from : Option Text) (payload : Json) (auth : Option Text)
      (keys : Result (Option SessionKeys))
      → Moves r
          (hits r envelope + held_auth r (got auth) + held_keys r keys)
          nothing
          (npt_keyed W params from payload auth keys)
  unfolding npt_keyed
  npt_keyed-Moves params from payload none (failed c) = record { settles = ground arith }
  npt_keyed-Moves params from payload (some a) (failed c) = record { settles = ground arith }
  npt_keyed-Moves params from payload auth (got keys) =
      after_fork-Moves payload params.device auth keys from _ W.forked

  npt_authenticated-Moves :
      (params : RequestParams) (from : Option Text) (payload : Json) (auth : Result (Option Text))
      → Moves r
          (hits r envelope + held_auth r auth)
          nothing
          (npt_authenticated W params from payload auth)
  unfolding npt_authenticated
  npt_authenticated-Moves params from payload (failed c) = record { settles = ground arith }
  npt_authenticated-Moves params from payload (got auth) =
      Moves-bind r (hits r envelope + held_auth r (got auth))
        (λ a. hits r envelope + held_auth r (got auth) + held_keys r a) nothing _ _
        (Moves-frame r (hits r envelope + held_auth r (got auth)) (held_keys r)
          (λ a. hits r envelope + held_auth r (got auth) + held_keys r a) _ (λ a. omega arith)
          (keys_if_asked-Moves W r k payload))
        (npt_keyed-Moves params from payload auth)

  npt_verified-Moves :
      (params : RequestParams) (from : Option Text) (e : Json)
      → Moves r (hits r envelope) nothing (npt_verified W params from e)
  unfolding npt_verified
  npt_verified-Moves params from e =
      Moves-if r _ nothing (not (is_zero (verify_envelope_contents W e payload_type_npt))) _ _
        (Moves-done r _ nothing false (free envelope ∷ []) (omega arith))
        (Moves-deref_bind r _ nothing (npt_local W (item W "payload" e)).host _ (λ host.
          Moves-if r _ nothing
            (not (should_permitopen params.permits host (npt_local W (item W "payload" e)).port)) _
            _ (Moves-done r _ nothing false (free envelope ∷ []) (omega arith))
            (Moves-bind r (hits r envelope) (λ a. hits r envelope + held_auth r a) nothing _ _
              (Moves-frame r (hits r envelope) (held_auth r) (λ a. hits r envelope + held_auth r a)
                _ (λ a. omega arith) (auth_if_asked-Moves W r k (item W "payload" e)))
              (npt_authenticated-Moves params from (item W "payload" e)))))

  npt_received-Moves :
      (params : RequestParams) (from : Option Text) (o : Option Json)
      → Moves r (held_envelope r o) nothing (npt_received W params from o)
  unfolding npt_received
  npt_received-Moves params from none = Moves-done r 0 nothing false [] (omega arith)
  npt_received-Moves params from (some e) =
      Moves-bind r (hits r envelope) (λ res. hits r envelope) nothing _ _
        (Moves-frame r (hits r envelope) nothing (λ res. hits r envelope) _ (λ a. omega arith)
          (verify_envelope_signature_from-Moves W r k e from))
        (λ res.
          Moves-if r _ nothing _ _ _
            (Moves-done r _ nothing false (free envelope ∷ []) (omega arith))
            (npt_verified-Moves params from e))

  handle_npt_request-Moves :
      (params : RequestParams) (n : Notification)
      → Moves r 0 nothing (handle_npt_request W params n)
  unfolding handle_npt_request
  handle_npt_request-Moves params n =
      Moves-bind r 0 (held_envelope r) nothing _ _ (extract_envelope-Moves W r n)
        (npt_received-Moves params n.from)

settled_balance :
    (r : ℕ) (t : Trace Bool) (a : Bool)
    → Moves r 0 nothing t
    → value t ≡ some a
    → allocs r (log t) ≡ frees r (log t)
settled_balance r (done b l) a m e = omega (arith, m.settles)
settled_balance r (crash l) a m e = cc

-- Whenever the handler of an npt request returns, in the child, in the parent or by an early return,
-- it has released each resource as often as it allocated it, with six exceptions of which nothing is
-- said: the atkey, the buffer and the public key of the check of the signature, the plain session key and
-- the plain iv, and the name of the response.
pub handle_npt_request_releases :
    (W : World) (params : RequestParams) (n : Notification) (r : ℕ) (b : Bool)
    → IsKept r
    → value (handle_npt_request W params n) ≡ some b
    → allocs r (log (handle_npt_request W params n)) ≡ frees r (log (handle_npt_request W params n))
handle_npt_request_releases W params n r b k =
    settled_balance r (handle_npt_request W params n) b (handle_npt_request-Moves W r k params n)
