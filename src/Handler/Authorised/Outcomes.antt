-- ===== src/Handler/Authorised/Outcomes.antt =====
-- What an authorised request of packages/c/sshnpd/src comes to: srv in the child, or a signed
-- response from the parent.
use zettahealthonramp.Base.{
  ◌≡◌, refl, sym, inl, inr, true, false, not, Option, none, some, List, [], ◌∷◌, ◌++◌, arith,
  is_some, Text, All, Any,
}
use zettahealthonramp.Code.{is_zero, success, ℤ}
use zettahealthonramp.SrvParams.{SrvParams}
use zettahealthonramp.Handler.World.{
  value, return, ◌>>=◌, Event, Fork, Wait, World, Result, Trace, signing_input, response_envelope,
  response_value, response_atkey, keyname, atkey_string, notify_params, alloc, free, runs_srv,
  notifies, child, parent, no_fork, still_running, exited, no_wait, failed, got, done, crash,
}
use zettahealthonramp.Handler.Traces.{
  IsInward, IsOutward, Emits, outward_absurd, before_inward, Emits-logged, IsQuiet-done,
  quiet_silent, Emits-if, Emits-deref, IsQuiet,
}
use zettahealthonramp.Handler.Envelope.{item}
use zettahealthonramp.Handler.Session.{
  sealed, create_rvd_auth_string, setup_rvd_session_encryption, SessionKeys,
}
use zettahealthonramp.Handler.Success.{
  clean_json, clean_value, clean_notify, response_name, response_payload, send_notification,
  name_response, sign_response, send_success_payload,
}
use zettahealthonramp.Handler.Request.{
  free_base64, release, key_base64, iv_base64, asked, run_srv_process, auth_if_asked, keys_if_asked,
  child_process, parent_process, after_wait, after_fork, Session,
}
use zettahealthonramp.Handler.Authorised.Requests.{
  free_base64-IsInward, release-IsInward, cancel-IsQuiet, IsSetUp,
}

-- Either event is one of a list that is quiet but for its head.
head_only :
    (ev x : Event) (l : List Event)
    → IsOutward ev
    → All IsInward l
    → Any (λ y. y ≡ ev) (x ∷ l)
    → x ≡ ev
head_only ev x l o q (inl e) = e
head_only ev x l o q (inr h) = absurd (outward_absurd ev l o q h)

module _ (W : World) (ev : Event) (o : IsOutward ev) where
  open W use {Json, string_value, print, rsa_signature, base64_encoded}

  send_notification-Emits :
      (name : Text) (response : Option Text)
      → Emits ev (send_notification W name response)
      → ev ≡ notifies name response
  unfolding send_notification
  send_notification-Emits name response h =
      let q : (c : ℤ) → IsQuiet (done c clean_notify) =
        λ c. IsQuiet-done c clean_notify (omega arith) in
      let h1 = (Emits-if ev o (not (is_zero W.set_atkey)) _ _ (q W.set_atkey) h).1 in
      let h2 = (Emits-if ev o (not (is_zero (W.set_value response))) _ _ (q _) h1).1 in
      let h3 = (Emits-if ev o (not (is_zero W.set_operation)) _ _ (q _) h2).1 in
      let h4 = (Emits-if ev o (not (is_zero W.notify)) _ _ (q success) h3).1 in
      sym (head_only ev _ clean_notify o (omega arith) h4)

  name_response-Emits :
      (name : Text) (response from : Option Text)
      → Emits ev (name_response W name response from)
      → ev ≡ notifies name response
  unfolding name_response
  name_response-Emits name response from h =
      let h1 =
        (Emits-if ev o (not (W.allocates keyname)) (done success clean_value) _
          (IsQuiet-done success clean_value (omega arith)) h).1 in
      let h2 =
        (Emits-if ev o (not (is_zero (W.create_shared_key name from))) _ _
          (IsQuiet-done success (alloc keyname ∷ clean_value) (omega arith)) h1).1 in
      let h3 =
        (Emits-if ev o (not (is_zero W.atkey_to_string)) _ _
          (IsQuiet-done success (alloc keyname ∷ free keyname ∷ clean_value) (omega arith)) h2).1 in
      send_notification-Emits name response (
        Emits-logged ev (alloc keyname ∷ alloc atkey_string ∷ alloc notify_params ∷ []) _ o
          (omega arith) h3)

  -- The response that a client is sent: named for the session, and signed over its payload.
  pub record IsResponse (payload : Json) (device : Text) (key iv : Option Text) : Type 0 where
    pub identifier : Text
    pub identifier_is : string_value (item W "sessionId" payload) ≡ some identifier
    pub input : Text
    pub input_is : print (response_payload W payload key iv) ≡ some input
    pub event_is :
        ev
        ≡ notifies (response_name identifier device) (
            print
              (sealed W (response_payload W payload key iv) (base64_encoded (rsa_signature input))))

  send_success_payload-Emits :
      (payload : Json) (device : Text) (key iv from : Option Text)
      → Emits ev (send_success_payload W payload device key iv from)
      → IsResponse payload device key iv
  unfolding send_success_payload sign_response
  send_success_payload-Emits payload device key iv from h =
      let h1 =
        Emits-logged ev (alloc response_envelope ∷ alloc signing_input ∷ []) _ o (omega arith) h in
      let (input, input_is, h2) =
        Emits-deref ev (print (response_payload W payload key iv)) _ o h1 in
      let h3 =
        (Emits-if ev o (not (is_zero (W.rsa_sign input))) _ _
          (IsQuiet-done (W.rsa_sign input) clean_json (omega arith)) h2).1 in
      let h4 =
        (Emits-if ev o (not (is_zero (W.base64_encode (rsa_signature input)))) _ _
          (IsQuiet-done (W.base64_encode (rsa_signature input)) clean_json (omega arith)) h3).1 in
      let h5 =
        Emits-logged ev (alloc response_value ∷ alloc response_atkey ∷ []) _ o (omega arith) h4 in
      let (id, id_is, h6) = Emits-deref ev (string_value (item W "sessionId" payload)) _ o h5 in
      record {
        identifier = id;
        identifier_is = id_is;
        input = input;
        input_is = input_is;
        event_is = name_response-Emits _ _ from h6;
      }

  -- What the fork came to: srv in the child, or a response from a parent whose child still runs.
  pub data Forked (payload : Json) (device : Text) (s : Session) (p : SrvParams) : Type 0 where
    in_child : W.forked ≡ child → ev ≡ runs_srv p → Forked payload device s p
    in_parent :
        W.forked ≡ parent
        → W.waited ≡ still_running
        → IsResponse payload device (key_base64 s.keys) (iv_base64 s.keys)
        → Forked payload device s p

  child_process-Emits :
      (p : SrvParams) (s : Session) → Emits ev (child_process W p s) → ev ≡ runs_srv p
  unfolding child_process run_srv_process
  child_process-Emits p s h = sym (
      head_only ev (runs_srv p) (release s) o (release-IsInward s) (
        Emits-logged ev (free_base64 s.keys) (done true (runs_srv p ∷ release s)) o
          (free_base64-IsInward s.keys) h))

  ended-Emits :
      (t : Trace ℤ) (s : Session)
      → Emits ev (t >>= λ code. done false (free_base64 s.keys ++ release s))
      → Emits ev t
  ended-Emits (crash l) s h = h
  ended-Emits (done c l) s h =
      before_inward ev l (free_base64 s.keys ++ release s) o (cancel-IsQuiet s).inward h

  after_wait-Emits :
      (payload : Json) (device : Text) (s : Session) (from : Option Text) (w : Wait)
      → Emits ev (after_wait W payload device s from w)
      → (w ≡ still_running) × IsResponse payload device (key_base64 s.keys) (iv_base64 s.keys)
  unfolding after_wait parent_process
  after_wait-Emits payload device s from still_running h = (
    refl,
    send_success_payload-Emits payload device _ _ from (
        ended-Emits
          (send_success_payload W payload device (key_base64 s.keys) (iv_base64 s.keys) from) s h),
  )
  after_wait-Emits payload device s from exited h =
      absurd (quiet_silent ev o _ (cancel-IsQuiet s) h)
  after_wait-Emits payload device s from no_wait h =
      absurd (quiet_silent ev o _ (cancel-IsQuiet s) h)

  pub after_fork-Emits :
      (payload : Json) (device : Text) (s : Session) (from : Option Text) (p : SrvParams) (f : Fork)
      → W.forked ≡ f
      → Emits ev (after_fork W payload device s from p f)
      → Forked payload device s p
  unfolding after_fork
  after_fork-Emits payload device s from p child e h = in_child e (child_process-Emits p s h)
  after_fork-Emits payload device s from p no_fork e h =
      absurd (quiet_silent ev o (done false (free_base64 s.keys ++ release s)) (cancel-IsQuiet s) h)
  after_fork-Emits payload device s from p parent e h =
      let (w, r) = after_wait-Emits payload device s from W.waited h in in_parent e w r

-- A part of a session is there exactly if it was asked for.
some_was_asked {ℓ} :
    {A : Type ℓ} (t : Trace (Result A)) (o : Option A)
    → value (t >>= λ r. return (asked r)) ≡ some (got o)
    → is_some o ≡ true
some_was_asked (done (failed c) l) o h = ground arith
some_was_asked (done (got a) l) none h = ground arith
some_was_asked (done (got a) l) (some b) h = refl
some_was_asked (crash l) o h = cc

module _ (W : World) (payload : W.Json) where
  auth_asked_of :
      (o : Option Text)
      → value (auth_if_asked W payload) ≡ some (got o)
      → is_some o ≡ W.is_true (item W "authenticateToRvd" payload)
  unfolding auth_if_asked
  auth_asked_of o h = ground (arith, some_was_asked (create_rvd_auth_string W payload) o)

  keys_asked_of :
      (o : Option SessionKeys)
      → value (keys_if_asked W payload) ≡ some (got o)
      → is_some o ≡ W.is_true (item W "encryptRvdTraffic" payload)
  unfolding keys_if_asked
  keys_asked_of o h = ground (arith, some_was_asked (setup_rvd_session_encryption W payload) o)

module _ (W : World) (payload : W.Json) (s : Session) (up : IsSetUp W payload s) where
  pub auth_asked : is_some s.auth ≡ W.is_true (item W "authenticateToRvd" payload)
  auth_asked = auth_asked_of W payload s.auth up.auth_is

  pub keys_asked : is_some s.keys ≡ W.is_true (item W "encryptRvdTraffic" payload)
  keys_asked = keys_asked_of W payload s.keys up.keys_are
