-- ===== src/Handler/Authorised/Requests.antt =====
-- The requests of packages/c/sshnpd/src that run srv, and those that a client is notified of.
use zettahealthonramp.Base.{
  ◌≡◌, refl, ap, ◌∙◌, true, false, not, Option, none, some, [], ◌∷◌, ◌++◌, arith, Text, All,
  All-append,
}
use zettahealthonramp.Code.{is_zero, success, is_zero_iff}
use zettahealthonramp.PermitOpen.{should_permitopen}
use zettahealthonramp.Handler.World.{
  value, Event, Notification, World, Result, envelope, free, failed, got, done,
}
use zettahealthonramp.Handler.Traces.{
  IsInward, IsOutward, Emits, Emits-bind, IsQuiet-done, quiet_silent, Emits-if, Emits-deref,
  IsQuiet,
}
use zettahealthonramp.Handler.Envelope.{
  item, verify_envelope_contents, extract_envelope_from_notification,
  verify_envelope_signature_from, payload_type_npt,
}
use zettahealthonramp.Handler.Envelope.Contents.{
  verify_envelope_contents_npt, IsEnvelope, IsNptPayload,
}
use zettahealthonramp.Handler.Envelope.Signature.{verify_envelope_signature_from-IsSigned, IsSigned}
use zettahealthonramp.Handler.Session.{SessionKeys}
use zettahealthonramp.Handler.Request.{
  session_srv_params, free_auth, free_plain, free_base64, release, refuse, auth_if_asked,
  keys_if_asked, after_fork, npt_relay, npt_local, npt_keyed, npt_authenticated, npt_verified,
  npt_received, handle_npt_request, RequestParams, Session,
}
use zettahealthonramp.Handler.Authorised.{
  verify_envelope_signature_from-IsQuiet, extract_envelope-IsQuiet, auth_if_asked-IsQuiet,
  keys_if_asked-IsQuiet,
}

pub refuse-IsQuiet : IsQuiet refuse
refuse-IsQuiet = IsQuiet-done false (free envelope ∷ []) (omega arith)

pub free_auth-IsInward : (auth : Option Text) → All IsInward (free_auth auth)
free_auth-IsInward none = tt
free_auth-IsInward (some s) = omega arith

free_plain-IsInward : (keys : Option SessionKeys) → All IsInward (free_plain keys)
free_plain-IsInward none = tt
free_plain-IsInward (some s) = omega arith

pub free_base64-IsInward : (keys : Option SessionKeys) → All IsInward (free_base64 keys)
free_base64-IsInward none = tt
free_base64-IsInward (some s) = omega arith

pub release-IsInward : (s : Session) → All IsInward (release s)
release-IsInward s =
    All-append IsInward (free_auth s.auth) _ (free_auth-IsInward s.auth)
      (All-append IsInward (free_plain s.keys) _ (free_plain-IsInward s.keys) (omega arith))

pub cancel-IsQuiet : (s : Session) → IsQuiet (done false (free_base64 s.keys ++ release s))
cancel-IsQuiet s = IsQuiet-done false _ (
    All-append IsInward (free_base64 s.keys) (release s) (free_base64-IsInward s.keys)
      (release-IsInward s))

module _ (W : World) where
  open W use {Json, string_value, to_uint16, is_true}

  -- What stands behind an npt request that passed every check.
  pub record IsAuthorisedNpt (params : RequestParams) (n : Notification) (e : Json) : Type 0 where
    pub extracted : value (extract_envelope_from_notification W n) ≡ some (some e)
    pub signed : IsSigned W e n.from
    pub members : IsEnvelope W e
    pub payload_members : IsNptPayload W (item W "payload" e)
    pub requested : Text
    pub requested_is : string_value (item W "requestedHost" (item W "payload" e)) ≡ some requested
    pub permitted :
        should_permitopen params.permits requested
          (to_uint16 (item W "requestedPort" (item W "payload" e)))
        ≡ true

  -- The parts of a session that were asked for were set up, and no others.
  pub record IsSetUp (payload : Json) (s : Session) : Type 0 where
    pub auth_is : value (auth_if_asked W payload) ≡ some (got s.auth)
    pub keys_are : value (keys_if_asked W payload) ≡ some (got s.keys)

  module _ (ev : Event) (o : IsOutward ev) (params : RequestParams) (from : Option Text) where
    npt_keyed-Emits :
        (payload : Json) (auth : Option Text) (keys : Result (Option SessionKeys))
        → Emits ev (npt_keyed W params from payload auth keys)
        → (k : Option SessionKeys) × (keys ≡ got k)
          × Emits ev (
              after_fork W payload params.device
                (record { auth = auth; keys = k })
                from
                (session_srv_params
                  (npt_relay W payload)
                  (npt_local W payload)
                  (record { auth = auth; keys = k })
                  true)
                W.forked)
    unfolding npt_keyed
    npt_keyed-Emits payload auth (failed c) h = absurd (
        quiet_silent ev o (npt_keyed W params from payload auth (failed c))
          (IsQuiet-done false (free envelope ∷ free_auth auth) (tt, free_auth-IsInward auth)) h)
    npt_keyed-Emits payload auth (got k) h = (k, refl, h)

    npt_authenticated-Emits :
        (payload : Json) (a : Result (Option Text))
        → Emits ev (npt_authenticated W params from payload a)
        → (auth : Option Text) × (a ≡ got auth)
          × (k : Option SessionKeys) × (value (keys_if_asked W payload) ≡ some (got k))
          × Emits ev (
              after_fork W payload params.device
                (record { auth = auth; keys = k })
                from
                (session_srv_params
                  (npt_relay W payload)
                  (npt_local W payload)
                  (record { auth = auth; keys = k })
                  true)
                W.forked)
    unfolding npt_authenticated
    npt_authenticated-Emits payload (failed c) h =
        absurd (quiet_silent ev o refuse refuse-IsQuiet h)
    npt_authenticated-Emits payload (got auth) h =
        let (keys, v, h') =
          Emits-bind ev (keys_if_asked W payload) (npt_keyed W params from payload auth) o
            (keys_if_asked-IsQuiet W payload) h in
        let (k, e, h'') = npt_keyed-Emits payload auth keys h' in
        (auth, refl, k, v ∙ ap some e, h'')

    -- What a request that was carried out did on the way.
    abbrev NptReached : Json → Type 0
    NptReached payload =
        (s : Session) × IsSetUp payload s
        × Emits ev (
            after_fork W payload params.device s from
              (session_srv_params (npt_relay W payload) (npt_local W payload) s true) W.forked)

    npt_verified-Emits :
        (e : Json)
        → Emits ev (npt_verified W params from e)
        → (verify_envelope_contents W e payload_type_npt ≡ success)
          × (host : Text) × (string_value (item W "requestedHost" (item W "payload" e)) ≡ some host)
          × (should_permitopen params.permits host
                (to_uint16 (item W "requestedPort" (item W "payload" e)))
              ≡ true)
          × NptReached (item W "payload" e)
    unfolding npt_verified npt_local
    npt_verified-Emits e h =
        let payload = item W "payload" e in
        let (contents, h1) =
          Emits-if ev o (not (is_zero (verify_envelope_contents W e payload_type_npt))) refuse _
            refuse-IsQuiet h in
        let (host, host_is, h2) = Emits-deref ev (npt_local W payload).host _ o h1 in
        let (permitted, h3) =
          Emits-if ev o (not (should_permitopen params.permits host (npt_local W payload).port))
            refuse _ refuse-IsQuiet h2 in
        let (a, authed, h4) =
          Emits-bind ev (auth_if_asked W payload) (npt_authenticated W params from payload) o
            (auth_if_asked-IsQuiet W payload) h3 in
        let (auth, is, k, keyed, h5) = npt_authenticated-Emits payload a h4 in
        (
          (is_zero_iff _).0 (ground arith),
          host,
          host_is,
          ground arith,
          (
            record { auth = auth; keys = k },
            record { auth_is = authed ∙ ap some is; keys_are = keyed },
            h5,
          ),
        )

    npt_received-Emits :
        (e : Option Json)
        → Emits ev (npt_received W params from e)
        → (j : Json) × (e ≡ some j)
          × (value (verify_envelope_signature_from W j from) ≡ some success)
          × Emits ev (npt_verified W params from j)
    unfolding npt_received
    npt_received-Emits none h = absurd h
    npt_received-Emits (some e) h =
        let (res, v, h1) =
          Emits-bind ev (verify_envelope_signature_from W e from) _ o
            (verify_envelope_signature_from-IsQuiet W e from) h in
        let (z, h2) = Emits-if ev o (not (is_zero res)) refuse _ refuse-IsQuiet h1 in
        (e, refl, v ∙ ap some ((is_zero_iff res).0 (ground arith)), h2)

  pub npt-Emits :
      (ev : Event) (params : RequestParams) (n : Notification)
      → IsOutward ev
      → Emits ev (handle_npt_request W params n)
      → (e : Json) × IsAuthorisedNpt params n e
        × (s : Session) × IsSetUp (item W "payload" e) s
        × Emits ev (
            after_fork W
              (item W "payload" e)
              params.device
              s
              n.from
              (session_srv_params
                (npt_relay W (item W "payload" e))
                (npt_local W (item W "payload" e))
                s
                true)
              W.forked)
  unfolding handle_npt_request
  npt-Emits ev params n o h =
      let (j, extracted, h1) =
        Emits-bind ev (extract_envelope_from_notification W n) (npt_received W params n.from) o
          (extract_envelope-IsQuiet W n) h in
      let (e, is, signed, h2) = npt_received-Emits ev o params n.from j h1 in
      let (contents, host, host_is, permitted, (s, up, h3)) =
        npt_verified-Emits ev o params n.from e h2 in
      let (members, payload_members) = (verify_envelope_contents_npt W e).0 contents in
      (
        e,
        record {
          extracted = extracted ∙ ap some is;
          signed = verify_envelope_signature_from-IsSigned W e n.from signed;
          members = members;
          payload_members = payload_members;
          requested = host;
          requested_is = host_is;
          permitted = permitted;
        },
        s,
        up,
        h3,
      )
