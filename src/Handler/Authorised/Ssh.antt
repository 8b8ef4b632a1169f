-- ===== src/Handler/Authorised/Ssh.antt =====
-- packages/c/sshnpd/src/handle_ssh_request.c: when it runs srv, and when it responds.
use zettahealthonramp.Base.{
  ◌≡◌, refl, sym, ap, subst, ◌∙◌, Bool, false, not, Option, none, some, arith, ◌==◌, if◌then◌else◌,
  is_some, Text, codes,
}
use zettahealthonramp.Code.{is_zero, success, is_zero_iff}
use zettahealthonramp.SrvParams.{SrvParams}
use zettahealthonramp.Handler.World.{
  value, Event, Notification, World, Result, Trace, runs_srv, notifies, child, parent,
  still_running, failed, got,
}
use zettahealthonramp.Handler.Traces.{IsOutward, Emits, Emits-bind, quiet_silent, Emits-if}
use zettahealthonramp.Handler.Envelope.{
  item, verify_envelope_contents, extract_envelope_from_notification,
  verify_envelope_signature_from, payload_type_ssh,
}
use zettahealthonramp.Handler.Envelope.Contents.{
  verify_envelope_contents_ssh, IsEnvelope, IsSshPayload,
}
use zettahealthonramp.Handler.Envelope.Signature.{verify_envelope_signature_from-IsSigned, IsSigned}
use zettahealthonramp.Handler.Session.{SessionKeys}
use zettahealthonramp.Handler.Request.{
  session_srv_params, key_base64, iv_base64, refuse, ssh_local, auth_if_asked, keys_if_asked,
  after_fork, ssh_relay, ssh_keyed, ssh_authenticated, ssh_verified, ssh_received,
  handle_ssh_request, RequestParams, Session,
}
use zettahealthonramp.Handler.Authorised.{
  verify_envelope_signature_from-IsQuiet, extract_envelope-IsQuiet, auth_if_asked-IsQuiet,
  keys_if_asked-IsQuiet,
}
use zettahealthonramp.Handler.Authorised.Requests.{refuse-IsQuiet, IsSetUp}
use zettahealthonramp.Handler.Authorised.Outcomes.{
  after_fork-Emits, auth_asked, keys_asked, IsResponse, Forked, in_child, in_parent,
}
use zettahealthonramp.Handler.Authorised.Npt.{runs_srv_params}

-- What stands behind an ssh request that passed every check of the handler.
pub record IsAuthorisedSsh (W : World) (n : Notification) (e : W.Json) : Type 0 where
  pub extracted : value (extract_envelope_from_notification W n) ≡ some (some e)
  pub signed : IsSigned W e n.from
  pub members : IsEnvelope W e
  pub payload_members : IsSshPayload W (item W "payload" e)

-- What srv is run with for an ssh request: it bridges the relay that the payload names to the local
-- port of sshd, 0 standing for 22, once.
pub record BridgesSsh (W : World) (params : RequestParams) (payload : W.Json) (p : SrvParams)
    : Type 0 where
  pub relay_host : p.host ≡ W.string_value (item W "host" payload)
  pub relay_port : p.port ≡ W.to_uint16 (item W "port" payload)
  pub bridged_host : p.local_host ≡ some (codes "localhost")
  pub bridged_port :
      p.local_port ≡ (if params.local_sshd_port == 0 then 22 else params.local_sshd_port)
  pub single : p.multi ≡ false
  pub authenticates : p.rv_auth ≡ W.is_true (item W "authenticateToRvd" payload)
  pub encrypts : p.rv_e2ee ≡ W.is_true (item W "encryptRvdTraffic" payload)
  pub has_auth : is_some p.rvd_auth_string ≡ p.rv_auth
  pub has_key : is_some p.session_aes_key_string ≡ p.rv_e2ee
  pub has_iv : is_some p.session_aes_iv_string ≡ p.rv_e2ee

session_params_BridgesSsh :
    (W : World) (params : RequestParams) (payload : W.Json) (s : Session)
    → IsSetUp W payload s
    → BridgesSsh W params payload
        (session_srv_params (ssh_relay W payload) (ssh_local params) s false)
unfolding session_srv_params ssh_relay ssh_local
session_params_BridgesSsh W params payload s up = record {
  relay_host = refl;
  relay_port = refl;
  bridged_host = refl;
  bridged_port = refl;
  single = refl;
  authenticates = auth_asked W payload s up;
  encrypts = keys_asked W payload s up;
  has_auth = refl;
  has_key = ground arith;
  has_iv = ground arith;
}

module _ (W : World) (ev : Event) (o : IsOutward ev) (params : RequestParams)
    (from : Option Text) where
  open W use {Json}

  -- The fork that an ssh request comes to.
  abbrev ssh_fork : Json → Session → Trace Bool
  ssh_fork payload s =
      after_fork W payload params.device s from
        (session_srv_params (ssh_relay W payload) (ssh_local params) s false) W.forked

  ssh_keyed-Emits :
      (payload : Json) (auth : Option Text) (keys : Result (Option SessionKeys))
      → Emits ev (ssh_keyed W params from payload auth keys)
      → (k : Option SessionKeys) × (keys ≡ got k)
        × Emits ev (ssh_fork payload (record { auth = auth; keys = k }))
  unfolding ssh_keyed
  ssh_keyed-Emits payload auth (failed c) h = absurd h
  ssh_keyed-Emits payload auth (got k) h = (k, refl, h)

  ssh_authenticated-Emits :
      (payload : Json) (a : Result (Option Text))
      → value (auth_if_asked W payload) ≡ some a
      → Emits ev (ssh_authenticated W params from payload a)
      → (s : Session) × IsSetUp W payload s × Emits ev (ssh_fork payload s)
  unfolding ssh_authenticated
  ssh_authenticated-Emits payload (failed c) e h =
      absurd (quiet_silent ev o refuse refuse-IsQuiet h)
  ssh_authenticated-Emits payload (got auth) e h =
      let (keys, v, h1) =
        Emits-bind ev (keys_if_asked W payload) (ssh_keyed W params from payload auth) o
          (keys_if_asked-IsQuiet W payload) h in
      let (k, is, h2) = ssh_keyed-Emits payload auth keys h1 in
      (record { auth = auth; keys = k }, record { auth_is = e; keys_are = v ∙ ap some is }, h2)

  ssh_verified-Emits :
      (e : Json)
      → Emits ev (ssh_verified W params from e)
      → (verify_envelope_contents W e payload_type_ssh ≡ success)
        × (s : Session) × IsSetUp W (item W "payload" e) s
        × Emits ev (ssh_fork (item W "payload" e) s)
  unfolding ssh_verified
  ssh_verified-Emits e h =
      let payload = item W "payload" e in
      let (contents, h1) =
        Emits-if ev o (not (is_zero (verify_envelope_contents W e payload_type_ssh))) refuse _
          refuse-IsQuiet h in
      let (a, v, h2) =
        Emits-bind ev (auth_if_asked W payload) (ssh_authenticated W params from payload) o
          (auth_if_asked-IsQuiet W payload) h1 in
      let (s, up, h3) = ssh_authenticated-Emits payload a v h2 in
      ((is_zero_iff _).0 (ground arith), s, up, h3)

  ssh_received-Emits :
      (e : Option Json)
      → Emits ev (ssh_received W params from e)
      → (j : Json) × (e ≡ some j)
        × (value (verify_envelope_signature_from W j from) ≡ some success)
        × Emits ev (ssh_verified W params from j)
  unfolding ssh_received
  ssh_received-Emits none h = absurd h
  ssh_received-Emits (some e) h =
      let (res, v, h1) =
        Emits-bind ev (verify_envelope_signature_from W e from) _ o
          (verify_envelope_signature_from-IsQuiet W e from) h in
      let (z, h2) = Emits-if ev o (not (is_zero res)) refuse _ refuse-IsQuiet h1 in
      (e, refl, v ∙ ap some ((is_zero_iff res).0 (ground arith)), h2)

module _ (W : World) (params : RequestParams) (n : Notification) where
  ssh-Emits :
      (ev : Event) (o : IsOutward ev)
      → Emits ev (handle_ssh_request W params n)
      → (e : W.Json) × IsAuthorisedSsh W n e
        × (s : Session) × IsSetUp W (item W "payload" e) s
        × Forked W ev o
            (item W "payload" e)
            params.device
            s
            (session_srv_params (ssh_relay W (item W "payload" e)) (ssh_local params) s false)
  unfolding handle_ssh_request
  ssh-Emits ev o h =
      let (j, extracted, h1) =
        Emits-bind ev (extract_envelope_from_notification W n) (ssh_received W params n.from) o
          (extract_envelope-IsQuiet W n) h in
      let (e, is, signed, h2) = ssh_received-Emits W ev o params n.from j h1 in
      let (contents, s, up, h3) = ssh_verified-Emits W ev o params n.from e h2 in
      let (members, payload_members) = (verify_envelope_contents_ssh W e).0 contents in
      (
        e,
        record {
          extracted = extracted ∙ ap some is;
          signed = verify_envelope_signature_from-IsSigned W e n.from signed;
          members = members;
          payload_members = payload_members;
        },
        s,
        up,
        after_fork-Emits W ev o (item W "payload" e) params.device s n.from _ W.forked refl h3,
      )

  -- If the handler of an ssh request runs srv, it is the child of a fork; the envelope came in the
  -- notification, was signed by the atSign that the notification is from, and holds a direct payload
  -- with a host and a port; and srv bridges to the local port of sshd, with the authentication and
  -- encryption that the payload asks for.
  pub handle_ssh_request-srv :
      (p : SrvParams)
      → Emits (runs_srv p) (handle_ssh_request W params n)
      → (W.forked ≡ child)
        × (e : W.Json) × IsAuthorisedSsh W n e
        × BridgesSsh W params (item W "payload" e) p
  handle_ssh_request-srv p h =
      let (e, a, s, up, f) = ssh-Emits (runs_srv p) tt h in
      elim f [
        | in_child forked is ↦ (
          forked,
          e,
          a,
          subst (BridgesSsh W params (item W "payload" e)) (sym (runs_srv_params is))
              (session_params_BridgesSsh W params (item W "payload" e) s up),
        )
        | in_parent forked waited r ↦ absurd (ground (arith, r.event_is))
      ]

  -- If the handler of an ssh request notifies, it is the parent of a child that still runs, the
  -- request passed the same checks, and the notification is the signed response that carries the
  -- session's encrypted keys.
  pub handle_ssh_request-notifies :
      (k : Text) (v : Option Text)
      → Emits (notifies k v) (handle_ssh_request W params n)
      → (W.forked ≡ parent)
        × (W.waited ≡ still_running)
        × (e : W.Json) × IsAuthorisedSsh W n e
        × (s : Session) × IsSetUp W (item W "payload" e) s
        × IsResponse W
            (notifies k v)
            tt
            (item W "payload" e)
            params.device
            (key_base64 s.keys)
            (iv_base64 s.keys)
  handle_ssh_request-notifies k v h =
      let (e, a, s, up, f) = ssh-Emits (notifies k v) tt h in
      elim f [
        | in_child forked is ↦ absurd (ground (arith, is))
        | in_parent forked waited r ↦ (forked, waited, e, a, s, up, r)
      ]
