-- ===== src/Handler/Authorised/Npt.antt =====
-- packages/c/sshnpd/src/handle_npt_request.c: when it runs srv, and when it responds.
use zettahealthonramp.Base.{
  ◌≡◌, refl, sym, subst, true, Option, some, arith, ◌==◌, if◌then◌else◌, is_some, Text,
}
use zettahealthonramp.SrvParams.{SrvParams}
use zettahealthonramp.Handler.World.{
  Notification, World, runs_srv, notifies, child, parent, still_running,
}
use zettahealthonramp.Handler.Traces.{Emits}
use zettahealthonramp.Handler.Envelope.{item}
use zettahealthonramp.Handler.Request.{
  session_srv_params, key_base64, iv_base64, npt_relay, npt_local, handle_npt_request,
  RequestParams, Session,
}
use zettahealthonramp.Handler.Authorised.Requests.{npt-Emits, IsAuthorisedNpt, IsSetUp}
use zettahealthonramp.Handler.Authorised.Outcomes.{
  after_fork-Emits, auth_asked, keys_asked, IsResponse, in_child, in_parent,
}

-- What srv is run with for an npt request: it bridges the relay that the payload names to the
-- host and port that were permitted, 0 standing for 22, and it authenticates and encrypts if the
-- payload asks for that.
pub record BridgesNpt (W : World) (payload : W.Json) (host : Text) (p : SrvParams) : Type 0 where
  pub relay_host : p.host ≡ W.string_value (item W "rvdHost" payload)
  pub relay_port : p.port ≡ W.to_uint16 (item W "rvdPort" payload)
  pub bridged_host : p.local_host ≡ some host
  pub bridged_port : p.local_port ≡ (
      if W.to_uint16 (item W "requestedPort" payload) == 0
      then 22
      else W.to_uint16 (item W "requestedPort" payload))
  pub multiple : p.multi ≡ true
  pub authenticates : p.rv_auth ≡ W.is_true (item W "authenticateToRvd" payload)
  pub encrypts : p.rv_e2ee ≡ W.is_true (item W "encryptRvdTraffic" payload)
  pub has_auth : is_some p.rvd_auth_string ≡ p.rv_auth
  pub has_key : is_some p.session_aes_key_string ≡ p.rv_e2ee
  pub has_iv : is_some p.session_aes_iv_string ≡ p.rv_e2ee

pub runs_srv_params : {p q : SrvParams} → runs_srv p ≡ runs_srv q → p ≡ q
runs_srv_params e = cc

session_params_BridgesNpt :
    (W : World) (payload : W.Json) (host : Text) (s : Session)
    → W.string_value (item W "requestedHost" payload) ≡ some host
    → IsSetUp W payload s
    → BridgesNpt W payload host
        (session_srv_params (npt_relay W payload) (npt_local W payload) s true)
unfolding session_srv_params npt_relay npt_local
session_params_BridgesNpt W payload host s is up = record {
  relay_host = refl;
  relay_port = refl;
  bridged_host = ground arith;
  bridged_port = ground arith;
  multiple = refl;
  authenticates = auth_asked W payload s up;
  encrypts = keys_asked W payload s up;
  has_auth = refl;
  has_key = ground arith;
  has_iv = ground arith;
}

module _ (W : World) (params : RequestParams) (n : Notification) where
  -- If the handler of an npt request runs srv, it is the child of a fork; the envelope came in the
  -- notification, was signed by the atSign that the notification is from, and has the members
  -- that the check of its contents asks for; the permit-open list permits the requested host and port; and srv bridges to
  -- that host and port, with the authentication and encryption that the payload asks for.
  pub handle_npt_request-srv :
      (p : SrvParams)
      → Emits (runs_srv p) (handle_npt_request W params n)
      → (W.forked ≡ child)
        × (e : W.Json) × (a : IsAuthorisedNpt W params n e) × BridgesNpt W
            (item W "payload" e)
            a.requested
            p
  handle_npt_request-srv p h =
      let (e, a, s, up, h1) = npt-Emits W (runs_srv p) params n tt h in
      elim (after_fork-Emits W (runs_srv p) tt (item W "payload" e) params.device s n.from _
        W.forked refl h1) [
          | in_child forked is ↦ (
            forked,
            e,
            a,
            subst (BridgesNpt W (item W "payload" e) a.requested) (sym (runs_srv_params is))
                (session_params_BridgesNpt W (item W "payload" e) a.requested s a.requested_is up),
          )
          | in_parent forked waited r ↦ absurd (ground (arith, r.event_is))
        ]

  -- If the handler of an npt request notifies, it is the parent of a child that still runs, the
  -- request passed the same checks, and the notification is the signed response that carries the
  -- session's encrypted keys.
  pub handle_npt_request-notifies :
      (k : Text) (v : Option Text)
      → Emits (notifies k v) (handle_npt_request W params n)
      → (W.forked ≡ parent)
        × (W.waited ≡ still_running)
        × (e : W.Json) × IsAuthorisedNpt W params n e
        × (s : Session) × IsSetUp W (item W "payload" e) s
        × IsResponse W
            (notifies k v)
            tt
            (item W "payload" e)
            params.device
            (key_base64 s.keys)
            (iv_base64 s.keys)
  handle_npt_request-notifies k v h =
      let (e, a, s, up, h1) = npt-Emits W (notifies k v) params n tt h in
      elim (after_fork-Emits W (notifies k v) tt (item W "payload" e) params.device s n.from _
        W.forked refl h1) [
          | in_child forked is ↦ absurd (ground (arith, is))
          | in_parent forked waited r ↦ (forked, waited, e, a, s, up, r)
        ]
