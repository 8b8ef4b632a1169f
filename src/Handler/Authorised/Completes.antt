-- ===== src/Handler/Authorised/Completes.antt =====
-- packages/c/sshnpd/src/handle_npt_request.c: which requests srv is run for.
use zettahealthonramp.Base.{
  ◌≡◌, refl, sym, ap, subst, inl, inr, true, some, List, [], ◌∷◌, ◌++◌, Text, Any,
}
use zettahealthonramp.Code.{success}
use zettahealthonramp.PermitOpen.{should_permitopen}
use zettahealthonramp.SrvParams.{SrvParams}
use zettahealthonramp.Handler.World.{
  logged, deref, value, ◌>>=◌, Event, Notification, World, Trace, runs_srv, child, done, crash, got,
}
use zettahealthonramp.Handler.Traces.{Emits}
use zettahealthonramp.Handler.Envelope.{
  item, verify_envelope_contents, extract_envelope_from_notification,
  verify_envelope_signature_from, payload_type_npt,
}
use zettahealthonramp.Handler.Request.{
  session_srv_params, run_srv_process, auth_if_asked, keys_if_asked, child_process, after_fork,
  npt_relay, npt_local, npt_keyed, free_base64, release, npt_authenticated, npt_verified,
  npt_received, handle_npt_request, RequestParams, Session,
}
use zettahealthonramp.Handler.Authorised.Requests.{IsSetUp}

Any-behind : (l m : List Event) (ev : Event) → Any (λ x. x ≡ ev) m → Any (λ x. x ≡ ev) (l ++ m)
Any-behind [] m ev h = h
Any-behind (x ∷ l) m ev h = inr (Any-behind l m ev h)

logged-Emits {ℓ} :
    {A : Type ℓ} (ev : Event) (l : List Event) (t : Trace A) → Emits ev t → Emits ev (logged l t)
logged-Emits ev l (done a m) h = Any-behind l m ev h
logged-Emits ev l (crash m) h = Any-behind l m ev h

-- What the rest of a handler does is done, once the step before it has returned its value.
bind-Emits {ℓ κ} :
    {A : Type ℓ} {B : Type κ} (ev : Event) (m : Trace A) (f : A → Trace B) (a : A)
    → value m ≡ some a
    → Emits ev (f a)
    → Emits ev (m >>= f)
bind-Emits ev (done b l) f a e h =
    let same : a ≡ b = cc in logged-Emits ev l (f b) (subst (λ x. Emits ev (f x)) same h)
bind-Emits ev (crash l) f a e h = absurd (cc)

module _ (W : World) where
  open W use {Json, string_value, forked}

  -- Everything that the handler asks of a request holds, and the child is reached.
  pub record IsServable (params : RequestParams) (n : Notification) (e : Json) (host : Text)
      (s : Session) : Type 0 where
    pub extracted : value (extract_envelope_from_notification W n) ≡ some (some e)
    pub accepted : value (verify_envelope_signature_from W e n.from) ≡ some success
    pub contents : verify_envelope_contents W e payload_type_npt ≡ success
    pub host_is : string_value (item W "requestedHost" (item W "payload" e)) ≡ some host
    pub permitted :
        should_permitopen params.permits host (npt_local W (item W "payload" e)).port ≡ true
    pub set_up : IsSetUp W (item W "payload" e) s
    pub is_child : forked ≡ child

  -- What srv is run with for such a request.
  abbrev pub served_params : Json → Session → SrvParams
  served_params e s =
      session_srv_params (npt_relay W (item W "payload" e)) (npt_local W (item W "payload" e)) s
        true

  module _ (params : RequestParams) (n : Notification) (e : Json) (host : Text) (s : Session)
      (v : IsServable params n e host s) where
    abbrev payload : Json
    payload = item W "payload" e

    child-Emits : Emits (runs_srv (served_params e s)) (child_process W (served_params e s) s)
    unfolding child_process run_srv_process
    child-Emits =
        Any-behind (free_base64 s.keys) (runs_srv (served_params e s) ∷ release s)
          (runs_srv (served_params e s)) (inl refl)

    npt_keyed-Emits :
        Emits (runs_srv (served_params e s)) (npt_keyed W params n.from payload s.auth (got s.keys))
    unfolding npt_keyed after_fork
    npt_keyed-Emits =
        subst
          (λ k.
            Emits (runs_srv (served_params e s))
              (after_fork W payload params.device s n.from (served_params e s) k))
          (sym v.is_child) child-Emits

    npt_authenticated-Emits :
        Emits
          (runs_srv (served_params e s))
          (npt_authenticated W params n.from payload (got s.auth))
    unfolding npt_authenticated
    npt_authenticated-Emits =
        bind-Emits _ (keys_if_asked W payload) (npt_keyed W params n.from payload s.auth)
          (got s.keys) v.set_up.keys_are npt_keyed-Emits

    npt_verified-Emits : Emits (runs_srv (served_params e s)) (npt_verified W params n.from e)
    unfolding npt_verified npt_local
    npt_verified-Emits = rw v.contents (
        bind-Emits _ (deref (npt_local W payload).host) _ host (ap (λ o. value (deref o)) v.host_is)
          (rw v.permitted (
            bind-Emits _ (auth_if_asked W payload) (npt_authenticated W params n.from payload)
              (got s.auth) v.set_up.auth_is npt_authenticated-Emits)))

    pub handle_npt_request-serves :
        Emits (runs_srv (served_params e s)) (handle_npt_request W params n)
    unfolding handle_npt_request npt_received
    handle_npt_request-serves =
        bind-Emits _ (extract_envelope_from_notification W n) (npt_received W params n.from)
          (some e) v.extracted
          (bind-Emits _ (verify_envelope_signature_from W e n.from) _ success v.accepted
            npt_verified-Emits)
