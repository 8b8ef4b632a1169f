-- ===== src/Handler/Request.antt =====
-- packages/c/sshnpd/src: handle_npt_request.c, handle_ssh_request.c and run_srv_process.c.
use zettahealthonramp.Base.{
  ℕ, Bool, true, false, not, Option, none, some, List, [], ◌∷◌, ◌++◌, ◌==◌, if◌then◌else◌, is_some,
  Text, codes,
}
use zettahealthonramp.Code.{is_zero, ℤ}
use zettahealthonramp.PermitOpen.{should_permitopen, Entry}
use zettahealthonramp.SrvParams.{apply_default_values_to_srv_params, SrvParams}
use zettahealthonramp.Handler.World.{
  return, ◌>>=◌, ◌>>◌, deref, Event, Fork, Wait, Notification, World, Result, Trace, envelope,
  rvd_auth_string, session_aes_key, session_iv, session_aes_key_base64, session_iv_base64, free,
  runs_srv, child, parent, no_fork, still_running, exited, no_wait, failed, got, done,
}
use zettahealthonramp.Handler.Envelope.{
  item, verify_envelope_contents, extract_envelope_from_notification,
  verify_envelope_signature_from, payload_type_ssh, payload_type_npt,
}
use zettahealthonramp.Handler.Session.{
  create_rvd_auth_string, setup_rvd_session_encryption, SessionKeys,
}
use zettahealthonramp.Handler.Success.{send_success_payload}

-- What the handlers are passed of `sshnpd_params`.
pub record RequestParams : Type 0 where
  pub device : Text
  pub local_sshd_port : ℕ
  pub managers : List Text
  pub permits : List Entry

-- The end of the relay: a host and a port.
pub record Endpoint : Type 0 where
  pub host : Option Text
  pub port : ℕ

-- What a session has set up; a part that the client did not ask for is `none`, and its flag, here
-- whether it is there, is false.
pub record Session : Type 0 where
  pub auth : Option Text
  pub keys : Option SessionKeys

no_params : SrvParams
no_params = record {
  host = none;
  port = 0;
  local_host = none;
  local_port = 0;
  bind_local_port = false;
  rv_auth = false;
  rv_e2ee = false;
  multi = false;
  rvd_auth_string = none;
  session_aes_key_string = none;
  session_aes_iv_string = none;
}

-- What srv is run with, for the relay, the local end, and the session. An auth string that was not
-- asked for is none here; the handlers then pass a pointer on that was never set, and srv, told not to
-- authenticate, does not follow it.
unfoldable pub session_srv_params : Endpoint → Endpoint → Session → Bool → SrvParams
unfolding apply_default_values_to_srv_params no_params
session_srv_params relay local session multi =
    let base = apply_default_values_to_srv_params no_params in
    record {
      host = relay.host;
      port = relay.port;
      local_host = elim local.host [ none ↦ base.local_host | some h ↦ some h ];
      local_port = if local.port == 0 then base.local_port else local.port;
      bind_local_port = base.bind_local_port;
      rv_auth = is_some session.auth;
      rv_e2ee = is_some session.keys;
      multi = multi;
      rvd_auth_string = session.auth;
      session_aes_key_string = elim session.keys [ none ↦ none | some k ↦ some k.aes_key ];
      session_aes_iv_string = elim session.keys [ none ↦ none | some k ↦ some k.iv ];
    }

abbrev pub free_auth : Option Text → List Event
free_auth none = []
free_auth (some s) = free rvd_auth_string ∷ []

abbrev pub free_plain : Option SessionKeys → List Event
free_plain none = []
free_plain (some k) = free session_aes_key ∷ free session_iv ∷ []

abbrev pub free_base64 : Option SessionKeys → List Event
free_base64 none = []
free_base64 (some k) = free session_aes_key_base64 ∷ free session_iv_base64 ∷ []

-- The label `cancel`, and the end of the child.
abbrev pub release : Session → List Event
release s = free_auth s.auth ++ (free_plain s.keys ++ (free envelope ∷ []))

abbrev pub key_base64 : Option SessionKeys → Option Text
key_base64 none = none
key_base64 (some k) = some k.aes_key_base64

abbrev pub iv_base64 : Option SessionKeys → Option Text
iv_base64 none = none
iv_base64 (some k) = some k.iv_base64

abbrev pub refuse : Trace Bool
refuse = done false (free envelope ∷ [])

-- A part of the session that the client asked for.
abbrev pub asked {ℓ} : {A : Type ℓ} → Result A → Result (Option A)
asked (failed c) = failed c
asked (got a) = got (some a)

unfoldable pub ssh_local : RequestParams → Endpoint
ssh_local params = record { host = some (codes "localhost"); port = params.local_sshd_port }

-- A handler answers whether this process is now the child.
module _ (W : World) where
  open W use {Json, is_true, string_value, to_uint16, forked, waited, run_srv}

  unfoldable pub run_srv_process : SrvParams → Trace ℤ
  run_srv_process p = done (run_srv p) (runs_srv p ∷ [])

  unfoldable pub auth_if_asked : Json → Trace (Result (Option Text))
  auth_if_asked payload =
      if is_true (item W "authenticateToRvd" payload)
      then (create_rvd_auth_string W payload >>= λ r. return (asked r))
      else return (got none)

  unfoldable pub keys_if_asked : Json → Trace (Result (Option SessionKeys))
  keys_if_asked payload =
      if is_true (item W "encryptRvdTraffic" payload)
      then (setup_rvd_session_encryption W payload >>= λ r. return (asked r))
      else return (got none)

  -- The child, from the fork on.
  unfoldable pub child_process : SrvParams → Session → Trace Bool
  unfolding run_srv_process
  child_process p s = do
    done tt (free_base64 s.keys)
    code ← run_srv_process p
    done true (release s)

  -- The parent, once the wait says that the child runs.
  unfoldable pub parent_process : Json → Text → Session → Option Text → Trace Bool
  parent_process payload device s requesting_atsign = do
    code ←
        send_success_payload W payload device (key_base64 s.keys) (iv_base64 s.keys)
          requesting_atsign
    done false (free_base64 s.keys ++ release s)

  -- The parent, from what the wait answers on.
  unfoldable pub after_wait : Json → Text → Session → Option Text → Wait → Trace Bool
  after_wait payload device s requesting_atsign still_running =
      parent_process payload device s requesting_atsign
  after_wait payload device s requesting_atsign exited =
      done false (free_base64 s.keys ++ release s)
  after_wait payload device s requesting_atsign no_wait =
      done false (free_base64 s.keys ++ release s)

  -- What the fork answers, and the rest.
  unfoldable pub after_fork : Json → Text → Session → Option Text → SrvParams → Fork → Trace Bool
  after_fork payload device s requesting_atsign p child = child_process p s
  after_fork payload device s requesting_atsign p no_fork =
      done false (free_base64 s.keys ++ release s)
  after_fork payload device s requesting_atsign p parent =
      after_wait payload device s requesting_atsign waited

  unfoldable pub npt_relay : Json → Endpoint
  npt_relay payload = record {
    host = string_value (item W "rvdHost" payload);
    port = to_uint16 (item W "rvdPort" payload);
  }

  unfoldable pub npt_local : Json → Endpoint
  npt_local payload = record {
    host = string_value (item W "requestedHost" payload);
    port = to_uint16 (item W "requestedPort" payload);
  }

  unfoldable pub ssh_relay : Json → Endpoint
  ssh_relay payload = record {
    host = string_value (item W "host" payload);
    port = to_uint16 (item W "port" payload);
  }

  -- A handler's parts are named for what is done when they begin: the keys set up, the auth string
  -- made, the contents or the signature verified, the envelope received.
  unfoldable pub npt_keyed :
      RequestParams → Option Text → Json → Option Text → Result (Option SessionKeys) → Trace Bool
  npt_keyed params requesting_atsign payload auth (failed c) =
      done false (free envelope ∷ free_auth auth)
  npt_keyed params requesting_atsign payload auth (got keys) =
      let s : Session = record { auth = auth; keys = keys } in
      after_fork payload params.device s requesting_atsign
        (session_srv_params (npt_relay payload) (npt_local payload) s true) forked

  unfoldable pub npt_authenticated :
      RequestParams → Option Text → Json → Result (Option Text) → Trace Bool
  npt_authenticated params requesting_atsign payload (failed c) = refuse
  npt_authenticated params requesting_atsign payload (got auth) =
      keys_if_asked payload >>= npt_keyed params requesting_atsign payload auth

  unfoldable pub npt_verified : RequestParams → Option Text → Json → Trace Bool
  npt_verified params requesting_atsign e =
      if not (is_zero (verify_envelope_contents W e payload_type_npt))
      then refuse
      else (deref (npt_local (item W "payload" e)).host >>= λ host.
          if not (should_permitopen params.permits host (npt_local (item W "payload" e)).port)
          then refuse
          else (auth_if_asked (item W "payload" e)
              >>= npt_authenticated params requesting_atsign (item W "payload" e)))

  unfoldable pub npt_received : RequestParams → Option Text → Option Json → Trace Bool
  npt_received params requesting_atsign none = return false
  npt_received params requesting_atsign (some e) =
      verify_envelope_signature_from W e requesting_atsign >>= λ res.
      if not (is_zero res) then refuse else npt_verified params requesting_atsign e

  unfoldable pub handle_npt_request : RequestParams → Notification → Trace Bool
  handle_npt_request params n =
      extract_envelope_from_notification W n >>= npt_received params n.from

  -- Where the keys fail, this handler releases nothing.
  unfoldable pub ssh_keyed :
      RequestParams → Option Text → Json → Option Text → Result (Option SessionKeys) → Trace Bool
  ssh_keyed params requesting_atsign payload auth (failed c) = return false
  ssh_keyed params requesting_atsign payload auth (got keys) =
      let s : Session = record { auth = auth; keys = keys } in
      after_fork payload params.device s requesting_atsign
        (session_srv_params (ssh_relay payload) (ssh_local params) s false) forked

  unfoldable pub ssh_authenticated :
      RequestParams → Option Text → Json → Result (Option Text) → Trace Bool
  ssh_authenticated params requesting_atsign payload (failed c) = refuse
  ssh_authenticated params requesting_atsign payload (got auth) =
      keys_if_asked payload >>= ssh_keyed params requesting_atsign payload auth

  unfoldable pub ssh_verified : RequestParams → Option Text → Json → Trace Bool
  ssh_verified params requesting_atsign e =
      if not (is_zero (verify_envelope_contents W e payload_type_ssh))
      then refuse
      else (auth_if_asked (item W "payload" e)
          >>= ssh_authenticated params requesting_atsign (item W "payload" e))

  unfoldable pub ssh_received : RequestParams → Option Text → Option Json → Trace Bool
  ssh_received params requesting_atsign none = return false
  ssh_received params requesting_atsign (some e) =
      verify_envelope_signature_from W e requesting_atsign >>= λ res.
      if not (is_zero res) then refuse else ssh_verified params requesting_atsign e

  unfoldable pub handle_ssh_request : RequestParams → Notification → Trace Bool
  handle_ssh_request params n =
      extract_envelope_from_notification W n >>= ssh_received params n.from
