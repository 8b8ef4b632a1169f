-- ===== src/Handler/Envelope/Contents.antt =====
-- What the checks of an envelope's contents let through.
use zettahealthonramp.Base.{◌≡◌, ◌↔◌, true, arith}
use zettahealthonramp.Code.{success}
use zettahealthonramp.Handler.World.{World}
use zettahealthonramp.Handler.Envelope.{
  item, verify_envelope_contents, payload_type_ssh, payload_type_npt,
}

module _ (W : World) where
  open W use {Json, is_object, is_string, is_number, is_bool, is_true, is_positive}

  -- The members that every signed envelope has.
  pub record IsEnvelope (e : Json) : Type 0 where
    pub envelope_object : is_object e ≡ true
    pub payload_object : is_object (item W "payload" e) ≡ true
    pub signature_string : is_string (item W "signature" e) ≡ true
    pub hashing_string : is_string (item W "hashingAlgo" e) ≡ true
    pub signing_string : is_string (item W "signingAlgo" e) ≡ true

  pub record IsNptPayload (p : Json) : Type 0 where
    pub session_string : is_string (item W "sessionId" p) ≡ true
    pub rvd_host_string : is_string (item W "rvdHost" p) ≡ true
    pub rvd_port_number : is_number (item W "rvdPort" p) ≡ true
    pub requested_host_string : is_string (item W "requestedHost" p) ≡ true
    pub requested_port_number : is_number (item W "requestedPort" p) ≡ true
    pub requested_port_positive : is_positive (item W "requestedPort" p) ≡ true

  -- The session id is missing here, as it is from the code's test.
  pub record IsSshPayload (p : Json) : Type 0 where
    pub direct_bool : is_bool (item W "direct" p) ≡ true
    pub direct_true : is_true (item W "direct" p) ≡ true
    pub host_string : is_string (item W "host" p) ≡ true
    pub port_number : is_number (item W "port" p) ≡ true

  -- An npt envelope is accepted exactly when it has the members of IsEnvelope and its payload those of
  -- IsNptPayload, each of its type; the handler reads others besides, which may be missing.
  pub verify_envelope_contents_npt :
      (e : Json)
      → (verify_envelope_contents W e payload_type_npt ≡ success)
        ↔ (IsEnvelope e × IsNptPayload (item W "payload" e))
  unfolding verify_envelope_contents
  verify_envelope_contents_npt e = ((λ h. ground arith), (λ h. ground arith))

  -- An ssh envelope is accepted exactly when it has the members of an envelope and a direct
  -- payload with a host and a port; the session id is not looked at.
  pub verify_envelope_contents_ssh :
      (e : Json)
      → (verify_envelope_contents W e payload_type_ssh ≡ success)
        ↔ (IsEnvelope e × IsSshPayload (item W "payload" e))
  unfolding verify_envelope_contents
  verify_envelope_contents_ssh e = ((λ h. ground arith), (λ h. ground arith))
