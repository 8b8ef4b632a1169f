-- ===== src/Handler/Session/Recovery.antt =====
-- The client's recovery of the session keys that handler_commons.c sends.
use zettahealthonramp.Base.{◌≡◌, refl, sym, ◌∙◌, Option, none, some, [], ◌∷◌, arith, Text}
use zettahealthonramp.Handler.World.{
  value, ◌>>=◌, deref, World, session_aes_key, session_iv, session_aes_key_base64, client_key,
  session_aes_key_encrypted, alloc, free, got,
}
use zettahealthonramp.Handler.Traces.{value-logged}
use zettahealthonramp.Handler.Envelope.{item}
use zettahealthonramp.Handler.Session.{
  encrypt_iv, encrypt_session, check_key_type, setup_rvd_session_encryption, SessionKeys,
}

module _ (W : World) where
  open W use {Json, string_value, base64_encoded, rsa_encrypted, generated_key, generated_iv}

  -- The keys of a session whose client's public key is `pk`.
  abbrev pub keys_for : Text → SessionKeys
  keys_for pk = record {
    aes_key = base64_encoded generated_key;
    iv = base64_encoded generated_iv;
    aes_key_base64 = base64_encoded (rsa_encrypted pk (base64_encoded generated_key));
    iv_base64 = base64_encoded (rsa_encrypted pk (base64_encoded generated_iv));
  }

  encrypt_iv-got :
      (pk : Text) (k : SessionKeys) → value (encrypt_iv W pk) ≡ some (got k) → k ≡ keys_for pk
  unfolding encrypt_iv
  encrypt_iv-got pk k h = ground arith

  encrypt_session-got :
      (pk : Text) (k : SessionKeys) → value (encrypt_session W pk) ≡ some (got k) → k ≡ keys_for pk
  unfolding encrypt_session
  encrypt_session-got pk k h = ground (
    arith,
    encrypt_iv-got pk k,
    value-logged
        (alloc client_key
          ∷ alloc session_aes_key_encrypted
          ∷ alloc session_aes_key_base64
          ∷ free session_aes_key_encrypted
          ∷ [])
        (encrypt_iv W pk),
  )

  check_key_type-got :
      (pk : Option Text) (t : Text) (k : SessionKeys)
      → value (check_key_type W pk t) ≡ some (got k)
      → (p : Text) × (pk ≡ some p) × (k ≡ keys_for p)
  unfolding check_key_type
  check_key_type-got none t k h = absurd (ground arith)
  check_key_type-got (some p) t k h =
      (p, refl, ground (arith, encrypt_session-got p k, value-logged [] (encrypt_session W p)))

  pub typed-got :
      (pk t : Option Text) (k : SessionKeys)
      → value (deref t >>= λ pk_type. check_key_type W pk pk_type) ≡ some (got k)
      → (p : Text) × (pk ≡ some p) × (k ≡ keys_for p)
  typed-got pk none k h = absurd (ground arith)
  typed-got pk (some t) k h =
      check_key_type-got pk t k (sym (value-logged [] (check_key_type W pk t)) ∙ h)

  pub setup-typed :
      (payload : Json) (k : SessionKeys)
      → value (setup_rvd_session_encryption W payload) ≡ some (got k)
      → value (
          deref (string_value (item W "clientEphemeralPKType" payload)) >>= λ pk_type.
          check_key_type W (string_value (item W "clientEphemeralPK" payload)) pk_type)
        ≡ some (got k)
  unfolding setup_rvd_session_encryption
  setup-typed payload k h = ground (
    arith,
    value-logged (alloc session_aes_key ∷ alloc session_iv ∷ []) (
        deref (string_value (item W "clientEphemeralPKType" payload)) >>= λ pk_type.
        check_key_type W (string_value (item W "clientEphemeralPK" payload)) pk_type),
  )

-- A client that holds the private key to the public key in its request: base64 and RSA decryption
-- undo what the daemon does.
pub record Recovers (W : World) (pk : Text) (decode decrypt : Text → Text) : Type 0 where
  pub decode-encode : (t : Text) → decode (W.base64_encoded t) ≡ t
  pub decrypt-encrypt : (t : Text) → decrypt (W.rsa_encrypted pk t) ≡ t

-- Whenever the keys of a session are set up, the client whose public key the payload holds recovers
-- from the two encrypted texts the very session key and iv that srv is run with.
pub setup_rvd_session_encryption-Recovers :
    (W : World) (payload : W.Json) (pk : Text) (decode decrypt : Text → Text) (k : SessionKeys)
    → W.string_value (item W "clientEphemeralPK" payload) ≡ some pk
    → Recovers W pk decode decrypt
    → value (setup_rvd_session_encryption W payload) ≡ some (got k)
    → (decrypt (decode k.aes_key_base64) ≡ k.aes_key) × (decrypt (decode k.iv_base64) ≡ k.iv)
setup_rvd_session_encryption-Recovers W payload pk decode decrypt k is r h =
    let (p, pk_is, e) = typed-got W _ _ k (setup-typed W payload k h) in
    let same : p ≡ pk = cc in
    ground (
      arith,
      e,
      r.decode-encode (W.rsa_encrypted pk (W.base64_encoded W.generated_key)),
      r.decode-encode (W.rsa_encrypted pk (W.base64_encoded W.generated_iv)),
      r.decrypt-encrypt (W.base64_encoded W.generated_key),
      r.decrypt-encrypt (W.base64_encoded W.generated_iv),
    )
