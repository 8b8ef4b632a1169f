-- ===== src/Composition.antt =====
-- A request handler of packages/c/sshnpd/src, and the srv of packages/c/srv/src that it runs: the keys
-- that the one makes are those that the other uses.
pub mod Defaults
pub mod KeyFile
pub mod Strangers
pub mod Main
pub mod Loop
pub mod Tests
use zettahealthonramp.Base.{
  ◌≡◌, refl, sym, ap, Bool, true, Option, none, some, arith, is_some, Text, length, ok,
}
use zettahealthonramp.Code.{success}
use zettahealthonramp.SrvParams.{SrvParams}
use zettahealthonramp.Handler.World.{
  value, return, ◌>>=◌, Notification, World, Result, Trace, runs_srv, failed, got, done, crash,
}
use zettahealthonramp.Handler.Traces.{Emits}
use zettahealthonramp.Handler.Envelope.{item}
use zettahealthonramp.Handler.Session.{setup_rvd_session_encryption, SessionKeys}
use zettahealthonramp.Handler.Session.Recovery.{typed-got, setup-typed}
use zettahealthonramp.Handler.Request.{
  session_srv_params, asked, keys_if_asked, npt_relay, npt_local, handle_npt_request, RequestParams,
  Endpoint, Session,
}
use zettahealthonramp.Handler.Authorised.Requests.{npt-Emits, IsSetUp}
use zettahealthonramp.Handler.Authorised.Outcomes.{after_fork-Emits, in_child, in_parent}
use zettahealthonramp.Handler.Authorised.Npt.{runs_srv_params}
use zettahealthonramp.Srv.{zeros, create_encrypter_and_decrypter, Crypto, Cipher}
use zettahealthonramp.Srv.Multi.{session_cipher}

-- The two programs call the same atchops: what the daemon encodes, srv decodes; a generated key has 32
-- bytes, an iv 16, and the key can be set.
pub record SameCrypto (W : World) (C : Crypto) : Type 0 where
  pub decodes : (t : Text) → C.base64_decode (W.base64_encoded t) ≡ success
  pub decode-encode : (t : Text) → C.base64_decoded (W.base64_encoded t) ≡ t
  pub key_bytes : length W.generated_key ≡ 32
  pub iv_bytes : length W.generated_iv ≡ 16
  pub key_sets : C.setkey_enc W.generated_key ≡ success

-- The cipher with the key and iv that the daemon generated.
abbrev pub generated_cipher : World → Cipher
generated_cipher W = record {
  aes_key = W.generated_key;
  nonce_counter = W.generated_iv;
  nc_off = 0;
  stream_block = zeros 16;
}

asked_got :
    (t : Trace (Result SessionKeys)) (k : SessionKeys)
    → value (t >>= λ r. return (asked r)) ≡ some (got (some k))
    → value t ≡ some (got k)
asked_got (done (failed c) l) k h = absurd (ground arith)
asked_got (done (got x) l) k h = ground arith
asked_got (crash l) k h = cc

module _ (W : World) (payload : W.Json) where
  keys_set_up :
      (k : SessionKeys)
      → value (keys_if_asked W payload) ≡ some (got (some k))
      → value (setup_rvd_session_encryption W payload) ≡ some (got k)
  unfolding keys_if_asked
  keys_set_up k h = ground (arith, asked_got (setup_rvd_session_encryption W payload) k)

  made_by_daemon :
      (k : SessionKeys)
      → value (keys_if_asked W payload) ≡ some (got (some k))
      → (k.aes_key ≡ W.base64_encoded W.generated_key) × (k.iv ≡ W.base64_encoded W.generated_iv)
  made_by_daemon k h =
      let (pk, is, e) = typed-got W _ _ k (setup-typed W payload k (keys_set_up k h)) in
      (ap (λ x. x.aes_key) e, ap (λ x. x.iv) e)

encoded_cipher :
    (W : World) (C : Crypto)
    → SameCrypto W C
    → (create_encrypter_and_decrypter C
        (W.base64_encoded W.generated_key)
        (W.base64_encoded W.generated_iv)).1
      ≡ some (generated_cipher W)
unfolding create_encrypter_and_decrypter
encoded_cipher W C c = ground (
  arith,
  c.decodes W.generated_key,
  c.decodes W.generated_iv,
  c.decode-encode W.generated_key,
  c.decode-encode W.generated_iv,
)

module _ (W : World) (C : Crypto) (c : SameCrypto W C) where
  kept_keys-cipher :
      (payload : W.Json) (k : SessionKeys) (relay local : Endpoint) (auth : Option Text)
      (multi : Bool)
      → value (keys_if_asked W payload) ≡ some (got (some k))
      → session_cipher C
          (session_srv_params relay local (record { auth = auth; keys = some k }) multi)
        ≡ ok (some (generated_cipher W))
  unfolding session_cipher session_srv_params
  kept_keys-cipher payload k relay local auth multi h =
      let (key, iv) = made_by_daemon W payload k h in
      ap ok (rw (key, iv, encoded_cipher W C c) refl)

  session_keys-cipher :
      (payload : W.Json) (k : Option SessionKeys) (relay local : Endpoint) (auth : Option Text)
      (multi : Bool)
      → value (keys_if_asked W payload) ≡ some (got k)
      → is_some k ≡ true
      → session_cipher C (session_srv_params relay local (record { auth = auth; keys = k }) multi)
        ≡ ok (some (generated_cipher W))
  session_keys-cipher payload none relay local auth multi h e = absurd (ground arith)
  session_keys-cipher payload (some k) relay local auth multi h e =
      kept_keys-cipher payload k relay local auth multi h

  session_params-cipher :
      (payload : W.Json) (s : Session) (relay local : Endpoint) (multi : Bool)
      → IsSetUp W payload s
      → (session_srv_params relay local s multi).rv_e2ee ≡ true
      → ((session_srv_params relay local s multi).multi ≡ multi)
        × (session_cipher C (session_srv_params relay local s multi)
            ≡ ok (some (generated_cipher W)))
  unfolding session_srv_params
  session_params-cipher payload s relay local multi up e =
      (refl, session_keys-cipher payload s.keys relay local s.auth multi up.keys_are e)

  -- If the handler of an npt request runs srv with encryption, then srv, in the mode that it runs in,
  -- makes its cipher of the key and the iv that the daemon generated, from the texts that the daemon
  -- passes, provided that both call the same base64 and a generated key and iv are 32 and 16 bytes and
  -- can be set.
  pub handle_npt_request-cipher :
      (params : RequestParams) (n : Notification) (p : SrvParams)
      → Emits (runs_srv p) (handle_npt_request W params n)
      → p.rv_e2ee ≡ true
      → (p.multi ≡ true) × (session_cipher C p ≡ ok (some (generated_cipher W)))
  handle_npt_request-cipher params n p h encrypts =
      let (e, a, s, up, h1) = npt-Emits W (runs_srv p) params n tt h in
      elim (after_fork-Emits W (runs_srv p) tt (item W "payload" e) params.device s n.from _
        W.forked refl h1) [
          | in_child forked is ↦
              let q = runs_srv_params is in
              let payload = item W "payload" e in
              rw q (
                session_params-cipher payload s (npt_relay W payload) (npt_local W payload) true up
                  (rw (sym q) encrypts))
          | in_parent forked waited r ↦ absurd (ground (arith, r.event_is))
        ]
