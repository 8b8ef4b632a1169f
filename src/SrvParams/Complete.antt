-- ===== src/SrvParams/Complete.antt =====
-- What parse_srv_params of packages/c/srv/src/params.c lets through.
use zettahealthonramp.Base.{
  ◌≡◌, refl, ◌≢◌, inl, inr, true, not, ◌||◌, Option, none, some, arith, if◌then◌else◌, Bool-cases,
  Option-cases, is_some, Text,
}
use zettahealthonramp.SrvParams.{
  from_environment, load_auth, load_keys, parse_srv_params, SrvParams, SrvEnvironment,
}

-- Parameters that srv can run with, and where each secret is from: the environment that the caller
-- hands over before that of the process.
pub record IsComplete (given inherited : SrvEnvironment) (p q : SrvParams) : Type 0 where
  pub has_host : is_some q.host ≡ true
  pub has_port : q.port ≢ 0
  pub has_auth : (not q.rv_auth || is_some q.rvd_auth_string) ≡ true
  pub has_key : (not q.rv_e2ee || is_some q.session_aes_key_string) ≡ true
  pub has_iv : (not q.rv_e2ee || is_some q.session_aes_iv_string) ≡ true
  pub auth_from : q.rvd_auth_string ≡ (
      if p.rv_auth
      then (if is_some given.rvd_auth_string
          then given.rvd_auth_string
          else inherited.rvd_auth_string)
      else p.rvd_auth_string)
  pub key_from : q.session_aes_key_string ≡ (
      if p.rv_e2ee
      then (if is_some given.session_aes_key_string
          then given.session_aes_key_string
          else inherited.session_aes_key_string)
      else p.session_aes_key_string)
  pub same_host : q.host ≡ p.host
  pub same_port : q.port ≡ p.port
  pub same_local_port : q.local_port ≡ p.local_port

given_first : (a b : Option Text) → from_environment a b ≡ (if is_some a then a else b)
unfolding from_environment
given_first none b = refl
given_first (some a) b = refl

module _ (given inherited : SrvEnvironment) where
  abbrev auth_of : SrvParams → Option Text
  auth_of p =
      if p.rv_auth
      then from_environment given.rvd_auth_string inherited.rvd_auth_string
      else p.rvd_auth_string

  load_auth_lem :
      (p q : SrvParams)
      → load_auth given inherited p ≡ some q
      → (q ≡ record p { rvd_auth_string = auth_of p })
        × ((not q.rv_auth || is_some q.rvd_auth_string) ≡ true)
  unfolding load_auth
  load_auth_lem p q h = elim (Bool-cases p.rv_auth) [
    | inl on ↦ (ground arith, ground arith)
    | inr off ↦ (ground arith, ground arith)
  ]

  abbrev key_of : SrvParams → Option Text
  key_of p =
      if p.rv_e2ee
      then from_environment given.session_aes_key_string inherited.session_aes_key_string
      else p.session_aes_key_string

  abbrev iv_of : SrvParams → Option Text
  iv_of p =
      if p.rv_e2ee
      then from_environment given.session_aes_iv_string inherited.session_aes_iv_string
      else p.session_aes_iv_string

  load_keys_lem :
      (p q : SrvParams)
      → load_keys given inherited p ≡ some q
      → (q ≡ record p { session_aes_key_string = key_of p; session_aes_iv_string = iv_of p })
        × ((not q.rv_e2ee || is_some q.session_aes_key_string) ≡ true)
        × ((not q.rv_e2ee || is_some q.session_aes_iv_string) ≡ true)
  unfolding load_keys
  load_keys_lem p q h = elim (Bool-cases p.rv_e2ee) [
    | inl on ↦ (ground arith, ground arith, ground arith)
    | inr off ↦ (ground arith, ground arith, ground arith)
  ]

-- Parameters that are accepted have a host, a port, and each secret that an enabled feature needs;
-- the caller's environment is read before that of the process, and nothing else is changed.
pub parse_srv_params-IsComplete :
    (given inherited : SrvEnvironment) (p q : SrvParams)
    → parse_srv_params given inherited p ≡ some q
    → IsComplete given inherited p q
unfolding parse_srv_params
parse_srv_params-IsComplete given inherited p q h =
    elim (Option-cases (load_auth given inherited p)) [
      | inl refused ↦ absurd (ground arith)
      | inr (m, e) ↦
          let (m_is, m_auth) = load_auth_lem given inherited p m e in
          let later : load_keys given inherited m ≡ some q = ground arith in
          let (q_is, q_key, q_iv) = load_keys_lem given inherited m q later in
          let first = given_first given.rvd_auth_string inherited.rvd_auth_string in
          let second = given_first given.session_aes_key_string inherited.session_aes_key_string in
          record {
            has_host = ground arith;
            has_port = ground arith;
            has_auth = ground arith;
            has_key = q_key;
            has_iv = q_iv;
            auth_from = ground arith;
            key_from = ground arith;
            same_host = ground arith;
            same_port = ground arith;
            same_local_port = ground arith;
          }
    ]
