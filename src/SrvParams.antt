-- ===== src/SrvParams.antt =====
-- packages/c/srv/src/params.c: the parameters of srv, their defaults, and the checks behind argparse.
pub mod Complete
use zettahealthonramp.Base.{
  ℕ, Bool, false, not, Option, none, some, ◌==◌, if◌then◌else◌, is_some, Text, codes,
}

-- `srv_params_t` as the daemon and the parser fill it; `none` is a null pointer. The pointers that no
-- default is given to are null here.
pub record SrvParams : Type 0 where
  pub host : Option Text
  pub port : ℕ
  pub local_host : Option Text
  pub local_port : ℕ
  pub bind_local_port : Bool
  pub rv_auth : Bool
  pub rv_e2ee : Bool
  pub multi : Bool
  pub rvd_auth_string : Option Text
  pub session_aes_key_string : Option Text
  pub session_aes_iv_string : Option Text

unfoldable pub apply_default_values_to_srv_params : SrvParams → SrvParams
apply_default_values_to_srv_params p = record p {
  local_host = some (codes "localhost");
  local_port = 22;
  bind_local_port = false;
  multi = false;
  rv_auth = false;
  rv_e2ee = false;
}

-- `srv_env_t`, and what `getenv` answers.
pub record SrvEnvironment : Type 0 where
  pub rvd_auth_string : Option Text
  pub session_aes_key_string : Option Text
  pub session_aes_iv_string : Option Text

-- The value that the caller hands over, or else that of the process's environment.
unfoldable pub from_environment : Option Text → Option Text → Option Text
from_environment (some given) inherited = some given
from_environment none inherited = inherited

-- The loading for `--rv-auth`; `none` is a return of 1.
unfoldable pub load_auth : SrvEnvironment → SrvEnvironment → SrvParams → Option SrvParams
unfolding from_environment
load_auth given inherited p =
    let auth = from_environment given.rvd_auth_string inherited.rvd_auth_string in
    if not p.rv_auth
    then some p
    else if is_some auth
    then some (record p { rvd_auth_string = auth })
    else none

-- The loading for `--rv-e2ee`.
unfoldable pub load_keys : SrvEnvironment → SrvEnvironment → SrvParams → Option SrvParams
unfolding from_environment
load_keys given inherited p =
    let key = from_environment given.session_aes_key_string inherited.session_aes_key_string in
    let iv = from_environment given.session_aes_iv_string inherited.session_aes_iv_string in
    if not p.rv_e2ee
    then some p
    else if not (is_some key)
    then none
    else if not (is_some iv)
    then none
    else some (record p { session_aes_key_string = key; session_aes_iv_string = iv })

-- The part of `parse_srv_params` behind argparse, from the parameters that argparse leaves. With a
-- null `environment` the first environment is empty.
unfoldable pub parse_srv_params : SrvEnvironment → SrvEnvironment → SrvParams → Option SrvParams
parse_srv_params given inherited p =
    if not (is_some p.host)
    then none
    else if p.port == 0
    then none
    else elim (load_auth given inherited p) [ none ↦ none | some q ↦ load_keys given inherited q ]
