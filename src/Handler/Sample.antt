-- ===== src/Handler/Sample.antt =====
-- What the runs of the request handlers of packages/c/sshnpd/src are on.
use zettahealthonramp.Base.{
  ◌≡◌, inl, inr, true, false, Option, some, List, [], ◌∷◌, if◌then◌else◌, Text, codes, Any, str_eq,
}
use zettahealthonramp.Code.{success}
use zettahealthonramp.SrvParams.{SrvParams}
use zettahealthonramp.Handler.World.{
  Event, Notification, World, alloc, free, runs_srv, notifies, child, still_running,
}
use zettahealthonramp.Handler.Request.{RequestParams}

-- A world where each member of an object is there, and each call succeeds.
abbrev pub sample_string : Text → Option Text
sample_string k =
    if str_eq k (codes "hashingAlgo")
    then some (codes "sha256")
    else if str_eq k (codes "signingAlgo")
    then some (codes "rsa2048")
    else if str_eq k (codes "clientEphemeralPKType")
    then some (codes "rsa2048")
    else some (codes "x")

abbrev pub sample : World
sample = record {
  Json = Text;
  parse = λ t. some t;
  get_item = λ j k. k;
  is_object = λ j. true;
  is_string = λ j. true;
  is_number = λ j. true;
  is_bool = λ j. true;
  is_true = λ j. true;
  string_value = sample_string;
  is_positive = λ j. true;
  to_uint16 = λ j. 22;
  string = λ t. [];
  object = λ ms. [];
  print = λ j. some j;
  allocates = λ r. true;
  create_public_key = λ a. success;
  get_public_key = λ a. success;
  fetched_key = λ a. codes "key";
  populate_public_key = λ k. success;
  base64_decode = λ t. success;
  base64_decoded = λ t. t;
  base64_encode = λ t. success;
  base64_encoded = λ t. t;
  rsa_verify = λ k p s. success;
  rsa_sign = λ t. success;
  rsa_signature = λ t. t;
  rsa_encrypt = λ k t. success;
  rsa_encrypted = λ k t. t;
  generate_key = success;
  generated_key = codes "aes";
  generate_iv = success;
  generated_iv = codes "iv";
  forked = child;
  waited = still_running;
  create_shared_key = λ k a. success;
  atkey_to_string = success;
  set_atkey = success;
  set_value = λ v. success;
  set_operation = success;
  notify = success;
  run_srv = λ p. success;
}

abbrev pub srv_runs : List Event → List SrvParams
srv_runs [] = []
srv_runs (alloc s ∷ l) = srv_runs l
srv_runs (free s ∷ l) = srv_runs l
srv_runs (runs_srv p ∷ l) = p ∷ srv_runs l
srv_runs (notifies k t ∷ l) = srv_runs l

abbrev pub notifications : List Event → List (Text × Option Text)
notifications [] = []
notifications (alloc s ∷ l) = notifications l
notifications (free s ∷ l) = notifications l
notifications (runs_srv p ∷ l) = notifications l
notifications (notifies k t ∷ l) = (k, t) ∷ notifications l

pub srv_runs-Emits :
    (l : List Event) (p : SrvParams) (ps : List SrvParams)
    → srv_runs l ≡ p ∷ ps
    → Any (λ x. x ≡ runs_srv p) l
srv_runs-Emits [] p ps h = cc
srv_runs-Emits (alloc s ∷ l) p ps h = inr (srv_runs-Emits l p ps h)
srv_runs-Emits (free s ∷ l) p ps h = inr (srv_runs-Emits l p ps h)
srv_runs-Emits (notifies k v ∷ l) p ps h = inr (srv_runs-Emits l p ps h)
srv_runs-Emits (runs_srv q ∷ l) p ps h = inl (cc)

pub notifications-Emits :
    (l : List Event) (k : Text) (v : Option Text) (ns : List (Text × Option Text))
    → notifications l ≡ (k, v) ∷ ns
    → Any (λ x. x ≡ notifies k v) l
notifications-Emits [] k v ns h = cc
notifications-Emits (alloc s ∷ l) k v ns h = inr (notifications-Emits l k v ns h)
notifications-Emits (free s ∷ l) k v ns h = inr (notifications-Emits l k v ns h)
notifications-Emits (runs_srv p ∷ l) k v ns h = inr (notifications-Emits l k v ns h)
notifications-Emits (notifies j w ∷ l) k v ns h = inl (cc)

abbrev pub params : RequestParams
params = record {
  device = codes "pi4";
  local_sshd_port = 22;
  managers = codes "@boss" ∷ [];
  permits = record { host = codes "x"; port = 22 } ∷ [];
}

abbrev pub received : Notification
received = record {
  from = some (codes "@a");
  from_initialized = true;
  decrypted_value = some (codes "{}");
  value_initialized = true;
}

abbrev pub npt_params : SrvParams
npt_params = record {
  host = some (codes "x");
  port = 22;
  local_host = some (codes "x");
  local_port = 22;
  bind_local_port = false;
  rv_auth = true;
  rv_e2ee = true;
  multi = true;
  rvd_auth_string = some [];
  session_aes_key_string = some (codes "aes");
  session_aes_iv_string = some (codes "iv");
}
