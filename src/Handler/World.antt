-- ===== src/Handler/World.antt =====
-- What the request handlers use and do not implement (cJSON, atclient, atchops, fork), as one
-- record of functions, and the events that a handler leaves behind.
use zettahealthonramp.Base.{
  ℕ, ◌+◌, Bool, Option, none, some, List, [], ◌∷◌, ◌++◌, ◌==◌, if◌then◌else◌, Text,
}
use zettahealthonramp.SrvParams.{SrvParams}
use zettahealthonramp.Code.{ℤ}

-- What a handler allocates.
pub data Resource : Type 0 where
  decrypted_json envelope public_atkey key_buffer public_key payload_string : Resource
  auth_payload auth_envelope signing_input rvd_auth_string : Resource
  session_aes_key session_iv session_aes_key_base64 session_iv_base64 : Resource
  client_key session_aes_key_encrypted session_iv_encrypted : Resource
  response_envelope response_value response_atkey keyname atkey_string notify_params : Resource

pub data Event : Type 0 where
  alloc : Resource → Event
  free : Resource → Event
  runs_srv : SrvParams → Event
  notifies : Text → Option Text → Event

pub data Fork : Type 0 where
  child parent no_fork : Fork

-- `waitpid` with WNOHANG.
pub data Wait : Type 0 where
  still_running exited no_wait : Wait

-- A notification; `none` is a null pointer.
pub record Notification : Type 0 where
  pub from : Option Text
  pub from_initialized : Bool
  pub decrypted_value : Option Text
  pub value_initialized : Bool

-- A `cJSON *` may be null. A getter of a string gives `none` for a null pointer.
pub record World : Type 1 where
  pub Json : Type 0
  pub parse : Text → Option Json
  pub get_item : Json → Text → Json
  pub is_object : Json → Bool
  pub is_string : Json → Bool
  pub is_number : Json → Bool
  pub is_bool : Json → Bool
  pub is_true : Json → Bool
  pub string_value : Json → Option Text
  pub is_positive : Json → Bool
  pub to_uint16 : Json → ℕ
  pub string : Option Text → Json
  pub object : List (Text × Json) → Json
  pub print : Json → Option Text
  pub allocates : Resource → Bool
  pub create_public_key : Option Text → ℤ
  pub get_public_key : Option Text → ℤ
  pub fetched_key : Option Text → Text
  pub populate_public_key : Text → ℤ
  pub base64_decode : Text → ℤ
  pub base64_decoded : Text → Text
  pub base64_encode : Text → ℤ
  pub base64_encoded : Text → Text
  pub rsa_verify : Text → Text → Text → ℤ
  pub rsa_sign : Text → ℤ
  pub rsa_signature : Text → Text
  pub rsa_encrypt : Text → Text → ℤ
  pub rsa_encrypted : Text → Text → Text
  pub generate_key : ℤ
  pub generated_key : Text
  pub generate_iv : ℤ
  pub generated_iv : Text
  pub forked : Fork
  pub waited : Wait
  pub create_shared_key : Text → Option Text → ℤ
  pub atkey_to_string : ℤ
  pub set_atkey : ℤ
  pub set_value : Option Text → ℤ
  pub set_operation : ℤ
  pub notify : ℤ
  pub run_srv : SrvParams → ℤ

-- A return code that is not 0, or what the output parameters hold.
pub data Result {ℓ} (A : Type ℓ) : Type ℓ where
  failed : ℤ → Result A
  got : A → Result A

-- What a call comes to: its value and its events, or the events up to a null pointer that it
-- follows.
pub data Trace {ℓ} (A : Type ℓ) : Type ℓ where
  done : A → List Event → Trace A
  crash : List Event → Trace A

module _ {ℓ} {A : Type ℓ} where
  abbrev pub logged : List Event → Trace A → Trace A
  logged l (done a m) = done a (l ++ m)
  logged l (crash m) = crash (l ++ m)

  abbrev pub log : Trace A → List Event
  log (done a l) = l
  log (crash l) = l

  abbrev pub value : Trace A → Option A
  value (done a l) = some a
  value (crash l) = none

  abbrev pub return : A → Trace A
  return a = done a []

infixl 5 ◌>>=◌ ◌>>◌
abbrev pub ◌>>=◌ {ℓ κ} : {A : Type ℓ} {B : Type κ} → Trace A → (A → Trace B) → Trace B
done a l >>= f = logged l (f a)
crash l >>= f = crash l

abbrev pub ◌>>◌ {ℓ} : {B : Type ℓ} → Trace (Unit {0}) → Trace B → Trace B
m >> k = m >>= λ _. k

abbrev pub emit : Event → Trace (Unit {0})
emit e = done tt (e ∷ [])

-- The string at a pointer that is followed without a test.
abbrev pub deref {ℓ} : {A : Type ℓ} → Option A → Trace A
deref none = crash []
deref (some a) = done a []

-- The resources are told apart by a number.
abbrev pub resource_number : Resource → ℕ
resource_number decrypted_json = 0
resource_number envelope = 1
resource_number public_atkey = 2
resource_number key_buffer = 3
resource_number public_key = 4
resource_number payload_string = 5
resource_number auth_payload = 6
resource_number auth_envelope = 7
resource_number signing_input = 8
resource_number rvd_auth_string = 9
resource_number session_aes_key = 10
resource_number session_iv = 11
resource_number session_aes_key_base64 = 12
resource_number session_iv_base64 = 13
resource_number client_key = 14
resource_number session_aes_key_encrypted = 15
resource_number session_iv_encrypted = 16
resource_number response_envelope = 17
resource_number response_value = 18
resource_number response_atkey = 19
resource_number keyname = 20
resource_number atkey_string = 21
resource_number notify_params = 22

-- 1 for the resource with this number.
unfoldable pub hits : ℕ → Resource → ℕ
hits r s = if resource_number s == r then 1 else 0

-- The allocations and the releases of one resource.
abbrev pub allocs : ℕ → List Event → ℕ
allocs r [] = 0
allocs r (alloc s ∷ l) = hits r s + allocs r l
allocs r (free s ∷ l) = allocs r l
allocs r (runs_srv p ∷ l) = allocs r l
allocs r (notifies k t ∷ l) = allocs r l

abbrev pub frees : ℕ → List Event → ℕ
frees r [] = 0
frees r (alloc s ∷ l) = frees r l
frees r (free s ∷ l) = hits r s + frees r l
frees r (runs_srv p ∷ l) = frees r l
frees r (notifies k t ∷ l) = frees r l
