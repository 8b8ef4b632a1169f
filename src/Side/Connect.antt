-- ===== src/Side/Connect.antt =====
-- packages/c/srv/src/side.c: how a side of a connection is set up. The answers of mbedtls are a record.
use zettahealthonramp.Base.{
  ℕ, zero, suc, ◌+◌, ◌*◌, ◌/◌, ◌%◌, ◌^◌, ◌≤◌, ◌<◌, ◌≡◌, inl, inr, Bool, Option, List, [], ◌∷◌,
  arith, ltb, if◌then◌else◌, Bool-cases, Text, length, take-all, length-append,
}
use zettahealthonramp.Code.{is_zero, success, ℤ}
use zettahealthonramp.PermitOpen.Decimal.{digits, decimal}
use zettahealthonramp.DeviceInfo.{snprintf}

-- What `mbedtls_net_connect` and `mbedtls_net_bind` answer to a host and a service.
pub record Network : Type 0 where
  pub net_connect : Option Text → Text → ℤ
  pub net_bind : Option Text → Text → ℤ

pub record SideHints : Type 0 where
  pub is_side_a : Bool
  pub is_server : Bool
  pub host : Option Text
  pub port : ℕ
  pub transforms : Bool

pub data SideEvent : Type 0 where
  connects_to binds_to : Option Text → Text → SideEvent
  frees_socket : SideEvent

-- The port as text, in a buffer of `MAX_PORT_LEN` bytes.
unfoldable pub service : SideHints → Text
unfolding snprintf
service h = snprintf 6 (decimal h.port)

-- A socket that was opened stays open; one that was not is freed.
unfoldable pub opened : ℤ → SideEvent → ℤ × List SideEvent
opened res call = if is_zero res then (success, call ∷ []) else (res, call ∷ frees_socket ∷ [])

unfoldable pub srv_side_init : Network → SideHints → ℤ × List SideEvent
unfolding service opened
srv_side_init n h =
    if h.is_server
    then opened (n.net_bind h.host (service h)) (binds_to h.host (service h))
    else opened (n.net_connect h.host (service h)) (connects_to h.host (service h))

-- The least number of more than `k + 1` digits.
abbrev beyond : ℕ → ℕ
beyond zero = 10
beyond (suc k) = 10 * beyond k

tenth-below : (n b : ℕ) → n < 10 * b → n / 10 < b
tenth-below n b h = omega arith

length-digits : (f k n : ℕ) → n ≤ f → n < beyond k → length (digits f n) ≤ suc k
unfolding digits
length-digits zero k n h lt = omega arith
length-digits (suc f) zero n h lt = ground arith
length-digits (suc f) (suc k) n h lt = elim (Bool-cases (ltb n 10)) [
  | inl small ↦ rw small (omega arith)
  | inr large ↦
      let shorter = length-digits f k (n / 10) (omega arith) (tenth-below n (beyond k) lt) in
      rw large (omega (arith, length-append (digits f (n / 10)) ((b'0' + n % 10) ∷ []), shorter))
]

pub service-decimal : (h : SideHints) → h.port < 2 ^ 16 → service h ≡ decimal h.port
unfolding service snprintf decimal
service-decimal h lt =
    take-all 5 (decimal h.port) (length-digits h.port 4 h.port (omega arith) (omega arith))
