-- ===== src/DeviceInfo.antt =====
-- packages/c/sshnpd/src/device_info.c: the keys by which a daemon tells its managers of itself. The
-- client library and the clock answer through a record; the metadata that is set is constant.
pub mod Usernames
pub mod Tests
use zettahealthonramp.Base.{
  ℕ, suc, ◌+◌, ◌-◌, ◌%◌, ◌^◌, Bool, not, Option, none, some, List, [], ◌∷◌, ◌++◌, ltb, leb, ◌==◌,
  if◌then◌else◌, Text, codes, length, take, nth, ◌>>=◌, Outcome, ok, fault,
}
use zettahealthonramp.Code.{is_zero, success, ℤ}

-- The globals; a null `device_info_last_sent` is `none`.
pub record DeviceState : Type 0 where
  pub device_info_pos : ℕ
  pub device_info_last_sent : Option (List ℕ)
  pub device_info_attempts : ℕ

-- What main sets them to.
abbrev pub initial_device_state : DeviceState
initial_device_state = record {
  device_info_pos = 0;
  device_info_last_sent = none;
  device_info_attempts = 0;
}

-- The options that the functions read. A null list of managers has length 0.
pub record DeviceParams : Type 0 where
  pub atsign : Text
  pub device : Text
  pub manager_list : List Text
  pub hide : Bool

-- What the clock and atclient answer within one round.
pub record Answers : Type 0 where
  pub now : ℕ
  pub from_string : Text → ℤ
  pub set_is_public : ℤ
  pub set_is_encrypted : ℤ
  pub set_ttr : ℤ
  pub set_ccd : ℤ
  pub set_ttl : ℤ
  pub put_shared_key : ℤ
  pub delete : ℤ

pub data KeyEvent : Type 0 where
  inits frees : KeyEvent
  puts : Text → Text → KeyEvent
  deletes : Text → KeyEvent

-- `snprintf` into a buffer of a size above 0: one byte is for the NUL.
unfoldable pub snprintf : ℕ → Text → Text
snprintf size t = take (size - 1) t

abbrev pub key_text : Text → Text → Text → Text → Text
key_text atsign middle device own = atsign ++ middle ++ device ++ codes ".sshnp" ++ own

unfoldable pub device_info_key : Text → DeviceParams → Text
unfolding snprintf
device_info_key atsign p =
    snprintf (length atsign + length p.device + length p.atsign + 20)
      (key_text atsign (codes ":device_info.") p.device p.atsign)

unfoldable pub username_key : Text → Text → Text → Text
unfolding snprintf
username_key atsign device_name device_atsign =
    snprintf (length atsign + length device_name + length device_atsign + 17)
      (key_text atsign (codes ":username.") device_name device_atsign)

-- The first of the codes that is not 0.
abbrev pub first_failure : List ℤ → ℤ
first_failure [] = success
first_failure (c ∷ cs) = if is_zero c then first_failure cs else c

abbrev pub username_metadata : Answers → ℤ
username_metadata w =
    first_failure (w.set_is_public ∷ w.set_is_encrypted ∷ w.set_ttr ∷ w.set_ccd ∷ [])

abbrev pub device_info_metadata : Answers → ℤ
device_info_metadata w =
    first_failure (w.set_is_public ∷ w.set_is_encrypted ∷ w.set_ttr ∷ w.set_ccd ∷ w.set_ttl ∷ [])

-- One round of the loop over the atSigns: `ret`, and what was called.
unfoldable pub username_round : Answers → Text → Text → Bool → ℤ × List KeyEvent
username_round w key username make_visible =
    if not (is_zero (w.from_string key))
    then (w.from_string key, inits ∷ [])
    else if not (is_zero (username_metadata w))
    then (username_metadata w, inits ∷ frees ∷ [])
    else if make_visible
    then (w.put_shared_key, inits ∷ puts key username ∷ frees ∷ [])
    else (w.delete, inits ∷ deletes key ∷ frees ∷ [])

module _ (w : ℕ → Answers) (username device_name device_atsign : Text) (make_visible : Bool) where
  -- The loop from round `i` on.
  unfoldable pub username_rounds : ℕ → ℤ → List Text → ℤ × List KeyEvent
  unfolding username_round username_key
  username_rounds i ret [] = (ret, [])
  username_rounds i ret (atsign ∷ atsigns) =
      let r =
        username_round (w i) (username_key atsign device_name device_atsign) username
          make_visible in
      let rest = username_rounds (suc i) r.0 atsigns in (rest.0, r.1 ++ rest.1)

  -- Without an atSign the answer is 0.
  unfoldable pub handle_username_keys : List Text → ℤ × List KeyEvent
  unfolding username_rounds
  handle_username_keys atsigns = username_rounds 0 success atsigns

abbrev pub attempt : DeviceState → DeviceState
attempt s = record s { device_info_attempts = (s.device_info_attempts + 1) % 2 ^ 8 }

abbrev pub advance : DeviceState → DeviceState
advance s = record s {
  device_info_attempts = 0;
  device_info_pos = (s.device_info_pos + 1) % 2 ^ 64;
}

-- From where the atSign and its time are read.
unfoldable pub send_to :
    Answers → DeviceParams → Text → DeviceState → Text → DeviceState × List KeyEvent
unfolding device_info_key
send_to w p ping_response s atsign =
    let key = device_info_key atsign p in
    if not (is_zero (w.from_string key))
    then (attempt s, inits ∷ frees ∷ [])
    else if not (is_zero (device_info_metadata w))
    then (s, inits ∷ frees ∷ [])
    else if p.hide
    then (advance s, inits ∷ deletes key ∷ frees ∷ [])
    else if is_zero w.put_shared_key
    then (advance s, inits ∷ puts key ping_response ∷ frees ∷ [])
    else (attempt s, inits ∷ puts key ping_response ∷ frees ∷ [])

-- A time or an atSign that is not there is read outside of its array.
unfoldable pub send_if_due :
    Answers
    → DeviceParams
    → Text
    → DeviceState
    → Option ℕ
    → Option Text
    → Outcome (DeviceState × List KeyEvent)
unfolding send_to
send_if_due w p ping_response s none atsign = fault
send_if_due w p ping_response s (some last) atsign =
    if ltb w.now (last + 3600)
    then ok (s, [])
    else elim atsign [ none ↦ fault | some a ↦ ok (send_to w p ping_response s a) ]

abbrev pub wrapped : ℕ → DeviceState → DeviceState
wrapped len s = if leb len s.device_info_pos then record s { device_info_pos = 0 } else s

unfoldable pub send_next_device_info :
    Answers → DeviceParams → Text → DeviceState → Outcome (DeviceState × List KeyEvent)
unfolding send_if_due
send_next_device_info w p ping_response s =
    if length p.manager_list == 0 then ok (s, []) else elim s.device_info_last_sent [
      | none ↦ ok (s, [])
      | some times ↦
          let s1 = wrapped (length p.manager_list) s in
          send_if_due w p ping_response s1 (nth s1.device_info_pos times)
            (nth s1.device_info_pos p.manager_list)
    ]

-- The calls of the main loop, round by round.
unfoldable pub send_rounds :
    List Answers → DeviceParams → Text → DeviceState → Outcome (DeviceState × List KeyEvent)
unfolding send_next_device_info
send_rounds [] p ping_response s = ok (s, [])
send_rounds (w ∷ ws) p ping_response s = do
  r ← send_next_device_info w p ping_response s
  q ← send_rounds ws p ping_response r.0
  ok (q.0, r.1 ++ q.1)
