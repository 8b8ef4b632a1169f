-- ===== src/DeviceInfo/Tests.antt =====
-- Runs of packages/c/sshnpd/src/device_info.c, and the theorems at such inputs.
use zettahealthonramp.Base.{
  ℕ, zero, suc, ◌≡◌, refl, true, false, some, List, [], ◌∷◌, Text, codes, ok,
}
use zettahealthonramp.Code.{is_zero, success, minus_one}
use zettahealthonramp.DeviceInfo.{
  initial_device_state, snprintf, device_info_key, username_key, username_round, username_rounds,
  handle_username_keys, send_to, send_if_due, send_next_device_info, send_rounds, DeviceState,
  DeviceParams, Answers, KeyEvent, inits, frees, puts,
}
use zettahealthonramp.DeviceInfo.Usernames.{
  written, reached, last_ends_well, handle_username_keys_lem,
}

abbrev managers : List Text
managers = codes "@a" ∷ codes "@b" ∷ []

abbrev device_params : DeviceParams
device_params = record {
  atsign = codes "@d";
  device = codes "pi4";
  manager_list = managers;
  hide = false;
}

abbrev answers : Answers
answers = record {
  now = 7200;
  from_string = λ k. success;
  set_is_public = success;
  set_is_encrypted = success;
  set_ttr = success;
  set_ccd = success;
  set_ttl = success;
  put_shared_key = success;
  delete = success;
}

-- If main set up an array of times.
abbrev timed : DeviceState
timed = record initial_device_state { device_info_last_sent = some (0 ∷ 0 ∷ []) }

abbrev both_sent : List KeyEvent
both_sent =
    inits
    ∷ puts (codes "@a:device_info.pi4.sshnp@d") []
    ∷ frees
    ∷ inits
    ∷ puts (codes "@b:device_info.pi4.sshnp@d") []
    ∷ frees
    ∷ []

two_rounds :
    send_rounds (answers ∷ answers ∷ []) device_params [] timed
    ≡ ok (record timed { device_info_pos = 2 }, both_sent)
unfolding send_rounds send_next_device_info send_if_due send_to device_info_key snprintf
two_rounds = refl

-- The key of the first manager is refused, that of the second one is written.
abbrev first_refused : ℕ → Answers
first_refused zero = record answers { put_shared_key = minus_one }
first_refused (suc n) = answers

usernames_first_refused :
    handle_username_keys first_refused (codes "root") (codes "pi4") (codes "@d") true managers ≡ (
      success,
      inits
          ∷ puts (codes "@a:username.pi4.sshnp@d") (codes "root")
          ∷ frees
          ∷ inits
          ∷ puts (codes "@b:username.pi4.sshnp@d") (codes "root")
          ∷ frees
          ∷ [],
    )
unfolding handle_username_keys username_rounds username_round username_key snprintf
usernames_first_refused = refl

handle_username_keys_lem_example :
    (written
        (handle_username_keys first_refused
          (codes "root")
          (codes "pi4")
          (codes "@d")
          true
          managers).1
      ≡ reached first_refused (codes "root") (codes "pi4") (codes "@d") true 0 managers)
    × (is_zero
          (handle_username_keys first_refused
            (codes "root")
            (codes "pi4")
            (codes "@d")
            true
            managers).0
        ≡ last_ends_well first_refused
            (codes "root")
            (codes "pi4")
            (codes "@d")
            true
            0
            true
            managers)
handle_username_keys_lem_example =
    handle_username_keys_lem first_refused (codes "root") (codes "pi4") (codes "@d") true managers
