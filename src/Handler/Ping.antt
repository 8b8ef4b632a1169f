-- ===== src/Handler/Ping.antt =====
-- packages/c/sshnpd/src/handle_ping.c: the answer to a ping.
use zettahealthonramp.Base.{
  ◌+◌, ◌-◌, Bool, false, not, Option, some, List, [], ◌∷◌, ◌++◌, if◌then◌else◌, Text, codes, length,
  take,
}
use zettahealthonramp.Code.{is_zero}
use zettahealthonramp.Handler.World.{
  logged, Event, Notification, World, Trace, response_atkey, notify_params, alloc, free, notifies,
  done,
}

-- The buffer has the bytes of the device, of the word in front, of the dot and of the NUL.
unfoldable pub ping_keyname : Text → Text
ping_keyname device = take (9 + length device + 2 - 1) (codes "heartbeat" ++ b'.' ∷ device)

abbrev pub clean_ping : List Event
clean_ping = free notify_params ∷ free response_atkey ∷ []

module _ (W : World) where
  open W use {create_shared_key, set_atkey, set_operation, set_value, notify}

  -- The result of making the key is not looked at; a key that was not made has no name.
  unfoldable pub ping_key : Text → Option Text → Text
  unfolding ping_keyname
  ping_key device from =
      if is_zero (create_shared_key (ping_keyname device) from) then ping_keyname device else []

  -- Once the key and the parameters are there.
  unfoldable pub notify_ping : Text → Text → Trace Bool
  notify_ping key ping_response =
      if not (is_zero set_atkey)
      then done false clean_ping
      else if not (is_zero set_operation)
      then done false clean_ping
      else if not (is_zero (set_value (some ping_response)))
      then done false clean_ping
      else if not (is_zero notify)
      then done false clean_ping
      else done false (notifies key (some ping_response) ∷ clean_ping)

  -- The handler answers nothing, and is not left in a child.
  unfoldable pub handle_ping : Text → Text → Notification → Trace Bool
  unfolding ping_key notify_ping
  handle_ping device ping_response n =
      logged (alloc response_atkey ∷ alloc notify_params ∷ [])
        (notify_ping (ping_key device n.from) ping_response)
