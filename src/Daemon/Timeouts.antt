-- ===== src/Daemon/Timeouts.antt =====
-- packages/c/sshnpd/src/daemon.c: the counter of the main loop, and when the monitor is reconnected.
use zettahealthonramp.Base.{
  ℕ, suc, ◌+◌, ◌-◌, ◌*◌, ◌%◌, ◌≤◌, ◌<◌, ◌≡◌, refl, ap, ◌∙◌, inl, inr, false, List, [], ◌∷◌, arith,
  lt-cases, length, All,
}
use zettahealthonramp.Code.{is_zero, success}
use zettahealthonramp.Clients.{reconnect_monitor}
use zettahealthonramp.Daemon.{
  read_timeout, noop_timeout, overdue, size_t_mod, count_message, act_on, round, main_loop, Message,
  Action, Config, Round, State, empty, error_read, data_response, error_response, none_type,
  error_parse_notification, error_decrypt_notification, notification, sends_device_info, reads,
  reconnects,
}

-- The greatest count that is ever reached.
abbrev pub most : ℕ
most = noop_timeout + 1

count_message-bounded : (t : ℕ) (m : Message) → t ≤ overdue → count_message t m ≤ most
unfolding count_message
count_message-bounded t empty le = omega arith
count_message-bounded t error_read le = omega arith
count_message-bounded t data_response le = omega arith
count_message-bounded t error_response le = omega arith
count_message-bounded t none_type le = omega arith
count_message-bounded t error_parse_notification le = omega arith
count_message-bounded t error_decrypt_notification le = omega arith
count_message-bounded t (notification n) le = omega arith

round-bounded :
    (c : Config) (s : State) (r : Round)
    → s.timeout_counter ≤ most
    → (round c s r).0.timeout_counter ≤ most
unfolding round
round-bounded c s r le = ground (
  arith,
  count_message-bounded 0 r.message,
  count_message-bounded overdue r.message,
  count_message-bounded s.timeout_counter r.message,
)

main_loop_within :
    (c : Config) (s : State) (rs : List Round)
    → s.timeout_counter ≤ most
    → (main_loop c s rs).0.timeout_counter ≤ most
unfolding main_loop
main_loop_within c s [] le = le
main_loop_within c s (r ∷ rs) le =
    ground (arith, round-bounded c s r le, main_loop_within c (round c s r).0 rs)

-- Whatever the rounds bring, the counter stays within a bound far from that of `size_t`: neither its
-- increment nor its product with the timeout of a read wraps around.
pub main_loop-bounded :
    (c : Config) (s : State) (rs : List Round)
    → s.timeout_counter ≤ most
    → ((main_loop c s rs).0.timeout_counter ≤ most)
      × (((main_loop c s rs).0.timeout_counter * read_timeout) % size_t_mod
          ≡ (main_loop c s rs).0.timeout_counter * read_timeout)
main_loop-bounded c s rs le = let b = main_loop_within c s rs le in (b, omega arith)

-- Nothing arrives, and the monitor does not come back.
abbrev pub IsDown : Config → Round → Type 0
IsDown c r =
    (r.message ≡ empty)
    × (r.read ≡ success)
    × (is_zero (reconnect_monitor r.clients c.monitor_regex).0 ≡ false)

-- A daemon that is no child.
abbrev counted : ℕ → State
counted n = record { timeout_counter = n; is_child_process = false }

abbrev pub reconnections : List Action → ℕ
reconnections [] = 0
reconnections (reconnects calls ∷ l) = suc (reconnections l)
reconnections (a ∷ l) = reconnections l

round_waits :
    (c : Config) (s : State) (r : Round)
    → IsDown c r
    → s.timeout_counter < overdue
    → round c s r ≡ (counted (s.timeout_counter + 1), sends_device_info ∷ reads ∷ [])
unfolding round act_on count_message
round_waits c s r h lt = ground arith

round_tries :
    (c : Config) (s : State) (r : Round)
    → IsDown c r
    → overdue ≤ s.timeout_counter
    → s.timeout_counter ≤ most
    → round c s r ≡ (
      record s { timeout_counter = overdue },
      sends_device_info ∷ reconnects (reconnect_monitor r.clients c.monitor_regex).1 ∷ [],
    )
unfolding round
round_tries c s r h ge le = ground arith

reconnections_waits :
    (c : Config) (s : State) (r : Round) (rs : List Round)
    → IsDown c r
    → s.timeout_counter < overdue
    → reconnections (main_loop c s (r ∷ rs)).1
      ≡ reconnections (main_loop c (counted (s.timeout_counter + 1)) rs).1
unfolding main_loop
reconnections_waits c s r rs h lt = rw (round_waits c s r h lt) refl

reconnections_tries :
    (c : Config) (s : State) (r : Round) (rs : List Round)
    → IsDown c r
    → s.is_child_process ≡ false
    → overdue ≤ s.timeout_counter
    → s.timeout_counter ≤ most
    → reconnections (main_loop c s (r ∷ rs)).1
      ≡ suc (reconnections (main_loop c (record s { timeout_counter = overdue }) rs).1)
unfolding main_loop
reconnections_tries c s r rs h child ge le = rw (round_tries c s r h ge le, child) refl

reconnections_none : (c : Config) (s : State) → reconnections (main_loop c s []).1 ≡ 0
unfolding main_loop
reconnections_none c s = refl

-- While nothing arrives and the monitor does not come back, the daemon does not give up: it lets pass
-- the rounds that the counter lacks, 9 from the start, and tries to reconnect in each round from then on.
pub main_loop-reconnections :
    (c : Config) (s : State) (rs : List Round)
    → All (IsDown c) rs
    → s.is_child_process ≡ false
    → s.timeout_counter ≤ most
    → reconnections (main_loop c s rs).1 ≡ length rs - (overdue - s.timeout_counter)
main_loop-reconnections c s [] hs child le = omega (arith, reconnections_none c s)
main_loop-reconnections c s (r ∷ rs) (h, hs) child le = elim (lt-cases s.timeout_counter overdue) [
  | inl lt ↦
      reconnections_waits c s r rs h lt
      ∙ main_loop-reconnections c (counted (s.timeout_counter + 1)) rs hs refl (omega arith)
      ∙ omega arith
  | inr ge ↦
      reconnections_tries c s r rs h child ge le
      ∙ ap suc (
          main_loop-reconnections c (record s { timeout_counter = overdue }) rs hs child
            (omega arith))
      ∙ omega arith
]
