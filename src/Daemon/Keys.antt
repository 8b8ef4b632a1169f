-- ===== src/Daemon/Keys.antt =====
-- The name of a notification, and the permit test before an ssh request.
use zettahealthonramp.Base.{
  ◌≡◌, refl, sym, ap, subst, ◌∙◌, ◌≢◌, inl, inr, Bool, true, false, some, List, [], ◌∷◌, ◌++◌,
  append-nil, arith, Bool-cases, Option-cases, Text, codes, All-append, Any, Any-append, Lacks,
}
use zettahealthonramp.PermitOpen.{should_permitopen}
use zettahealthonramp.Daemon.{
  key_of_name, strip, strstr, tail_of, name_at, behind_dot, notification_name, dispatch,
  handle_notification, act_on, round, main_loop, NotificationKey, Notification, Message, Action,
  Config, Round, State, nk_none, nk_sshpublickey, nk_ping, nk_ssh_request, nk_npt_request,
  notification, handles,
}

pub strip-append : (p s : Text) → strip p (p ++ s) ≡ some s
unfolding strip
strip-append [] s = refl
strip-append (c ∷ p) s = ground (arith, strip-append p s)

strstr-append :
    (x t s : Text)
    → Lacks b'.' x
    → strstr (b'.' ∷ t) (x ++ (b'.' ∷ (t ++ s))) ≡ some (record { front = x; behind = s })
unfolding strstr
strstr-append [] t s h = ground (arith, strip-append t s)
strstr-append (c ∷ x) t s (hc, hx) = ground (arith, strstr-append x t s hx)

strstr-tail_of :
    (x device from : Text)
    → Lacks b'.' x
    → strstr (tail_of device from) (x ++ tail_of device from)
      ≡ some (record { front = x; behind = [] })
unfolding tail_of
strstr-tail_of x device from h =
    let t = device ++ (codes ".sshnp" ++ from) in
    ap (λ s. strstr (b'.' ∷ t) (x ++ b'.' ∷ s)) (sym (append-nil t)) ∙ strstr-append x t [] h

name_at-append : (to name rest : Text) → name_at to (to ++ b':' ∷ name) rest ≡ some name
unfolding name_at
name_at-append to name rest = rw (strip-append to (b':' ∷ name), name_at)

head-Lacks : (to name : Text) → Lacks b'.' to → Lacks b'.' name → Lacks b'.' (to ++ b':' ∷ name)
head-Lacks to name ht hn = All-append (λ c. c ≢ b'.') to (b':' ∷ name) ht (omega arith, hn)

-- The name of a request stands between its receiver and the device's tail: whatever the device and
-- the sender, that name is found, if neither receiver nor name holds a dot.
pub notification_name-print :
    (device name : Text) (n : Notification)
    → Lacks b'.' n.to
    → Lacks b'.' name
    → n.key ≡ (n.to ++ b':' ∷ name) ++ tail_of device n.from
    → notification_name device n ≡ some name
unfolding notification_name
notification_name-print device name n ht hn e =
    rw
      (
        e,
        strstr-tail_of (n.to ++ b':' ∷ name) device n.from (head-Lacks n.to name ht hn),
        notification_name,
      )
      (name_at-append n.to name (behind_dot (tail_of device n.from ++ [])))

-- Some action of a list is the handling of an ssh request.
abbrev pub HandlesSsh : List Action → Type 0
HandlesSsh = Any (λ a. a ≡ handles nk_ssh_request)

abbrev pub permits_sshd : Config → Bool
permits_sshd c = should_permitopen c.permits (codes "localhost") c.local_sshd_port

dispatch-permitted :
    (c : Config) (r : Round) (k : NotificationKey)
    → HandlesSsh (dispatch c r k).1
    → permits_sshd c ≡ true
unfolding dispatch
dispatch-permitted c r nk_none h = absurd h
dispatch-permitted c r nk_sshpublickey h = ground arith
dispatch-permitted c r nk_ping h = ground arith
dispatch-permitted c r nk_ssh_request h = ground arith
dispatch-permitted c r nk_npt_request h = ground arith

handle_notification-permitted :
    (c : Config) (r : Round) (n : Notification)
    → HandlesSsh (handle_notification c r n).1
    → permits_sshd c ≡ true
unfolding handle_notification
handle_notification-permitted c r n h = elim (Option-cases (notification_name c.device n)) [
  | inl skipped ↦ absurd (ground arith)
  | inr (s, e) ↦ ground (arith, dispatch-permitted c r (key_of_name s))
]

act_on-permitted :
    (c : Config) (r : Round) (m : Message) → HandlesSsh (act_on c r m).1 → permits_sshd c ≡ true
unfolding act_on
act_on-permitted c r (notification n) h = handle_notification-permitted c r n h
act_on-permitted c r _ h = absurd h

pub round-permitted :
    (c : Config) (s : State) (r : Round) → HandlesSsh (round c s r).1 → permits_sshd c ≡ true
unfolding round
round-permitted c s r h = ground (arith, act_on-permitted c r r.message)

main_loop_stays :
    (c : Config) (s : State) (r : Round) (rs : List Round)
    → (round c s r).0.is_child_process ≡ false
    → (main_loop c s (r ∷ rs)).1 ≡ (round c s r).1 ++ (main_loop c (round c s r).0 rs).1
unfolding main_loop
main_loop_stays c s r rs e = ground arith

main_loop_leaves :
    (c : Config) (s : State) (r : Round) (rs : List Round)
    → (round c s r).0.is_child_process ≡ true
    → (main_loop c s (r ∷ rs)).1 ≡ (round c s r).1
unfolding main_loop
main_loop_leaves c s r rs e = ground arith

-- However many rounds the main loop makes, it handles an ssh request only if the permit-open list
-- permits localhost at the local port of sshd.
main_loop-permitted :
    (c : Config) (s : State) (rs : List Round)
    → HandlesSsh (main_loop c s rs).1
    → permits_sshd c ≡ true
unfolding main_loop
main_loop-permitted c s [] h = absurd h
main_loop-permitted c s (r ∷ rs) h = elim (Bool-cases (round c s r).0.is_child_process) [
  | inl leaves ↦ round-permitted c s r (subst HandlesSsh (main_loop_leaves c s r rs leaves) h)
  | inr stays ↦
      elim (Any-append _ (round c s r).1 _ (subst HandlesSsh (main_loop_stays c s r rs stays) h)) [
        | inl x ↦ round-permitted c s r x
        | inr y ↦ main_loop-permitted c (round c s r).0 rs y
      ]
]
