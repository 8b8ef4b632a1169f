-- ===== src/Composition/Defaults.antt =====
-- packages/c/sshnpd: what a daemon bridges to whose command line names no permit-open list.
pub mod Tests
use zettahealthonramp.Base.{
  ℕ, ◌≡◌, refl, sym, ap, subst, ◌∙◌, ◌⊎◌, inl, inr, true, some, List, [], ◌∷◌, arith, ◌==◌,
  if◌then◌else◌, Text, codes, Any, str_eq_iff, ok,
}
use zettahealthonramp.PermitOpen.{should_permitopen}
use zettahealthonramp.SrvParams.{SrvParams}
use zettahealthonramp.Params.{parse_sshnpd_params, Allocation, SshnpdParams}
use zettahealthonramp.Start.{LoopSetup}
use zettahealthonramp.Start.Defaults.{
  options_of, initial, default_permits, parsed-default_permits, Variables,
}
use zettahealthonramp.Daemon.{Config, State}
use zettahealthonramp.Handler.World.{runs_srv}
use zettahealthonramp.Composition.Loop.{daemon_log, Turn}
use zettahealthonramp.Composition.Loop.Served.{daemon_log-Serves, Serves, by_npt, by_ssh}
use zettahealthonramp.Composition.Strangers.{loop_config}

any_of : {Q : Type 0} (P : Turn → Type 0) (ts : List Turn) → ((t : Turn) → P t → Q) → Any P ts → Q
any_of P [] f h = absurd h
any_of P (t ∷ ts) f (inl h) = f t h
any_of P (t ∷ ts) f (inr h) = any_of P ts f h

default-permitted :
    (host : Text) (port : ℕ)
    → should_permitopen default_permits host port ≡ true
    → (host ≡ codes "localhost") × ((port ≡ 22) ⊎ (port ≡ 3389))
unfolding should_permitopen
default-permitted host port h = ground (arith, str_eq_iff (codes "localhost") host)

-- The port that srv is given for a port of the list.
kept_port :
    (port local : ℕ)
    → (port ≡ 22) ⊎ (port ≡ 3389)
    → local ≡ (if port == 0 then 22 else port)
    → (local ≡ 22) ⊎ (local ≡ 3389)
kept_port port local h e = ground arith

-- srv bridges to the sshd or to the remote desktop of this machine.
pub record IsLocal (q : SrvParams) : Type 0 where
  pub host_is : q.local_host ≡ some (codes "localhost")
  pub port_is : (q.local_port ≡ 22) ⊎ (q.local_port ≡ 3389)

module _ (c : Config) (ping_response : Text) (q : SrvParams)
    (is : c.permits ≡ default_permits) where
  permits_subst :
      (host : Text) (port : ℕ)
      → should_permitopen c.permits host port ≡ true
      → should_permitopen default_permits host port ≡ true
  permits_subst host port h = subst (λ es. should_permitopen es host port ≡ true) is h

  Serves-IsLocal : (t : Turn) → Serves c ping_response q t → IsLocal q
  Serves-IsLocal t (by_npt n m d f e a b) =
      let (host_is, port_is) =
        default-permitted a.requested _ (permits_subst a.requested _ a.permitted) in
      record {
        host_is = b.bridged_host ∙ ap some host_is;
        port_is = kept_port _ q.local_port port_is b.bridged_port;
      }
  Serves-IsLocal t (by_ssh n m d permitted f e a b) =
      let (_, port_is) =
        default-permitted (codes "localhost") c.local_sshd_port (permits_subst _ _ permitted) in
      record {
        host_is = b.bridged_host;
        port_is = kept_port c.local_sshd_port q.local_port port_is b.bridged_port;
      }

-- If the command line leaves out the permit-open list, then
-- whatever requests reach the main loop, from whatever state it begins, srv is only run to bridge to
-- localhost, at port 22 or 3389.
pub daemon_log-IsLocal :
    (alloc : Allocation) (argparse : Variables → Variables) (p : SshnpdParams) (local_sshd_port : ℕ)
    (x : LoopSetup) (s : State) (ts : List Turn) (q : SrvParams)
    → (argparse initial).permitopen ≡ initial.permitopen
    → parse_sshnpd_params alloc (options_of (argparse initial)) ≡ ok p
    → Any (λ e. e ≡ runs_srv q) (daemon_log (loop_config p local_sshd_port x) x.ping_text s ts)
    → IsLocal q
daemon_log-IsLocal alloc argparse p local_sshd_port x s ts q l parsed h =
    let c = loop_config p local_sshd_port x in
    any_of (Serves c x.ping_text q) ts
      (Serves-IsLocal c x.ping_text q (parsed-default_permits alloc argparse p l parsed))
      (daemon_log-Serves c x.ping_text s ts q h)
