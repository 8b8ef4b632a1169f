-- ===== src/Start/Cleaned/Whole.antt =====
-- packages/c/sshnpd/src/main.c: the start as a whole frees its list once.
use zettahealthonramp.Base.{◌≡◌, refl, map, ok}
use zettahealthonramp.Params.{parse_sshnpd_params, Options, Allocation, SshnpdParams}
use zettahealthonramp.Start.{◌>>=◌, log, StartAnswers, Flags, Start, adds, goes, stops, overruns}
use zettahealthonramp.Start.Stages.{
  option_memory, sum_added, list_options, load_keys, find_root, connect, announce, listen,
  run_daemon, daemon_main,
}
use zettahealthonramp.Start.Cleaned.{cleanups, is_stopped, IsCleaned, behind-IsCleaned, IsStage}
use zettahealthonramp.Start.Cleaned.Parts.{
  load_keys-IsStage, find_root-IsStage, connect-IsStage, announce-IsStage, listen-IsStage,
  last_free_once,
}

IsCleaned-bind {ℓ κ} :
    {A : Type ℓ} {B : Type κ} (m : Start A) (f : A → Start B)
    → IsStage m
    → ((a : A) → IsCleaned (f a))
    → IsCleaned (m >>= f)
IsCleaned-bind (goes a l) f s k = behind-IsCleaned l (f a) s.cleaned (k a)
IsCleaned-bind (stops c l) f s k = s.cleaned
IsCleaned-bind (overruns l) f s k = s.cleaned

run_daemon-IsCleaned :
    (w : StartAnswers) (p : SshnpdParams) (flags : Flags) → IsCleaned (run_daemon w p flags)
unfolding run_daemon
run_daemon-IsCleaned w p flags =
    IsCleaned-bind (load_keys w p flags) _ (load_keys-IsStage w p flags) λ home_dir.
      IsCleaned-bind (find_root w p flags) _ (find_root-IsStage w p flags) λ root.
        IsCleaned-bind (connect w p flags root) _ (connect-IsStage w p flags root) λ _.
          IsCleaned-bind (announce w p flags) _ (announce-IsStage w p flags) λ ping.
            IsCleaned-bind (listen w p flags home_dir ping) _
              (listen-IsStage w p flags home_dir ping) λ x. last_free_once w p flags x

options_cleanups : (w : StartAnswers) → cleanups (map adds option_memory) ≡ 0
options_cleanups w = refl

-- Once the options are parsed and what they hold is on the list, the daemon frees its list once on each
-- way out, by whatever failure or with the main loop run, unless it writes past a buffer.
pub daemon_main-IsCleaned :
    (w : StartAnswers) (flags : Flags) (alloc : Allocation) (o : Options) {p : SshnpdParams}
    → parse_sshnpd_params alloc o ≡ ok p
    → sum_added w option_memory ≡ 0
    → cleanups (log (daemon_main w flags alloc o)) ≡ is_stopped (daemon_main w flags alloc o)
unfolding daemon_main list_options
daemon_main-IsCleaned w flags alloc o {p} parsed taken =
    rw (parsed, daemon_main, taken)
      (behind-IsCleaned (map adds option_memory) (run_daemon w p flags) refl
        (run_daemon-IsCleaned w p flags))
