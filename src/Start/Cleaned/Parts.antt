-- ===== src/Start/Cleaned/Parts.antt =====
-- packages/c/sshnpd/src/main.c: each stage of the start frees the list where it stops.
use zettahealthonramp.Base.{
  ℕ, ◌≡◌, refl, inl, inr, ◌&&◌, Option, none, some, List, [], ◌∷◌, ◌++◌, leb, ◌==◌, Bool-cases,
  Text, length, Outcome, ok, error, fault,
}
use zettahealthonramp.Code.{failure}
use zettahealthonramp.PermitOpen.{Entry}
use zettahealthonramp.PermitOpen.Decimal.{decimal}
use zettahealthonramp.Params.{SshnpdParams}
use zettahealthonramp.Start.{LoopSetup, StartAnswers, Flags, authkeys_file, runs_loop}
use zettahealthonramp.Start.Stages.{
  service_text, service_texts, load_keys, found_root, find_root, connect, announce, open_authkeys,
  listen, last_free,
}
use zettahealthonramp.Start.Cleaned.{
  cleanups, goes-IsStage, fails-IsStage, overruns-IsStage, need-IsStage, IsStage-bind,
  check-IsStage, accept-IsStage, listed-IsStage, emit-IsStage, IsStage,
}

ruleset stage_rules = (
  IsStage-bind, check-IsStage, accept-IsStage, listed-IsStage, need-IsStage, goes-IsStage,
  fails-IsStage, overruns-IsStage, emit-IsStage,
)

module _ (w : StartAnswers) (p : SshnpdParams) (flags : Flags) where
  pub load_keys-IsStage : IsStage (load_keys w p flags)
  unfolding load_keys
  load_keys-IsStage = search stage_rules depth 30

  found_root-IsStage : (o : Outcome (Text × ℕ)) → IsStage (found_root w p flags o)
  unfolding found_root
  found_root-IsStage (ok root) = goes-IsStage root
  found_root-IsStage error = fails-IsStage failure
  found_root-IsStage fault = overruns-IsStage

  pub find_root-IsStage : IsStage (find_root w p flags)
  unfolding find_root
  find_root-IsStage = search (stage_rules, found_root-IsStage) depth 30

  pub connect-IsStage : (root : Text × ℕ) → IsStage (connect w p flags root)
  unfolding connect
  connect-IsStage root = search stage_rules depth 40

  service_text-IsStage : (e : Entry) → IsStage (service_text w e)
  unfolding service_text
  service_text-IsStage e =
      elim (Bool-cases
        (w.buffer_allocated && leb (length (e.host ++ b':' ∷ decimal e.port)) 1023)) [
          | inl fits ↦ rw fits (goes-IsStage (e.host ++ b':' ∷ decimal e.port))
          | inr long ↦ rw long overruns-IsStage
        ]

  service_texts-IsStage : (es : List Entry) → IsStage (service_texts w es)
  unfolding service_texts
  service_texts-IsStage [] = goes-IsStage []
  service_texts-IsStage (e ∷ es) = IsStage-bind (service_text w e) _ (service_text-IsStage e) λ t.
      IsStage-bind (service_texts w es) _ (service_texts-IsStage es) λ ts. goes-IsStage (t ∷ ts)

  pub announce-IsStage : IsStage (announce w p flags)
  unfolding announce
  announce-IsStage = search (stage_rules, service_texts-IsStage) depth 30

  open_authkeys-IsStage : (o : Option ℕ) → IsStage (open_authkeys w p flags o)
  unfolding open_authkeys
  open_authkeys-IsStage (some errno) = fails-IsStage _
  open_authkeys-IsStage none = elim (Bool-cases (w.add authkeys_file == 0)) [
    | inl taken ↦ rw taken (record { cleaned = refl; before = (tt, tt) })
    | inr refused ↦ rw refused (fails-IsStage _)
  ]

  pub listen-IsStage : (home_dir ping : Text) → IsStage (listen w p flags home_dir ping)
  unfolding listen
  listen-IsStage home_dir ping = search (stage_rules, open_authkeys-IsStage) depth 40

  pub last_free_once : (x : LoopSetup) → cleanups (runs_loop x ∷ last_free w p flags ∷ []) ≡ 1
  last_free_once x = elim (Bool-cases w.is_child) [
    | inl child ↦ rw child refl
    | inr parent ↦ rw parent refl
  ]
