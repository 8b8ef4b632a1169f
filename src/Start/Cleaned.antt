-- ===== src/Start/Cleaned.antt =====
-- packages/c/sshnpd/src/main.c: the list of things to free is freed once on each way out.
pub mod Parts
pub mod Whole
use zettahealthonramp.Base.{
  ℕ, suc, ◌+◌, ◌≡◌, refl, inl, inr, Bool, true, false, Option, none, some, List, [], ◌∷◌, ◌++◌,
  arith, ◌==◌, Bool-cases, All, All-append,
}
use zettahealthonramp.Code.{is_zero, ℤ}
use zettahealthonramp.Start.{
  behind, ◌>>=◌, log, emit, fails, check, accept, need, listed, Resource, StartEvent, StartAnswers,
  Start, adds, releases, failure_free, success_free, authenticates_monitor, authenticates_worker,
  hooks_worker, sends_usernames, starts_monitor, runs_loop, goes, stops, overruns,
}

-- How often the list is freed.
abbrev pub cleanups : List StartEvent → ℕ
cleanups [] = 0
cleanups (adds r ∷ l) = cleanups l
cleanups (releases r ∷ l) = cleanups l
cleanups (failure_free ∷ l) = suc (cleanups l)
cleanups (success_free ∷ l) = suc (cleanups l)
cleanups (authenticates_monitor h n ∷ l) = cleanups l
cleanups (authenticates_worker h n ∷ l) = cleanups l
cleanups (hooks_worker h ∷ l) = cleanups l
cleanups (sends_usernames k ∷ l) = cleanups l
cleanups (starts_monitor t ∷ l) = cleanups l
cleanups (runs_loop x ∷ l) = cleanups l

abbrev pub IsBefore : StartEvent → Type 0
IsBefore (adds r) = Unit
IsBefore (releases r) = Unit
IsBefore failure_free = Unit
IsBefore success_free = Unit
IsBefore (authenticates_monitor h n) = Unit
IsBefore (authenticates_worker h n) = Unit
IsBefore (hooks_worker h) = Unit
IsBefore (sends_usernames k) = Unit
IsBefore (starts_monitor t) = Unit
IsBefore (runs_loop x) = ⊥

abbrev pub is_stopped {ℓ} : {A : Type ℓ} → Start A → ℕ
is_stopped (goes a l) = 0
is_stopped (stops c l) = 1
is_stopped (overruns l) = 0

-- A part of the start frees the list if it stops, and does not if it goes on; the loop is not run.
pub record IsStage {ℓ} {A : Type ℓ} (m : Start A) : Type 0 where
  pub cleaned : cleanups (log m) ≡ is_stopped m
  pub before : All IsBefore (log m)

cleanups-append : (l m : List StartEvent) → cleanups (l ++ m) ≡ cleanups l + cleanups m
cleanups-append [] m = omega arith
cleanups-append (adds r ∷ l) m = cleanups-append l m
cleanups-append (releases r ∷ l) m = cleanups-append l m
cleanups-append (failure_free ∷ l) m = omega (arith, cleanups-append l m)
cleanups-append (success_free ∷ l) m = omega (arith, cleanups-append l m)
cleanups-append (authenticates_monitor h n ∷ l) m = cleanups-append l m
cleanups-append (authenticates_worker h n ∷ l) m = cleanups-append l m
cleanups-append (hooks_worker h ∷ l) m = cleanups-append l m
cleanups-append (sends_usernames k ∷ l) m = cleanups-append l m
cleanups-append (starts_monitor t ∷ l) m = cleanups-append l m
cleanups-append (runs_loop x ∷ l) m = cleanups-append l m

-- Freed once where it stops, and not if the start leaves a buffer.
abbrev pub IsCleaned {ℓ} : {A : Type ℓ} → Start A → Type 0
IsCleaned m = cleanups (log m) ≡ is_stopped m

pub behind-IsCleaned {ℓ} :
    {A : Type ℓ} (l : List StartEvent) (m : Start A)
    → cleanups l ≡ 0
    → IsCleaned m
    → IsCleaned (behind l m)
behind-IsCleaned l (goes a k) h c = omega (arith, cleanups-append l k)
behind-IsCleaned l (stops d k) h c = omega (arith, cleanups-append l k)
behind-IsCleaned l (overruns k) h c = omega (arith, cleanups-append l k)

module _ {ℓ} {A : Type ℓ} where
  behind-IsBefore :
      (l : List StartEvent) (m : Start A)
      → All IsBefore l
      → All IsBefore (log m)
      → All IsBefore (log (behind l m))
  behind-IsBefore l (goes a k) = All-append IsBefore l k
  behind-IsBefore l (stops c k) = All-append IsBefore l k
  behind-IsBefore l (overruns k) = All-append IsBefore l k

  behind-IsStage :
      (l : List StartEvent) (m : Start A)
      → cleanups l ≡ 0
      → All IsBefore l
      → IsStage m
      → IsStage (behind l m)
  behind-IsStage l m h b s = record {
    cleaned = behind-IsCleaned l m h s.cleaned;
    before = behind-IsBefore l m b s.before;
  }

  pub goes-IsStage : (a : A) → IsStage (goes a [])
  goes-IsStage a = record { cleaned = refl; before = tt }

  pub fails-IsStage : (c : ℤ) → IsStage {A = A} (fails c)
  fails-IsStage c = record { cleaned = refl; before = (tt, tt) }

  pub overruns-IsStage : IsStage {A = A} (overruns [])
  overruns-IsStage = record { cleaned = refl; before = tt }

  pub need-IsStage : (o : Option A) (c : ℤ) → IsStage (need o c)
  unfolding need
  need-IsStage none c = fails-IsStage c
  need-IsStage (some a) c = goes-IsStage a

pub IsStage-bind {ℓ κ} :
    {A : Type ℓ} {B : Type κ} (m : Start A) (f : A → Start B)
    → IsStage m
    → ((a : A) → IsStage (f a))
    → IsStage (m >>= f)
IsStage-bind (goes a l) f s k = behind-IsStage l (f a) s.cleaned s.before (k a)
IsStage-bind (stops c l) f s k = record { cleaned = s.cleaned; before = s.before }
IsStage-bind (overruns l) f s k = record { cleaned = s.cleaned; before = s.before }

pub check-IsStage : (b : Bool) (c : ℤ) → IsStage (check b c)
unfolding check
check-IsStage true c = goes-IsStage tt
check-IsStage false c = fails-IsStage c

pub accept-IsStage : (c : ℤ) → IsStage (accept c)
unfolding accept
accept-IsStage c = elim (Bool-cases (is_zero c)) [
  | inl good ↦ rw good (goes-IsStage tt)
  | inr bad ↦ rw bad (fails-IsStage c)
]

pub listed-IsStage : (w : StartAnswers) (r : Resource) → IsStage (listed w r)
unfolding listed
listed-IsStage w r = elim (Bool-cases (w.add r == 0)) [
  | inl taken ↦ rw taken (record { cleaned = refl; before = (tt, tt) })
  | inr refused ↦ rw refused (record { cleaned = refl; before = (tt, (tt, tt)) })
]

pub emit-IsStage : (e : StartEvent) → cleanups (e ∷ []) ≡ 0 → IsBefore e → IsStage (emit e)
unfolding emit
emit-IsStage e h b = record { cleaned = h; before = (b, tt) }
