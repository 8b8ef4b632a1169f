-- ===== src/Start/Loops.antt =====
-- packages/c/sshnpd/src/main.c: what stands behind the main loop when it is run.
pub mod Ready
use zettahealthonramp.Base.{
  ◌≡◌, refl, ap, inl, inr, Bool, true, false, Option, none, some, List, [], ◌∷◌, arith, Bool-cases,
  All, Any, Any-append,
}
use zettahealthonramp.Code.{is_zero, ℤ}
use zettahealthonramp.Start.{
  behind, ◌>>=◌, log, check, accept, need, LoopSetup, StartEvent, Start, adds, releases,
  failure_free, success_free, authenticates_monitor, authenticates_worker, hooks_worker,
  sends_usernames, starts_monitor, runs_loop, goes, stops, overruns,
}
use zettahealthonramp.Start.Cleaned.{IsBefore}

-- The stage goes on with this value.
abbrev pub Reaches {ℓ} : {A : Type ℓ} → Start A → A → Type ℓ
Reaches m a = (l : List StartEvent) × (m ≡ goes a l)

abbrev pub Runs {ℓ} : {A : Type ℓ} → LoopSetup → Start A → Type 0
Runs x m = Any (λ e. e ≡ runs_loop x) (log m)

before_ne : (e : StartEvent) (x : LoopSetup) → IsBefore e → e ≡ runs_loop x → ⊥
before_ne (adds r) x b h = cc
before_ne (releases r) x b h = cc
before_ne failure_free x b h = cc
before_ne success_free x b h = cc
before_ne (authenticates_monitor h n) x b e = cc
before_ne (authenticates_worker h n) x b e = cc
before_ne (hooks_worker h) x b e = cc
before_ne (sends_usernames k) x b h = cc
before_ne (starts_monitor t) x b h = cc
before_ne (runs_loop y) x b h = absurd b

before_absurd :
    (l : List StartEvent) (x : LoopSetup) → All IsBefore l → Any (λ e. e ≡ runs_loop x) l → ⊥
before_absurd [] x b h = h
before_absurd (e ∷ l) x (b, bs) (inl h) = before_ne e x b h
before_absurd (e ∷ l) x (b, bs) (inr h) = before_absurd l x bs h

Runs-behind {ℓ} :
    {A : Type ℓ} (l : List StartEvent) (m : Start A) (x : LoopSetup)
    → All IsBefore l
    → Runs x (behind l m)
    → Runs x m
Runs-behind l (goes a k) x b h = elim (Any-append _ l k h) [
  | inl here ↦ absurd (before_absurd l x b here)
  | inr there ↦ there
]
Runs-behind l (stops c k) x b h = elim (Any-append _ l k h) [
  | inl here ↦ absurd (before_absurd l x b here)
  | inr there ↦ there
]
Runs-behind l (overruns k) x b h = elim (Any-append _ l k h) [
  | inl here ↦ absurd (before_absurd l x b here)
  | inr there ↦ there
]

-- The loop is run by what follows a stage.
pub Runs-bind {ℓ κ} :
    {A : Type ℓ} {B : Type κ} (m : Start A) (f : A → Start B) (x : LoopSetup)
    → All IsBefore (log m)
    → Runs x (m >>= f)
    → (a : A) × Reaches m a × Runs x (f a)
Runs-bind (goes a l) f x s h = (a, (l, refl), Runs-behind l (f a) x s h)
Runs-bind (stops c l) f x s h = absurd (before_absurd l x s h)
Runs-bind (overruns l) f x s h = absurd (before_absurd l x s h)

Reaches-behind {ℓ} :
    {A : Type ℓ} (l : List StartEvent) (m : Start A) (a : A) → Reaches (behind l m) a → Reaches m a
Reaches-behind l (goes b k) a (n, h) = let q : b ≡ a = cc h in (k, ap (λ c. goes c k) q)
Reaches-behind l (stops c k) a (n, h) = absurd (cc)
Reaches-behind l (overruns k) a (n, h) = absurd (cc)

-- A sequence goes on if each part does.
pub passed {ℓ κ} :
    {A : Type ℓ} {B : Type κ} (f : A → Start B) (m : Start A) {b : B}
    → Reaches (m >>= f) b
    → (a : A) × Reaches m a × Reaches (f a) b
passed f (goes a l) {b} h = (a, (l, refl), Reaches-behind l (f a) b h)
passed f (stops c l) (n, h) = absurd (cc)
passed f (overruns l) (n, h) = absurd (cc)

pub check_passed : (b : Bool) (c : ℤ) {u : Unit {0}} → Reaches (check b c) u → b ≡ true
unfolding check
check_passed true c h = refl
check_passed false c (l, h) = absurd (cc)

pub accept_passed : (c : ℤ) {u : Unit {0}} → Reaches (accept c) u → is_zero c ≡ true
unfolding accept
accept_passed c (l, h) = elim (Bool-cases (is_zero c)) [
  | inl good ↦ good
  | inr bad ↦ absurd (ground (arith, bad))
]

pub need_passed {ℓ} :
    {A : Type ℓ} (o : Option A) (c : ℤ) {a : A} → Reaches (need o c) a → o ≡ some a
unfolding need
need_passed none c (l, h) = absurd (cc)
need_passed (some b) c (l, h) = cc
