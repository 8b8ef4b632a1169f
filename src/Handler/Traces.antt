-- ===== src/Handler/Traces.antt =====
-- Two views of what a handler of packages/c/sshnpd/src leaves behind: what it allocates and
-- releases, and what it does outside of the process.
use zettahealthonramp.Base.{
  ℕ, ◌+◌, ◌≡◌, refl, subst, inl, inr, Bool, true, false, Option, none, some, List, [], ◌∷◌, ◌++◌,
  arith, if◌then◌else◌, All, All-append, Any,
}
use zettahealthonramp.Handler.World.{
  logged, log, value, ◌>>=◌, deref, allocs, frees, Event, Trace, alloc, free, runs_srv, notifies,
  done, crash,
}

pub allocs-append : (r : ℕ) (l m : List Event) → allocs r (l ++ m) ≡ allocs r l + allocs r m
allocs-append r [] m = omega arith
allocs-append r (alloc s ∷ l) m = omega (arith, allocs-append r l m)
allocs-append r (free s ∷ l) m = allocs-append r l m
allocs-append r (runs_srv p ∷ l) m = allocs-append r l m
allocs-append r (notifies k t ∷ l) m = allocs-append r l m

pub frees-append : (r : ℕ) (l m : List Event) → frees r (l ++ m) ≡ frees r l + frees r m
frees-append r [] m = omega arith
frees-append r (alloc s ∷ l) m = frees-append r l m
frees-append r (free s ∷ l) m = omega (arith, frees-append r l m)
frees-append r (runs_srv p ∷ l) m = frees-append r l m
frees-append r (notifies k t ∷ l) m = frees-append r l m

abbrev pub Settles {ℓ} : {A : Type ℓ} → ℕ → ℕ → (A → ℕ) → Trace A → Type 0
Settles r c d (done a l) = allocs r l + c ≡ frees r l + d a
Settles r c d (crash l) = Unit

-- A call that is made while `c` of the resource are held, and that returns `a`, leaves `d a` of
-- it held.
pub record Moves {ℓ} {A : Type ℓ} (r c : ℕ) (d : A → ℕ) (t : Trace A) : Type 0 where
  pub settles : Settles r c d t

logged-Settles {ℓ} :
    {A : Type ℓ} (r c e : ℕ) (d : A → ℕ) (l : List Event) (t : Trace A)
    → allocs r l + c ≡ frees r l + e
    → Settles r e d t
    → Settles r c d (logged l t)
logged-Settles r c e d l (done a m) h k = omega (arith, allocs-append r l m, frees-append r l m)
logged-Settles r c e d l (crash m) h k = tt

module _ {ℓ} {A : Type ℓ} (r c : ℕ) where
  pub Moves-logged :
      (e : ℕ) (d : A → ℕ) (l : List Event) (t : Trace A)
      → allocs r l + c ≡ frees r l + e
      → Moves r e d t
      → Moves r c d (logged l t)
  Moves-logged e d l t h k = record { settles = logged-Settles r c e d l t h k.settles }

  pub Moves-done :
      (d : A → ℕ) (a : A) (l : List Event)
      → allocs r l + c ≡ frees r l + d a
      → Moves r c d (done a l)
  Moves-done d a l h = record { settles = h }

  pub Moves-if :
      (d : A → ℕ) (b : Bool) (t u : Trace A)
      → Moves r c d t
      → Moves r c d u
      → Moves r c d (if b then t else u)
  Moves-if d true t u h k = h
  Moves-if d false t u h k = k

  pub Moves-deref : (o : Option A) → Moves r c (λ a. c) (deref o)
  Moves-deref none = record { settles = tt }
  Moves-deref (some a) = record { settles = omega arith }

module _ {ℓ} {A : Type ℓ} (r c : ℕ) (d e : A → ℕ) where
  more_held : (t : Trace A) → ((a : A) → e a ≡ c + d a) → Settles r 0 d t → Settles r c e t
  more_held (done a l) q h = omega (arith, q a)
  more_held (crash l) q h = tt

  -- What is held on the way in is held on the way out.
  pub Moves-frame : (t : Trace A) → ((a : A) → e a ≡ c + d a) → Moves r 0 d t → Moves r c e t
  Moves-frame t q h = record { settles = more_held t q h.settles }

pub Moves-bind {ℓ κ} :
    {A : Type ℓ} {B : Type κ} (r c : ℕ) (e : A → ℕ) (d : B → ℕ) (m : Trace A) (f : A → Trace B)
    → Moves r c e m
    → ((a : A) → Moves r (e a) d (f a))
    → Moves r c d (m >>= f)
Moves-bind r c e d (done a l) f h k = Moves-logged r c (e a) d l (f a) h.settles (k a)
Moves-bind r c e d (crash l) f h k = record { settles = tt }

-- The same for the value that the first part has.
pub Moves-bind_value {ℓ κ} :
    {A : Type ℓ} {B : Type κ} (r c : ℕ) (e : A → ℕ) (d : B → ℕ) (m : Trace A) (f : A → Trace B)
    (a : A)
    → Moves r c e m
    → value m ≡ some a
    → Moves r (e a) d (f a)
    → Moves r c d (m >>= f)
Moves-bind_value r c e d (done x l) f a h v k =
    let q : a ≡ x = cc in
    Moves-logged r c (e x) d l (f x) h.settles (subst (λ y. Moves r (e y) d (f y)) q k)
Moves-bind_value r c e d (crash l) f a h v k = cc

-- A pointer is followed.
pub Moves-deref_bind {ℓ κ} :
    {A : Type ℓ} {B : Type κ} (r c : ℕ) (d : B → ℕ) (o : Option A) (f : A → Trace B)
    → ((a : A) → Moves r c d (f a))
    → Moves r c d (deref o >>= f)
Moves-deref_bind r c d none f k = record { settles = tt }
Moves-deref_bind r c d (some a) f k = Moves-logged r c c d [] (f a) (omega arith) (k a)

-- The events that stay inside of the process.
abbrev pub IsInward : Event → Type 0
IsInward (alloc s) = Unit
IsInward (free s) = Unit
IsInward (runs_srv p) = ⊥
IsInward (notifies k t) = ⊥

abbrev pub IsOutward : Event → Type 0
IsOutward (alloc s) = ⊥
IsOutward (free s) = ⊥
IsOutward (runs_srv p) = Unit
IsOutward (notifies k t) = Unit

pub record IsQuiet {ℓ} {A : Type ℓ} (t : Trace A) : Type 0 where
  pub inward : All IsInward (log t)

abbrev pub Emits {ℓ} : {A : Type ℓ} → Event → Trace A → Type 0
Emits e t = Any (λ x. x ≡ e) (log t)

outward-ne-inward : (x e : Event) → IsInward x → IsOutward e → x ≡ e → ⊥
outward-ne-inward (alloc s) (runs_srv p) i o h = cc
outward-ne-inward (alloc s) (notifies k t) i o h = cc
outward-ne-inward (free s) (runs_srv p) i o h = cc
outward-ne-inward (free s) (notifies k t) i o h = cc
outward-ne-inward (alloc s) (alloc u) i o h = absurd o
outward-ne-inward (alloc s) (free u) i o h = absurd o
outward-ne-inward (free s) (alloc u) i o h = absurd o
outward-ne-inward (free s) (free u) i o h = absurd o
outward-ne-inward (runs_srv p) e i o h = absurd i
outward-ne-inward (notifies k t) e i o h = absurd i

pub outward_absurd :
    (e : Event) (l : List Event) → IsOutward e → All IsInward l → Any (λ x. x ≡ e) l → ⊥
outward_absurd e [] o q h = h
outward_absurd e (x ∷ l) o (i, q) (inl h) = outward-ne-inward x e i o h
outward_absurd e (x ∷ l) o (i, q) (inr h) = outward_absurd e l o q h

behind_inward :
    (e : Event) (l m : List Event)
    → IsOutward e
    → All IsInward l
    → Any (λ x. x ≡ e) (l ++ m)
    → Any (λ x. x ≡ e) m
behind_inward e [] m o q h = h
behind_inward e (x ∷ l) m o (i, q) (inl h) = absurd (outward-ne-inward x e i o h)
behind_inward e (x ∷ l) m o (i, q) (inr h) = behind_inward e l m o q h

pub before_inward :
    (e : Event) (l m : List Event)
    → IsOutward e
    → All IsInward m
    → Any (λ x. x ≡ e) (l ++ m)
    → Any (λ x. x ≡ e) l
before_inward e [] m o q h = outward_absurd e m o q h
before_inward e (x ∷ l) m o q (inl h) = inl h
before_inward e (x ∷ l) m o q (inr h) = inr (before_inward e l m o q h)

pub Emits-logged {ℓ} :
    {A : Type ℓ} (e : Event) (l : List Event) (t : Trace A)
    → IsOutward e
    → All IsInward l
    → Emits e (logged l t)
    → Emits e t
Emits-logged e l (done a m) o q h = behind_inward e l m o q h
Emits-logged e l (crash m) o q h = behind_inward e l m o q h

-- An outward event of a sequence whose first part is quiet comes from the second part.
pub Emits-bind {ℓ κ} :
    {A : Type ℓ} {B : Type κ} (e : Event) (m : Trace A) (f : A → Trace B)
    → IsOutward e
    → IsQuiet m
    → Emits e (m >>= f)
    → (a : A) × (value m ≡ some a) × Emits e (f a)
Emits-bind e (done a l) f o q h = (a, refl, Emits-logged e l (f a) o q.inward h)
Emits-bind e (crash l) f o q h = absurd (outward_absurd e l o q.inward h)

logged-IsInward {ℓ} :
    {A : Type ℓ} (l : List Event) (t : Trace A)
    → All IsInward l
    → All IsInward (log t)
    → All IsInward (log (logged l t))
logged-IsInward l (done a m) = All-append IsInward l m
logged-IsInward l (crash m) = All-append IsInward l m

module _ {ℓ} {A : Type ℓ} where
  pub IsQuiet-done : (a : A) (l : List Event) → All IsInward l → IsQuiet (done a l)
  IsQuiet-done a l h = record { inward = h }

  pub IsQuiet-logged :
      (l : List Event) (t : Trace A) → All IsInward l → IsQuiet t → IsQuiet (logged l t)
  IsQuiet-logged l t h q = record { inward = logged-IsInward l t h q.inward }

  pub IsQuiet-if : (b : Bool) (t u : Trace A) → IsQuiet t → IsQuiet u → IsQuiet (if b then t else u)
  IsQuiet-if true t u p q = p
  IsQuiet-if false t u p q = q

module _ {ℓ κ} {A : Type ℓ} {B : Type κ} where
  pub IsQuiet-bind :
      (m : Trace A) (f : A → Trace B) → IsQuiet m → ((a : A) → IsQuiet (f a)) → IsQuiet (m >>= f)
  IsQuiet-bind (done a l) f q k = IsQuiet-logged l (f a) q.inward (k a)
  IsQuiet-bind (crash l) f q k = record { inward = q.inward }

  pub IsQuiet-deref :
      (o : Option A) (f : A → Trace B) → ((a : A) → IsQuiet (f a)) → IsQuiet (deref o >>= f)
  IsQuiet-deref none f k = record { inward = tt }
  IsQuiet-deref (some a) f k = IsQuiet-logged [] (f a) tt (k a)

module _ {ℓ} {A : Type ℓ} (e : Event) (o : IsOutward e) where
  pub quiet_silent : (t : Trace A) → IsQuiet t → Emits e t → ⊥
  quiet_silent t q h = outward_absurd e (log t) o q.inward h

  -- An outward event of a branching comes from the branch that is not quiet.
  pub Emits-if :
      (b : Bool) (t u : Trace A)
      → IsQuiet t
      → Emits e (if b then t else u)
      → (b ≡ false) × Emits e u
  Emits-if true t u q h = absurd (quiet_silent t q h)
  Emits-if false t u q h = (refl, h)

pub Emits-deref {ℓ κ} :
    {A : Type ℓ} {B : Type κ} (e : Event) (o : Option A) (f : A → Trace B)
    → IsOutward e
    → Emits e (deref o >>= f)
    → (a : A) × (o ≡ some a) × Emits e (f a)
Emits-deref e none f out h = absurd h
Emits-deref e (some a) f out h = (a, refl, Emits-logged e [] (f a) out tt h)

pub value-logged {ℓ} : {A : Type ℓ} (l : List Event) (t : Trace A) → value (logged l t) ≡ value t
value-logged l (done a m) = refl
value-logged l (crash m) = refl
