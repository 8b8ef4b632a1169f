-- ===== src/Control/Fuel.antt =====
-- packages/c/srv/src/srv.c: the loop of process_multiple_requests ends.
use zettahealthonramp.Base.{
  ℕ, zero, suc, ◌<◌, ◌≡◌, refl, inl, inr, Bool, arith, Option-cases, Text, length,
}
use zettahealthonramp.Control.{strtok, collect, process_multiple_requests}
use zettahealthonramp.Control.Tokens.{strtok-Cuts}

collect_fuel :
    (allocated : ℕ → Bool) (count f g : ℕ) (s : Text)
    → length s < f
    → length s < g
    → collect allocated count f s ≡ collect allocated count g s
unfolding collect
collect_fuel allocated count zero g s hf hg = absurd (omega arith)
collect_fuel allocated count (suc f) zero s hf hg = absurd (omega arith)
collect_fuel allocated count (suc f) (suc g) s hf hg = elim (Option-cases (strtok b'\n' s)) [
  | inl none_left ↦ rw (none_left, collect) refl
  | inr (r, e) ↦
      let c = strtok-Cuts b'\n' s r.0 r.1 e in
      let later =
        collect_fuel allocated (suc count) f g r.1 (omega (arith, c.shorter))
          (omega (arith, c.shorter)) in
      rw (e, collect, later) refl
]

-- Rounds enough for the length of the input, and one more, are enough: with any larger number of them
-- the loop hands on the same requests, so it has ended by itself, on every input and whatever realloc
-- answers.
pub process_multiple_requests_ends :
    (allocated : ℕ → Bool) (s : Text) (rounds : ℕ)
    → length s < rounds
    → collect allocated 0 rounds s ≡ process_multiple_requests allocated s
unfolding process_multiple_requests
process_multiple_requests_ends allocated s rounds h =
    collect_fuel allocated 0 rounds (suc (length s)) s h (omega arith)
