-- ===== src/Side/Relay.antt =====
-- What the other side receives.
use zettahealthonramp.Base.{
  ℕ, zero, suc, ◌-◌, ◌<◌, ◌≡◌, refl, sym, ap, ◌∙◌, false, some, List, [], ◌∷◌, ◌++◌, append-nil,
  arith, if◌then◌else◌, Text, length, take, All,
}
use zettahealthonramp.Code.{ℤ, pos}
use zettahealthonramp.Side.{send_loop, transformed, relay, srv_side_handle, Sent, Hints}

take_all : (s : Text) → take (length s) s ≡ s
take_all [] = refl
take_all (c ∷ s) = ap (◌∷◌ c) (take_all s)

-- Every send takes all that it is given.
abbrev pub full_answers : List Text → List ℤ
full_answers [] = []
full_answers (c ∷ cs) = pos (length c) ∷ full_answers cs

-- The texts that the transformer makes of the chunks, round by round.
abbrev pub outputs : (ℕ → Text → Text) → ℕ → List Text → Text
outputs g k [] = []
outputs g k (c ∷ cs) = g k c ++ outputs g (suc k) cs

-- The side is a client of another client, and its transformer makes `g k c` of the chunk `c` in
-- round `k`, of the same length.
pub record Transforms (h : Hints) (g : ℕ → Text → Text) : Type 0 where
  pub reads : h.is_server ≡ false
  pub writes : h.other_is_server ≡ false
  pub makes : (k : ℕ) (c : Text) → transformed h k c ≡ some (g k c)
  pub keeps : (k : ℕ) (c : Text) → length (g k c) ≡ length c

send_loop_done :
    (s : Text) (answers : List ℤ) → send_loop s 0 answers ≡ record { bytes = []; answers = answers }
unfolding send_loop
send_loop_done s [] = refl
send_loop_done s (a ∷ answers) = refl

abbrev push : Text → Sent → Sent
push t r = record r { bytes = t ++ r.bytes }

send_loop_step :
    (s : Text) (len n : ℕ) (answers : List ℤ)
    → 0 < len
    → send_loop s len (pos n ∷ answers) ≡ push (take n s) (send_loop s (len - n) answers)
unfolding send_loop
send_loop_step s zero n answers h = elim h [ ]
send_loop_step s (suc len) n answers h = refl

send_loop_blocked : (s : Text) (len : ℕ) → send_loop s len [] ≡ record { bytes = []; answers = [] }
unfolding send_loop
send_loop_blocked s zero = refl
send_loop_blocked s (suc len) = refl

send_loop_full :
    (s : Text) (len : ℕ) (answers : List ℤ)
    → length s ≡ len
    → 0 < len
    → send_loop s len (pos len ∷ answers) ≡ record { bytes = s; answers = answers }
send_loop_full s len answers e h =
    let nothing_left : len - len ≡ 0 = omega arith in
    send_loop_step s len len answers h
    ∙ ap (λ m. push (take len s) (send_loop s m answers)) nothing_left
    ∙ ap (push (take len s)) (send_loop_done s answers)
    ∙ ap (λ b. record { bytes = b; answers = answers })
        (append-nil (take len s) ∙ ap (λ m. take m s) (sym e) ∙ take_all s)

-- Where a send takes `n` bytes and the next one the others, the second one starts over: the first
-- bytes of the buffer are sent again, and its last ones are not sent.
send_loop_partial :
    (s : Text) (len n : ℕ)
    → 0 < n
    → n < len
    → (send_loop s len (pos n ∷ pos (len - n) ∷ [])).bytes ≡ take n s ++ take (len - n) s
send_loop_partial s len n h k =
    ap (λ r. r.bytes) (send_loop_step s len n (pos (len - n) ∷ []) (omega arith))
    ∙ ap (λ r. take n s ++ r.bytes) (send_loop_step s (len - n) (len - n) [] (omega arith))
    ∙ ap (λ r. take n s ++ (take (len - n) s ++ r.bytes))
        (send_loop_blocked s (len - n - (len - n)))
    ∙ ap (λ t. take n s ++ t) (append-nil (take (len - n) s))

relay-outputs :
    (h : Hints) (g : ℕ → Text → Text) (k : ℕ) (chunks : List Text)
    → Transforms h g
    → All (λ c. 0 < length c) chunks
    → relay h k chunks (full_answers chunks) ≡ outputs g k chunks
unfolding relay
relay-outputs h g k [] t ne = refl
relay-outputs h g k (c ∷ cs) t (hc, hcs) = ground (
  arith,
  t.makes k c,
  send_loop_full (g k c) (length c) (full_answers cs) (t.keeps k c) hc,
  relay-outputs h g (suc k) cs t hcs,
)

-- If each send takes all that it is given, the other side receives the transformed chunks, whole
-- and in order.
pub srv_side_handle-outputs :
    (h : Hints) (g : ℕ → Text → Text) (chunks : List Text)
    → Transforms h g
    → All (λ c. 0 < length c) chunks
    → srv_side_handle h chunks (full_answers chunks) ≡ outputs g 0 chunks
unfolding srv_side_handle
srv_side_handle-outputs h g chunks t ne =
    ap (λ b. if b then [] else relay h 0 chunks (full_answers chunks)) t.reads
    ∙ relay-outputs h g 0 chunks t ne
