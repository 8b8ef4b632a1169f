-- ===== src/DeviceInfo/Usernames.antt =====
-- packages/c/sshnpd/src/device_info.c: what the daemon tells its managers when it starts, and that it
-- tells them no more.
use zettahealthonramp.Base.{
  ℕ, suc, ◌≡◌, refl, ap, ◌∙◌, inl, inr, Bool, true, ◌&&◌, List, [], ◌∷◌, ◌++◌, arith, if◌then◌else◌,
  Bool-cases, Text, codes, ok, ◌+◌, length, take-all, length-append,
}
use zettahealthonramp.Code.{is_zero, success, ℤ}
use zettahealthonramp.DeviceInfo.{
  snprintf, username_key, inits, frees, puts, deletes, initial_device_state, key_text,
  username_metadata, username_round, username_rounds, handle_username_keys, send_next_device_info,
  send_rounds, DeviceParams, Answers, KeyEvent,
}

-- The keys that are written or deleted, by their names.
abbrev pub written : List KeyEvent → List Text
written [] = []
written (inits ∷ l) = written l
written (frees ∷ l) = written l
written (puts k v ∷ l) = k ∷ written l
written (deletes k ∷ l) = k ∷ written l

key_text-length :
    (atsign middle device own : Text)
    → length (key_text atsign middle device own)
      ≡ length atsign + length middle + length device + length own + 6
key_text-length atsign middle device own =
    rw (length-append, length-append, length-append, length-append) (omega arith)

-- The buffer has room for the name.
username_key-full :
    (atsign device own : Text)
    → username_key atsign device own ≡ key_text atsign (codes ":username.") device own
unfolding username_key snprintf
username_key-full atsign device own =
    take-all _ (key_text atsign (codes ":username.") device own)
      (omega (arith, key_text-length atsign (codes ":username.") device own))

-- Whether the key of an atSign is understood and takes its metadata.
abbrev pub reaches : Answers → Text → Bool
reaches v key = is_zero (v.from_string key) && is_zero (username_metadata v)

abbrev pub write_code : Bool → Answers → ℤ
write_code make_visible v = if make_visible then v.put_shared_key else v.delete

module _ (v : Answers) (key username : Text) (make_visible : Bool) where
  round_written :
      (l : List KeyEvent)
      → written ((username_round v key username make_visible).1 ++ l)
        ≡ (if reaches v key then key ∷ written l else written l)
  unfolding username_round
  round_written l = elim (Bool-cases (is_zero (v.from_string key))) [
    | inr bad ↦ rw bad refl
    | inl good ↦ elim (Bool-cases (is_zero (username_metadata v))) [
      | inr unset ↦ rw (good, unset) refl
      | inl set ↦ elim (Bool-cases make_visible) [
        | inl shown ↦ rw (good, set, shown) refl
        | inr hidden ↦ rw (good, set, hidden) refl
      ]
    ]
  ]

  round_code :
      is_zero (username_round v key username make_visible).0
      ≡ (reaches v key && is_zero (write_code make_visible v))
  unfolding username_round
  round_code = elim (Bool-cases (is_zero (v.from_string key))) [
    | inr bad ↦ rw bad bad
    | inl good ↦ elim (Bool-cases (is_zero (username_metadata v))) [
      | inr unset ↦ rw (good, unset) unset
      | inl set ↦ elim (Bool-cases make_visible) [
        | inl shown ↦ rw (good, set, shown) refl
        | inr hidden ↦ rw (good, set, hidden) refl
      ]
    ]
  ]

module _ (w : ℕ → Answers) (username device own : Text) (make_visible : Bool) where
  abbrev pub user_key : Text → Text
  user_key atsign = key_text atsign (codes ":username.") device own

  -- The keys of those whose calls get as far as the write.
  abbrev pub reached : ℕ → List Text → List Text
  reached i [] = []
  reached i (atsign ∷ atsigns) =
      let rest = reached (suc i) atsigns in
      if reaches (w i) (user_key atsign) then user_key atsign ∷ rest else rest

  rounds_written :
      (i : ℕ) (ret : ℤ) (atsigns : List Text)
      → written (username_rounds w username device own make_visible i ret atsigns).1
        ≡ reached i atsigns
  unfolding username_rounds
  rounds_written i ret [] = refl
  rounds_written i ret (atsign ∷ atsigns) =
      rw
        (
          username_key-full atsign device own,
          round_written (w i) (user_key atsign) username make_visible,
          rounds_written (suc i) (username_round (w i) (user_key atsign) username make_visible).0
              atsigns,
        )
        refl

  -- Whether the round of the last atSign ends well; without a round the code is `ret`.
  abbrev pub last_ends_well : ℕ → Bool → List Text → Bool
  last_ends_well i before [] = before
  last_ends_well i before (atsign ∷ atsigns) =
      last_ends_well (suc i)
        (reaches (w i) (user_key atsign) && is_zero (write_code make_visible (w i))) atsigns

  rounds_code :
      (i : ℕ) (ret : ℤ) (atsigns : List Text)
      → is_zero (username_rounds w username device own make_visible i ret atsigns).0
        ≡ last_ends_well i (is_zero ret) atsigns
  unfolding username_rounds
  rounds_code i ret [] = refl
  rounds_code i ret (atsign ∷ atsigns) =
      rounds_code (suc i) _ atsigns
      ∙ ap (λ b. last_ends_well (suc i) b atsigns)
          (ap (λ k. is_zero (username_round (w i) k username make_visible).0)
              (username_key-full atsign device own)
            ∙ round_code (w i) (user_key atsign) username make_visible)

  -- The key of an atSign is written or deleted, under its full name, exactly if its own calls get that
  -- far, whatever those of the others answered; the code is 0 exactly if there is no atSign or the
  -- last one's calls end well.
  pub handle_username_keys_lem :
      (atsigns : List Text)
      → (written (handle_username_keys w username device own make_visible atsigns).1
          ≡ reached 0 atsigns)
        × (is_zero (handle_username_keys w username device own make_visible atsigns).0
            ≡ last_ends_well 0 true atsigns)
  unfolding handle_username_keys
  handle_username_keys_lem atsigns =
      (rounds_written 0 success atsigns, rounds_code 0 success atsigns)

send_unsent :
    (w : Answers) (p : DeviceParams) (value : Text)
    → send_next_device_info w p value initial_device_state ≡ ok (initial_device_state, [])
unfolding send_next_device_info
send_unsent w p value = ground arith

-- From the state that main sets up, no number of rounds of the main loop writes or deletes a key of
-- device info.
send_rounds_unsent :
    (ws : List Answers) (p : DeviceParams) (value : Text)
    → send_rounds ws p value initial_device_state ≡ ok (initial_device_state, [])
unfolding send_rounds
send_rounds_unsent [] p value = refl
send_rounds_unsent (w ∷ ws) p value = rw (send_unsent w p value, send_rounds_unsent ws p value) refl
