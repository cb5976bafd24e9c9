-- ===== src/Api/Outcomes.antt =====
-- What `_req` of client/js/api.js makes of the answers.
use lattix.Prelude.{
  ℕ, zero, suc, ◌+◌, ◌≤◌, ◌<◌, ◌≡◌, ◌≢◌, refl, ap, ◌∙◌, Text, Bool, true, false, Option, some,
  arith, ◌==◌, if◌then◌else◌, Bool-cases, inl, inr, ◌⊎◌,
}
use lattix.Api.{
  Method, get, post, put, delete, Answer, failed, answered, Exchange, Outcome, returned, lost,
  refused, Loop, again, done, attempts_of, is_retry_status, is_ok, is_auth_path, is_renewed,
  sleep_again, settle, renew, round, rounds, request, status_message,
}
use lattix.Api.Bounds.{Next-cases}

-- What an answer means to the caller.
abbrev pub outcome_of : Answer → Outcome
outcome_of (failed timeout) = lost timeout
outcome_of (answered s value detail) =
    if is_ok s then returned value else refused s (status_message s detail)

module _ (attempts : ℕ) (path : Text) (x : Exchange) (l : Loop) where
  round_sends : (l' : Loop) → round attempts path x l ≡ again l' → l'.sent ≡ l.sent + 1
  unfolding round settle renew sleep_again is_renewed
  round_sends l' e = ground arith

  round_tells :
      (o : Outcome) (l' : Loop)
      → round attempts path x l ≡ done o l'
      → (o ≡ outcome_of x.answer) × (l'.sent ≡ l.sent + 1)
  unfolding round settle renew sleep_again is_renewed
  round_tells o l' e = ground arith

Answer-cases :
    (a : Answer)
    → ((timeout : Bool) × (a ≡ failed timeout))
      ⊎ ((s : ℕ) × (value : Text) × (detail : Text) × (a ≡ answered s value detail))
Answer-cases (failed timeout) = inl (timeout, refl)
Answer-cases (answered s value detail) = inr (s, value, detail, refl)

round_resends :
    (path : Text) (x : Exchange) (l k : Loop)
    → round 1 path x l ≡ again k
    → (is_auth_path path ≡ false)
      × (l.reauthed ≡ false)
      × (k.reauthed ≡ true)
      × (value : Text) × (detail : Text) × (x.answer ≡ answered 401 value detail)
unfolding round settle renew sleep_again is_renewed
round_resends path x l k e = elim (Answer-cases x.answer) [
  | inl (timeout, a) ↦ absurd (ground arith)
  | inr (s, value, detail, a) ↦
      (ground arith, ground arith, ground arith, value, detail, ground arith)
]

attempts_of_write : (m : Method) → m ≢ get → attempts_of m ≡ 1
unfolding attempts_of
attempts_of_write get h = absurd (h refl)
attempts_of_write post h = refl
attempts_of_write put h = refl
attempts_of_write delete h = refl

-- A request that is no read is sent a second time only if the relay answered the first with 401,
-- so did not take it, and never on a path that logs in or out; never after its answer was lost.
pub write_resent_after_401 :
    (method : Method) (path : Text) (token : Option Text) (exchange : ℕ → Exchange) (o : Outcome)
    (l : Loop)
    → method ≢ get
    → request method path token exchange ≡ some (o, l)
    → 2 ≤ l.sent
    → (is_auth_path path ≡ false)
      × (value : Text) × (detail : Text) × ((exchange 0).answer ≡ answered 401 value detail)
unfolding request attempts_of rounds
write_resent_after_401 method path token exchange o l h e two =
    let one = attempts_of_write method h in
    let start : Loop = record {
      attempt = 0;
      reauthed = false;
      token = token;
      sent = 0;
      logins = 0;
      slept = 0;
    } in
    let run : rounds 2 1 path exchange start ≡ some (o, l) = rw one at e in
    elim (Next-cases (round 1 path (exchange 0) start)) [
      | inl (k, r) ↦
          let (free, _, _, value, detail, a) = round_resends path (exchange 0) start k r in
          (free, value, detail, a)
      | inr (o', k, r) ↦
          let t = round_tells 1 path (exchange 0) start o' k r in
          let last : rounds 2 1 path exchange start ≡ some (o', k) = rw (r, rounds) in
          absurd (ground (arith, t.1))
    ]

-- A failure that a read tries again after.
abbrev pub is_transient : Answer → Bool
is_transient (failed _) = true
is_transient (answered s _ _) = is_retry_status s

abbrev pub is_unauthorized : Answer → Bool
is_unauthorized (failed _) = false
is_unauthorized (answered s _ _) = s == 401

module _ (attempts : ℕ) (path : Text) (x : Exchange) (l : Loop) where
  round_transient :
      is_transient x.answer ≡ true
      → l.attempt + 1 < attempts
      → (k : Loop) × (round attempts path x l ≡ again k)
        × (k.attempt ≡ l.attempt + 1)
        × (k.sent ≡ l.sent + 1)
  unfolding round settle renew sleep_again is_renewed is_ok is_retry_status
  round_transient t more = elim (Next-cases (round attempts path x l)) [
    | inl (k, e) ↦ (k, e, ground arith, round_sends attempts path x l k e)
    | inr (o, k, e) ↦ absurd (ground arith)
  ]

  round_final :
      is_transient x.answer ≡ false
      → is_unauthorized x.answer ≡ false
      → (k : Loop) × (round attempts path x l ≡ done (outcome_of x.answer) k)
        × (k.sent ≡ l.sent + 1)
  unfolding round settle renew sleep_again is_renewed is_ok is_retry_status
  round_final t u = elim (Next-cases (round attempts path x l)) [
    | inl (k, e) ↦ absurd (ground arith)
    | inr (o, k, e) ↦
        let told = round_tells attempts path x l o k e in (k, e ∙ ap (λ r. done r k) told.0, told.1)
  ]

module _ (attempts : ℕ) (path : Text) (exchange : ℕ → Exchange) (m : ℕ)
    (t : (i : ℕ) → i < m → is_transient (exchange i).answer ≡ true)
    (f : is_transient (exchange m).answer ≡ false)
    (u : is_unauthorized (exchange m).answer ≡ false) where
  rounds-transient :
      (fuel : ℕ) (l : Loop)
      → l.sent ≤ m
      → l.attempt + m < attempts + l.sent
      → m < fuel + l.sent
      → (l' : Loop) × (rounds fuel attempts path exchange l
          ≡ some (outcome_of (exchange m).answer, l'))
        × (l'.sent ≡ m + 1)
  unfolding rounds
  rounds-transient zero l b a c = absurd (omega arith)
  rounds-transient (suc fuel) l b a c = elim (Bool-cases (l.sent == m)) [
    | inl e ↦
        let now : l.sent ≡ m = ground arith in
        let (k, r, s) = round_final attempts path (exchange l.sent) l (rw now f) (rw now u) in
        (k, rw (r, now, rounds) refl, omega (arith, s, now))
    | inr e ↦
        let later : l.sent < m = ground arith in
        let (k, r, q, s) =
          round_transient attempts path (exchange l.sent) l (t l.sent later) (omega arith) in
        let (l', run, sent) =
          rounds-transient fuel k (omega (arith, s)) (omega (arith, s, q)) (omega (arith, s)) in
        (l', rw (r, rounds) run, sent)
  ]

-- A read tries again after transport failures and the transient statuses 502, 503 and 504: the
-- first of its first three answers that is another, and not a 401, is what it comes to.
pub read_survives :
    (path : Text) (token : Option Text) (exchange : ℕ → Exchange) (n : ℕ)
    → n < 3
    → ((i : ℕ) → i < n → is_transient (exchange i).answer ≡ true)
    → is_transient (exchange n).answer ≡ false
    → is_unauthorized (exchange n).answer ≡ false
    → (l : Loop) × (request get path token exchange ≡ some (outcome_of (exchange n).answer, l))
      × (l.sent ≡ n + 1)
unfolding request attempts_of
read_survives path token exchange n h t f u =
    rounds-transient 3 path exchange n t f u 4
      (record { attempt = 0; reauthed = false; token = token; sent = 0; logins = 0; slept = 0 })
      (omega arith) (omega arith) (omega arith)
