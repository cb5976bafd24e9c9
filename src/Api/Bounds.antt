-- ===== src/Api/Bounds.antt =====
-- How often `_req` of client/js/api.js sends and logs in, and that it ends.
use lattix.Prelude.{
  ℕ, zero, suc, ◌+◌, ◌-◌, ◌≤◌, ◌<◌, ◌≡◌, refl, Text, Bool, true, false, Option, some, arith, inl,
  inr, ◌⊎◌,
}
use lattix.Api.{
  Method, get, post, put, delete, Exchange, Outcome, Loop, Next, again, done, attempts_of,
  is_renewed, sleep_again, settle, renew, round, rounds, request,
}

pub Next-cases :
    (n : Next) → ((l : Loop) × (n ≡ again l)) ⊎ ((o : Outcome) × (l : Loop) × (n ≡ done o l))
Next-cases (again l) = inl (l, refl)
Next-cases (done o l) = inr (o, l, refl)

-- One for a renewal that has been tried.
abbrev spent : Bool → ℕ
spent false = 0
spent true = 1

record IsWithin (attempts : ℕ) (l : Loop) : Type 0 where
  attempt : l.attempt < attempts
  sent : l.sent ≤ l.attempt + spent l.reauthed
  logins : l.logins ≤ spent l.reauthed

-- What is left of the attempts and of the renewal.
abbrev left : ℕ → Loop → ℕ
left attempts l = attempts - l.attempt + (1 - spent l.reauthed)

module _ (attempts : ℕ) (path : Text) (x : Exchange) (l : Loop) (h : IsWithin attempts l) where
  round-again :
      (l' : Loop)
      → round attempts path x l ≡ again l'
      → IsWithin attempts l' × (left attempts l' < left attempts l)
  unfolding round settle renew sleep_again is_renewed
  round-again l' e = ground (arith, h.attempt, h.sent, h.logins)

  round-done :
      (o : Outcome) (l' : Loop)
      → round attempts path x l ≡ done o l'
      → (l'.sent ≤ attempts + 1) × (l'.logins ≤ 1)
  unfolding round settle renew sleep_again is_renewed
  round-done o l' e = ground (arith, h.attempt, h.sent, h.logins)

module _ (attempts : ℕ) (path : Text) (exchange : ℕ → Exchange) where
  -- With as much fuel as is left of the attempts and the renewal, the loop ends.
  rounds-total :
      (fuel : ℕ) (l : Loop)
      → IsWithin attempts l
      → left attempts l ≤ fuel
      → (o : Outcome) × (l' : Loop) × (rounds fuel attempts path exchange l ≡ some (o, l'))
        × (l'.sent ≤ attempts + 1)
        × (l'.logins ≤ 1)
  unfolding rounds
  rounds-total zero l h f = absurd (omega (arith, h.attempt))
  rounds-total (suc fuel) l h f = elim (Next-cases (round attempts path (exchange l.sent) l)) [
    | inl (l', e) ↦
        let s = round-again attempts path (exchange l.sent) l h l' e in
        let (o, last, r, b, c) = rounds-total fuel l' s.0 (omega (arith, s.1)) in
        (o, last, rw (e, rounds) r, b, c)
    | inr (o, l', e) ↦
        let b = round-done attempts path (exchange l.sent) l h o l' e in
        (o, l', rw (e, rounds), b.0, b.1)
  ]

-- Every request ends, with an outcome: after at most one sending for each attempt and one more for
-- a renewed token, and after at most one login.
pub request-bounded :
    (method : Method) (path : Text) (token : Option Text) (exchange : ℕ → Exchange)
    → (o : Outcome) × (l : Loop) × (request method path token exchange ≡ some (o, l))
      × (l.sent ≤ attempts_of method + 1)
      × (l.logins ≤ 1)
unfolding request attempts_of
request-bounded method path token exchange =
    rounds-total (attempts_of method) path exchange (attempts_of method + 1) _
      (record { attempt = positive method; sent = omega arith; logins = omega arith }) (omega arith)
  where
    positive : (m : Method) → 0 < attempts_of m
    positive get = omega arith
    positive post = omega arith
    positive put = omega arith
    positive delete = omega arith
