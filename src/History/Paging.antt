-- ===== src/History/Paging.antt =====
-- `pullHistory` of client/js/app.js, against a relay that answers a page at a time.
use lattix.Prelude.{
  ℕ, zero, suc, ◌≤◌, ◌<◌, ◌≡◌, refl, ap, ◌∙◌, sym, List, [], ◌∷◌, ◌++◌, filter, take, drop, length,
  length-take, length-drop, take-append-drop, All, arith, leb, ltb, Bool-cases, inl, inr, min,
}
use lattix.History.{Envelope, pull_history, last_id}

-- The relay's history is in the order of the ids, and none occurs twice.
abbrev pub InOrder : List Envelope → Type 0
InOrder [] = Unit {0}
InOrder (e ∷ es) = All (λ d. e.id < d.id) es × InOrder es

abbrev pub newer : ℕ → List Envelope → List Envelope
newer since = filter (λ e. ltb since e.id)

-- The answer to `?since=`: the oldest envelopes that are newer, at most a page of them.
abbrev pub relay_page : List Envelope → ℕ → ℕ → List Envelope
relay_page history page_size since = take page_size (newer since history)

newer_all : (since : ℕ) (es : List Envelope) → All (λ e. since < e.id) es → newer since es ≡ es
newer_all since [] h = refl
newer_all since (e ∷ es) h = ground (arith, newer_all since es)

newer-newer : (s t : ℕ) (es : List Envelope) → s ≤ t → newer t (newer s es) ≡ newer t es
newer-newer s t [] h = refl
newer-newer s t (e ∷ es) h = ground (arith, newer-newer s t es h)

pub All-newer : (s : ℕ) (es : List Envelope) → All (λ e. s < e.id) (newer s es)
All-newer s [] = tt
All-newer s (e ∷ es) = elim (Bool-cases (ltb s e.id)) [
  | inl c ↦ rw (c) ((ground arith), All-newer s es)
  | inr c ↦ rw (c) (All-newer s es)
]

All-filter : (P : Envelope → Type 0) (s : ℕ) (es : List Envelope) → All P es → All P (newer s es)
All-filter P s [] h = tt
All-filter P s (e ∷ es) h = elim (Bool-cases (ltb s e.id)) [
  | inl c ↦ rw (c) (h.0, All-filter P s es h.1)
  | inr c ↦ rw (c) (All-filter P s es h.1)
]

pub InOrder-newer : (s : ℕ) (es : List Envelope) → InOrder es → InOrder (newer s es)
InOrder-newer s [] h = tt
InOrder-newer s (e ∷ es) h = elim (Bool-cases (ltb s e.id)) [
  | inl c ↦ rw (c) (All-filter _ s es h.0, InOrder-newer s es h.1)
  | inr c ↦ rw (c) (InOrder-newer s es h.1)
]

last_id_later :
    (page rest : List Envelope) (since : ℕ)
    → All (λ e. since < e.id) (page ++ rest)
    → InOrder (page ++ rest)
    → since ≤ last_id since page
unfolding last_id
last_id_later [] rest since h o = omega arith
last_id_later (e ∷ page) rest since h o = ground (arith, last_id_later page rest e.id o.0 o.1, h.0)

-- What is newer than the last envelope of a page is what follows the page.
newer-last_id :
    (page rest : List Envelope) (since : ℕ)
    → All (λ e. since < e.id) (page ++ rest)
    → InOrder (page ++ rest)
    → newer (last_id since page) (page ++ rest) ≡ rest
unfolding last_id
newer-last_id [] rest since h o = newer_all since rest h
newer-last_id (e ∷ page) rest since h o =
    ground (arith, newer-last_id page rest e.id o.0 o.1, last_id_later page rest e.id o.0 o.1)

newer_rest :
    (history : List Envelope) (n since : ℕ)
    → InOrder history
    → newer (last_id since (take n (newer since history))) history ≡ drop n (newer since history)
newer_rest history n since o =
    let N = newer since history in
    let whole : take n N ++ drop n N ≡ N = take-append-drop n N in
    let later : All (λ e. since < e.id) (take n N ++ drop n N) =
      rw (whole) (All-newer since history) in
    let ordered : InOrder (take n N ++ drop n N) = rw (whole) (InOrder-newer since history o) in
    let le = last_id_later (take n N) (drop n N) since later ordered in
    sym (newer-newer since (last_id since (take n N)) history le)
    ∙ ap (newer (last_id since (take n N))) (sym whole)
    ∙ newer-last_id (take n N) (drop n N) since later ordered

take_all : (n : ℕ) (es : List Envelope) → length es ≤ n → take n es ≡ es
take_all zero [] h = refl
take_all zero (e ∷ es) h = absurd (omega arith)
take_all (suc n) [] h = refl
take_all (suc n) (e ∷ es) h = ap (◌∷◌ e) (take_all n es (omega arith))

-- Against a relay that answers pages of the size it announced, the loop ingests exactly the
-- envelopes newer than the starting id, each once and in order, as long as its guard exceeds
-- their number.
pub pull_history-relay_page :
    (history : List Envelope) (guard page_size since : ℕ)
    → InOrder history
    → 0 < page_size
    → length (newer since history) < guard
    → pull_history guard page_size (relay_page history page_size) since ≡ newer since history
unfolding pull_history
pull_history-relay_page history zero page_size since o pos h = absurd (omega arith)
pull_history-relay_page history (suc guard) page_size since o pos h =
    let N = newer since history in
    let measure : length (take page_size N) ≡ min page_size (length N) = length-take page_size N in
    elim (Bool-cases (leb page_size (length (take page_size N)))) [
      | inl c ↦
          let rest : newer (last_id since (take page_size N)) history ≡ drop page_size N =
            newer_rest history page_size since o in
          let step =
            pull_history-relay_page history guard page_size (last_id since (take page_size N)) o pos
              (rw (rest, length-drop page_size N) (ground arith)) in
          rw (c, step, rest, pull_history) (take-append-drop page_size N)
      | inr c ↦ rw (c, pull_history) (take_all page_size N (ground arith))
    ]
