-- ===== src/View/Timeline/Days.antt =====
-- The days in an open conversation of client/js/app.js: each message stands under its own.
use lattix.Prelude.{
  ℕ, ◌+◌, ◌-◌, ◌*◌, ◌≤◌, ◌<◌, ◌≡◌, refl, ap, sym, Text, same, same→eq, Bool, Option, none, some,
  List, [], ◌∷◌, map, arith, Bool-cases, inl, inr,
}
use lattix.History.{Message}
use lattix.Media.{round_div}
use lattix.Media.Sizes.{round_div_near, le_of_near}
use lattix.View.Timeline.{day_ms, days_between, Row, rows}

-- The label that a reader finds above each row, `last_day` above the first.
abbrev pub days_read : Text → List Row → List Text
days_read last_day [] = []
days_read last_day (row ∷ rest) =
    let day : Text = elim row.separator [ none ↦ last_day | some label ↦ label ] in
    day ∷ days_read day rest

-- The rows hold the messages in their order, and the label last seen above a message is that of its
-- own day.
pub days_read-rows :
    (label : ℕ → Text) (me : Text) (in_group : Bool) (last_day : Text) (prev : Option Message)
    (ms : List Message)
    → (map (λ (r : Row). r.message) (rows label me in_group last_day prev ms) ≡ ms)
      × (days_read last_day (rows label me in_group last_day prev ms) ≡ map (λ m. label m.ts) ms)
unfolding rows
days_read-rows label me in_group last_day prev [] = (refl, refl)
days_read-rows label me in_group last_day prev (m ∷ ms) =
    let r = days_read-rows label me in_group (label m.ts) (some m) ms in
    (
      ap (◌∷◌ m) r.0,
      elim (Bool-cases (same (label m.ts) last_day)) [
        | inl e ↦
            let day = same→eq (label m.ts) last_day e in
            rw e (rw (sym day) (ap (◌∷◌ (label m.ts)) r.1))
        | inr e ↦ rw e (ap (◌∷◌ (label m.ts)) r.1)
      ],
    )

-- A day that lies a number of calendar days back is counted as so many, although days with a change
-- of the clock are shorter or longer, as long as the changes sum up to less than half a day.
pub days_between_shifted :
    (now start k shift : ℕ)
    → start ≤ now
    → now ≤ start + k * day_ms + shift
    → start + k * day_ms ≤ now + shift
    → 2 * shift < day_ms
    → days_between now start ≡ some k
unfolding days_between
days_between_shifted now start k shift before late early small =
    let near = round_div_near (now - start) day_ms (omega arith) in
    let q = round_div (now - start) day_ms in
    let up = le_of_near q k day_ms (omega arith) (omega (arith, near.0)) in
    let down = le_of_near k q day_ms (omega arith) (omega (arith, near.1)) in
    ground (arith, up, down)
