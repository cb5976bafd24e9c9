-- ===== src/Groups/Picking.antt =====
-- The members that a new group of client/js/app.js is created with, and the metadata that a load keeps.
use lattix.Prelude.{
  ℕ, ◌+◌, ◌≤◌, ◌≡◌, refl, ap, ◌∙◌, Text, same, same_iff, Bool, true, false, some, List, [], ◌∷◌,
  if◌then◌else◌, arith, Bool-cases, inl, inr, same_refl,
}
use lattix.Prelude.Dict
use lattix.Prelude.Dict.{Dict, member-add, member-remove, get-put}
use lattix.Groups.{
  Click, pick, unpick, click, clicks, GroupMeta, stub, merge_meta, present_or, ensure_group_meta,
}

-- What the last click on a person says, `was` before any.
abbrev pub last_click : Text → Bool → List Click → Bool
last_click u was [] = was
last_click u was (pick v ∷ cs) = last_click u (if same v u then true else was) cs
last_click u was (unpick v ∷ cs) = last_click u (if same v u then false else was) cs

abbrev pub times : List Text → Text → ℕ
times [] u = 0
times (v ∷ vs) u = (if same v u then 1 else 0) + times vs u

times-add :
    (vs : List Text) (v u : Text)
    → times (Dict.add vs v) u
      ≡ times vs u + (if same v u then (if Dict.member vs v then 0 else 1) else 0)
unfolding Dict.add Dict.member
times-add [] v u = ground arith
times-add (w ∷ vs) v u = ground (arith, times-add vs v u, same_iff w v, same_iff w u, same_iff v u)

times-remove :
    (vs : List Text) (v u : Text)
    → times (Dict.remove vs v) u ≡ (if same v u then 0 else times vs u)
unfolding Dict.remove
times-remove [] v u = ground arith
times-remove (w ∷ vs) v u =
    ground (arith, times-remove vs v u, same_iff w v, same_iff w u, same_iff v u)

absent_never : (vs : List Text) (u : Text) → Dict.member vs u ≡ false → times vs u ≡ 0
unfolding Dict.member
absent_never [] u h = refl
absent_never (v ∷ vs) u h = ground (arith, h, absent_never vs u)

click_once :
    (vs : List Text) (c : Click) (u : Text)
    → ((w : Text) → times vs w ≤ 1)
    → times (click vs c) u ≤ 1
unfolding click
click_once vs (pick v) u h = elim (Bool-cases (same v u)) [
  | inl e ↦ ground (arith, times-add vs v u, h u, h v, absent_never vs v, e, same_iff v u)
  | inr e ↦ ground (arith, times-add vs v u, h u, e)
]
click_once vs (unpick v) u h = ground (arith, times-remove vs v u, h u)

-- Whatever persons are picked and taken away again: a group is created with exactly those of whom the
-- last click says so, or who were there before and not clicked on, and with none of them twice.
pub clicks_last :
    (members : List Text) (cs : List Click) (u : Text)
    → ((w : Text) → times members w ≤ 1)
    → (Dict.member (clicks members cs) u ≡ last_click u (Dict.member members u) cs)
      × (times (clicks members cs) u ≤ 1)
unfolding clicks click
clicks_last members [] u h = (refl, h u)
clicks_last members (pick v ∷ cs) u h =
    let r = clicks_last (Dict.add members v) cs u (λ w. click_once members (pick v) w h) in
    (r.0 ∙ ap (λ b. last_click u b cs) (member-add members v u ∙ ground arith), r.1)
clicks_last members (unpick v ∷ cs) u h =
    let r = clicks_last (Dict.remove members v) cs u (λ w. click_once members (unpick v) w h) in
    (r.0 ∙ ap (λ b. last_click u b cs) (member-remove members v u ∙ ground arith), r.1)

-- The stub that a load of the history makes takes nothing from what is known of a group.
pub ensure_group_meta-stub :
    (cid : Text) (metas : Dict GroupMeta) (meta : GroupMeta)
    → Dict.get metas cid ≡ some meta
    → Dict.get (ensure_group_meta cid stub metas) cid ≡ some meta
unfolding ensure_group_meta merge_meta present_or
ensure_group_meta-stub cid metas meta e =
    rw (e, ensure_group_meta) (get-put metas cid meta cid ∙ (rw (same_refl cid) refl))
