-- ===== src/Media/Urls.antt =====
-- Object URLs in client/js/app.js: which of them belong to a message that is still there.
use lattix.Prelude.{
  ℕ, ◌≡◌, refl, ap, sym, ◌∙◌, ==_iff, true, false, List, [], ◌∷◌, ◌==◌, arith, Bool-cases, inl, inr,
  if◌then◌else◌,
}
use lattix.Prelude.Ids.{member_id, remove_id, member_id-remove_id}
use lattix.Media.{Gallery, release_object_urls, discard, sweep_images, leave_images}

-- Every URL that the browser holds is one that a message has, and that message is still there.
pub record IsOwned (g : Gallery) : Type 0 where
  pub had : (id : ℕ) → member_id g.alive id ≡ member_id g.urls id
  pub here : (id : ℕ) → member_id g.alive id ≡ true → member_id g.messages id ≡ true

member_id-release :
    (ids : List ℕ) (g : Gallery) (id : ℕ)
    → ((i : ℕ) → member_id g.alive i ≡ member_id g.urls i)
    → (member_id (release_object_urls ids g).alive id
        ≡ (if member_id ids id then false else member_id g.alive id))
      × (member_id (release_object_urls ids g).urls id
          ≡ (if member_id ids id then false else member_id g.urls id))
      × ((release_object_urls ids g).messages ≡ g.messages)
unfolding release_object_urls member_id
member_id-release [] g id h = (refl, refl, refl)
member_id-release (i ∷ ids) g id h = elim (Bool-cases (member_id g.urls i)) [
  | inl e ↦
      let g' : Gallery = record g { urls = remove_id g.urls i; alive = remove_id g.alive i } in
      let same_urls : (k : ℕ) → member_id g'.alive k ≡ member_id g'.urls k =
        λ k. ground (arith, h k, member_id-remove_id g.alive i k, member_id-remove_id g.urls i k) in
      let r = member_id-release ids g' id same_urls in
      rw (e, release_object_urls)
        (
          ground (arith, r.0, member_id-remove_id g.alive i id),
          ground (arith, r.1, member_id-remove_id g.urls i id),
          r.2,
        )
  | inr e ↦
      let r = member_id-release ids g id h in
      let gone : (i == id) ≡ true → member_id g.urls id ≡ false =
        λ p. ap (member_id g.urls) (sym ((==_iff i id).0 p)) ∙ e in
      rw (e, release_object_urls) (ground (arith, r.0, gone, h id), ground (arith, r.1, gone), r.2)
]

discard_effect :
    (ids : List ℕ) (g : Gallery) (id : ℕ)
    → ((discard ids g).alive ≡ g.alive)
      × ((discard ids g).urls ≡ g.urls)
      × (member_id (discard ids g).messages id
          ≡ (if member_id ids id then false else member_id g.messages id))
unfolding discard member_id
discard_effect [] g id = (refl, refl, refl)
discard_effect (i ∷ ids) g id =
    let r = discard_effect ids (record g { messages = remove_id g.messages i }) id in
    (r.0, r.1, ground (arith, r.2, member_id-remove_id g.messages i id))

-- The sweep leaves no URL behind: where every URL that the browser holds belongs to a message that is
-- there, this is so after any messages have been swept.
pub sweep_images-IsOwned : (ids : List ℕ) (g : Gallery) → IsOwned g → IsOwned (sweep_images ids g)
unfolding sweep_images
sweep_images-IsOwned ids g h =
    let released = release_object_urls ids g in
    record {
      had = λ id.
          let r = member_id-release ids g id h.had in
          let d = discard_effect ids released id in
          ground
            (arith, r.0, r.1, h.had id, ap (λ l. member_id l id) d.0, ap (λ l. member_id l id) d.1);
      here = λ id alive.
          let r = member_id-release ids g id h.had in
          let d = discard_effect ids released id in
          ground (
            arith,
            alive,
            r.0,
            h.here id,
            ap (λ l. member_id l id) d.0,
            d.2,
            ap (λ l. member_id l id) r.2,
          );
    }

-- Leaving a group does not: the URL of an image in it is held although its message is gone.
pub leave_images_leaks :
    (ids : List ℕ) (g : Gallery) (id : ℕ)
    → member_id ids id ≡ true
    → member_id g.alive id ≡ true
    → (member_id (leave_images ids g).alive id ≡ true)
      × (member_id (leave_images ids g).messages id ≡ false)
unfolding leave_images
leave_images_leaks ids g id here alive =
    let d = discard_effect ids g id in
    (ap (λ l. member_id l id) d.0 ∙ alive, d.2 ∙ ground (arith, here))
