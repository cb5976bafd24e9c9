-- ===== src/Composer/Drafts.antt =====
-- No text of the message box of client/js/app.js gets lost.
use lattix.Prelude.{
  ◌≡◌, ◌≢◌, refl, sym, subst, ◌∙◌, Text, same, same_refl, ne→same, true, false, not, ◌||◌, Option,
  none, some, [], if◌then◌else◌, Bool-cases, inl, inr,
}
use lattix.Prelude.Dict
use lattix.Config.{trim}
use lattix.Composer.{
  State, Flight, is_blank, get_draft, put_draft, stored_draft, set_draft, stash, is_open,
  select_conversation, on_input, send_begins, restored, send_fails,
}

stored_draft-put_draft :
    (drafts : Dict.Dict Text) (cid other text : Text)
    → cid ≢ []
    → stored_draft (put_draft cid text drafts) other
      ≡ (if same cid other then if is_blank text then [] else text else stored_draft drafts other)
unfolding stored_draft put_draft
stored_draft-put_draft drafts cid other text n = elim (Bool-cases (is_blank text)) [
  | inl blank ↦
      rw (ne→same cid [] n, put_draft, blank, stored_draft, Dict.get-del drafts cid other)
        (elim (Bool-cases (same cid other)) [ inl e ↦ rw e refl | inr e ↦ rw e refl ])
  | inr full ↦
      rw (ne→same cid [] n, put_draft, full, stored_draft, Dict.get-put drafts cid text other)
        (elim (Bool-cases (same cid other)) [ inl e ↦ rw e refl | inr e ↦ rw e refl ])
]

-- The state after opening another conversation.
select_conversation-other :
    (st : State) (here cid : Text)
    → st.current ≡ some here
    → here ≢ cid
    → here ≢ []
    → let drafts = put_draft here st.box st.drafts in
      let text = stored_draft drafts cid in
      select_conversation cid st ≡ record st {
        drafts = drafts;
        current = some cid;
        box = text;
        can_send = not (is_blank text);
      }
unfolding select_conversation is_open stash get_draft set_draft
select_conversation-other st here cid c ne n = rw (c, select_conversation, ne→same here cid ne) refl

-- A text that is not blank is there again when its conversation is opened again, whatever was typed
-- in another one meanwhile.
pub select_conversation-back :
    (st : State) (here there typed : Text)
    → st.current ≡ some here
    → here ≢ there
    → here ≢ []
    → there ≢ []
    → is_blank st.box ≡ false
    → let back = select_conversation here (on_input typed (select_conversation there st)) in
      (back.box ≡ st.box) × (back.current ≡ some here) × (back.can_send ≡ true)
unfolding on_input
select_conversation-back st here there typed c ne nh nt full =
    let drafts = put_draft here st.box st.drafts in
    let away : State = record st {
      drafts = drafts;
      current = some there;
      box = typed;
      can_send = not (is_blank typed || st.busy);
    } in
    let kept : stored_draft (put_draft there typed drafts) here ≡ st.box =
      stored_draft-put_draft drafts there here typed nt
      ∙ rw (ne→same there here (λ e. ne (sym e)))
          (stored_draft-put_draft st.drafts here here st.box nh ∙ rw (same_refl here, full) refl) in
    let P : State → Type 0 =
      λ t. (t.box ≡ st.box) × (t.current ≡ some here) × (t.can_send ≡ true) in
    let Q : State → Type 0 = λ t. P (select_conversation here (on_input typed t)) in
    subst Q (sym (select_conversation-other st here there c ne nh)) (
      subst P (sym (select_conversation-other away there here refl (λ e. ne (sym e)) nt))
        (kept, refl, rw (kept, full) refl))

-- Where a text is sent and the relay refuses it, and the user has gone on typing in the same
-- conversation, the box holds what was sent, followed on a new line by what was typed since.
pub send_fails-restored :
    (st : State) (cid typed : Text)
    → st.current ≡ some cid
    → is_blank st.box ≡ false
    → let flight : Flight = record { cid = cid; text = trim st.box } in
      let begun : State = record st { box = []; can_send = false } in
      (send_begins st ≡ (begun, some flight))
      × ((send_fails flight (on_input typed begun)).box ≡ restored (trim st.box) typed)
      × ((send_fails flight (on_input typed begun)).current ≡ some cid)
unfolding send_begins send_fails on_input set_draft
send_fails-restored st cid typed c full =
    let begun : State = record st { box = []; can_send = false } in
    let flight : Text → Flight = λ here. record { cid = here; text = trim st.box } in
    (
      subst
          (λ o.
            elim o as (λ _. State × Option Flight) [
              | none ↦ (st, none)
              | some here ↦ if is_blank st.box then (st, none) else (begun, some (flight here))
            ]
            ≡ (begun, some (flight cid)))
          (sym c) (rw full refl),
      refl,
      c,
    )
