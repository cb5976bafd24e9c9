-- ===== src/Composer/Tests.antt =====
-- The message box of client/js/app.js in concrete courses.
use lattix.Prelude.{
  ℕ, ◌∷◌, none, ◌≡◌, ◌≢◌, refl, arith, eq→same, codes, same, true, false, some, [],
}
use lattix.Prelude.Dict
use lattix.Config.{trim}
use lattix.Composer.Keys.{pasted, string_item, file_item}
use lattix.Composer.{
  State, Flight, started, file_begins, is_blank, get_draft, set_draft, put_draft, stored_draft,
  stash, is_open, select_conversation, on_input, send_begins, send_succeeds, send_fails, restored,
}

abbrev writing : State
writing = record {
  drafts = [];
  current = some (codes "anna");
  box = codes "hi ";
  can_send = true;
  busy = false;
  blocked = [];
  sent = [];
}

abbrev to_anna : Flight
to_anna = record { cid = codes "anna"; text = codes "hi" }

-- The user turns to bert while the text for anna is on its way, and the relay refuses it: the text
-- is in the box of bert's conversation, ready to be sent to him.
misdirected_test :
    let after = send_fails to_anna (select_conversation (codes "bert") (send_begins writing).0) in
    (after.current ≡ some (codes "bert")) × (after.box ≡ codes "hi") × (after.can_send ≡ true)
unfolding send_fails send_begins select_conversation is_open stash set_draft put_draft get_draft
    stored_draft is_blank trim same restored Dict.get Dict.put Dict.del
misdirected_test = (refl, refl, refl)

-- A text typed while another one is on its way is a draft that the success of the other deletes.
forgotten_test :
    let typed =
      set_draft (codes "anna") (codes "more") (on_input (codes "more") (send_begins writing).0) in
    get_draft (send_succeeds to_anna typed) (codes "anna") ≡ []
unfolding send_begins send_succeeds on_input set_draft put_draft get_draft stored_draft is_blank
    trim same Dict.get Dict.put Dict.del
forgotten_test = refl

-- Two files are taken, as the composer is locked only after the keys are there; the end of the first
-- unlocks it for both.
two_files_test :
    (file_begins 100 (some 7) writing ≡ started (codes "anna") 7)
    × (file_begins 100 (some 8) writing ≡ started (codes "anna") 8)
unfolding file_begins
two_files_test = (refl, refl)

apart : codes "anna" ≢ codes "bert"
apart e = ground (arith, eq→same (codes "anna") (codes "bert") e)

-- The first file is taken, even where it cannot be read.
pasted_test : pasted {F = ℕ} (string_item ∷ file_item none ∷ file_item (some 4) ∷ []) ≡ none
unfolding pasted
pasted_test = refl
