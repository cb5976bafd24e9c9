-- ===== src/View/Tests.antt =====
-- The screen of client/js/app.js in concrete cases.
use lattix.Prelude.{
  ℕ, ◌+◌, ◌*◌, ◌≡◌, refl, arith, Text, codes, same, true, false, none, List, [], ◌∷◌, ◌==◌,
  if◌then◌else◌, if-cases, append-nil,
}
use lattix.Prelude.Dict
use lattix.Prelude.Ids.{count_id}
use lattix.History.{State, Convo, Message, message, dm}
use lattix.View.Cards.{quote, split_lines, join_lines}
use lattix.View.{
  last_ts, last_ts_of, is_hidden, matches_filter, contacts, sort_recent, insert_recent, is_listed,
  score_password,
}
use lattix.View.Html.{
  Segment, plain, link, segment_text, text_of, escape_html, escape_char, message_html, link_count,
  link_lines, message_html-markup,
}

-- Everything is a link if the text has no line end.
abbrev whole_link : Text → List Segment
whole_link t = if count_id t 10 == 0 then link t ∷ [] else plain t ∷ []

whole_text : (t : Text) → text_of (whole_link t) ≡ t
unfolding text_of segment_text
whole_text t =
    if-cases (λ s. text_of s ≡ t) (count_id t 10 == 0) (λ _. append-nil t) (λ _. append-nil t)

whole_lines : (t : Text) → link_lines (whole_link t) ≡ 0
unfolding link_lines
whole_lines t =
    if-cases (λ s. link_lines s ≡ 0) (count_id t 10 == 0) (λ e. ground (arith, e)) (λ _. refl)

escape_test : escape_html (codes "<b>&") ≡ codes "&lt;b&gt;&amp;"
unfolding escape_html escape_char
escape_test = refl

message_html-markup_example :
    let links = link_count (whole_link (escape_html (codes "<x>"))) in
    (count_id (message_html whole_link (codes "<x>")) b'<' ≡ 2 * links + count_id (codes "<x>") 10)
    × (count_id (message_html whole_link (codes "<x>")) b'"' ≡ 6 * links)
    × (count_id (message_html whole_link (codes "<x>")) b'>'
        ≡ 2 * links + count_id (codes "<x>") 10)
message_html-markup_example = message_html-markup whole_link (codes "<x>") whole_text whole_lines

abbrev note : ℕ → Message
note ts = record {
  id = ts;
  sender = codes "anna";
  ts = ts;
  kind = message;
  text = codes "hi";
  verified = true;
  key_alert = false;
  has_payload = false;
  expires_at = none;
}

abbrev convo_of : Text → ℕ → Convo
convo_of name ts = record { peer = dm name; messages = note ts ∷ []; unread = 0; max_id = ts }

abbrev three : State
three = record {
  me = codes "me";
  convos =
      (codes "anna", convo_of (codes "anna") 5)
      ∷ (codes "bert", convo_of (codes "bert") 9)
      ∷ (codes "carl", convo_of (codes "carl") 7)
      ∷ [];
  seen = [];
  blocked = codes "carl" ∷ [];
  current = none;
}

contacts_test : contacts (λ t. t) (λ _. []) three [] ≡ codes "bert" ∷ codes "anna" ∷ []
unfolding contacts sort_recent insert_recent last_ts last_ts_of is_listed is_hidden matches_filter
    same Dict.get Dict.member
contacts_test = refl

score_test : score_password (codes "Correct-horse-9battery") ≡ 4
unfolding score_password
score_test = refl

quote_test : quote (codes "a\nb") (codes "c") ≡ codes "> a\n> b\n\nc"
unfolding quote split_lines join_lines
quote_test = refl
