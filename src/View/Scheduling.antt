-- ===== src/View/Scheduling.antt =====
-- The coalescing of renders in client/js/app.js, and the part of a conversation that is rendered.
use lattix.Prelude.{
  if◌then◌else◌, ◌==◌, ℕ, ◌+◌, ◌-◌, ◌≤◌, ◌<◌, ◌≡◌, ap, ◌∙◌, arith, Text, Bool, true, false, ◌||◌,
  List, [], ◌∷◌, any, length, length-drop, ltb, if-cases, min,
}
use native.Mathlib.Nat.{mod-lt}
use lattix.History.{Message}
use lattix.View.{hidden_count, shown_messages, score_password, sender_hue, hue_step}

-- `_pendingRender`, with the frames that are requested, and the renders done, the newest first: of the
-- messages with their `force`, and of the contacts.
pub record Pending : Type 0 where
  pub msgs : Bool
  pub contacts : Bool
  pub force : Bool
  pub message_frames : ℕ
  pub contact_frames : ℕ
  pub message_renders : List Bool
  pub contact_renders : ℕ

unfoldable pub schedule_messages : Bool → Pending → Pending
schedule_messages force p =
    let forced = record p { force = p.force || force } in
    if p.msgs then forced else record forced { msgs = true; message_frames = p.message_frames + 1 }

unfoldable pub schedule_contacts : Pending → Pending
schedule_contacts p =
    if p.contacts then p else record p { contacts = true; contact_frames = p.contact_frames + 1 }

-- A frame of the messages; `open` tells whether a conversation is open.
unfoldable pub message_frame : Bool → Pending → Pending
message_frame open_convo p = if p.message_frames == 0 then p else record p {
  msgs = false;
  force = false;
  message_frames = p.message_frames - 1;
  message_renders = if open_convo then p.force ∷ p.message_renders else p.message_renders;
}

unfoldable pub contact_frame : Pending → Pending
contact_frame p = if p.contact_frames == 0 then p else record p {
  contacts = false;
  contact_frames = p.contact_frames - 1;
  contact_renders = p.contact_renders + 1;
}

-- Requests to render the messages, one after the other.
unfoldable pub burst : List Bool → Pending → Pending
burst [] p = p
burst (force ∷ forces) p = burst forces (schedule_messages force p)

burst_pending :
    (forces : List Bool) (p : Pending) (force : Bool)
    → burst forces (record p { msgs = true; force = force })
      ≡ record p { msgs = true; force = force || any (λ f. f) forces }
unfolding burst schedule_messages
burst_pending [] p force = ap (λ f. record p { msgs = true; force = f }) (ground arith)
burst_pending (g ∷ forces) p force =
    burst_pending forces p (force || g)
    ∙ ap (λ f. record p { msgs = true; force = f }) (ground arith)

-- Any number of requests before a frame lead to one render in it, which jumps to the newest message
-- if one of them asked for that; and nothing is left to be rendered.
pub burst-message_frame :
    (p : Pending) (force : Bool) (forces : List Bool)
    → let idle = record p { msgs = false; force = false; message_frames = 0 } in
      message_frame true (burst (force ∷ forces) idle)
      ≡ record idle { message_renders = (any (λ f. f) (force ∷ forces)) ∷ p.message_renders }
unfolding burst schedule_messages message_frame
burst-message_frame p force forces =
    ap (message_frame true) (burst_pending forces (record p { message_frames = 1 }) force)

-- What is hidden and what is shown make up the conversation, and as many messages as the window has
-- are shown, if there are so many.
pub shown_messages-length :
    (size : ℕ) (messages : List Message)
    → (hidden_count size messages + length (shown_messages size messages) ≡ length messages)
      × (length (shown_messages size messages) ≡ min size (length messages))
unfolding hidden_count shown_messages
shown_messages-length size messages =
    let h = length-drop (length messages - size) messages in (omega (arith, h), omega (arith, h))

score_password-bounds : (pw : Text) → score_password pw ≤ 4
unfolding score_password
score_password-bounds pw =
    if-cases (λ n. n ≤ 4) (ltb (length pw) 8) (λ _. omega arith) (λ _. omega arith)

sender_hue-bounds : (seed : Text) → sender_hue seed < 360
unfolding sender_hue
sender_hue-bounds seed = mod-lt (hue_step seed 0) (omega arith)
