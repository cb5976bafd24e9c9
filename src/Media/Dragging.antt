-- ===== src/Media/Dragging.antt =====
-- The overlay of client/js/app.js while a file is dragged over the conversation.
use lattix.Prelude.{◌≡◌, refl, true, false, List, [], ◌∷◌, ltb, arith}
use lattix.Media.{Zone, DragEvent, enter, leave, drop, drag, drag_all, end_drag}

drag-agrees :
    (z : Zone) (e : DragEvent)
    → z.dropping ≡ ltb 0 z.depth
    → (drag z e).dropping ≡ ltb 0 (drag z e).depth
unfolding drag end_drag
drag-agrees z (enter true) h = ground (arith, h)
drag-agrees z (enter false) h = h
drag-agrees z leave h = ground (arith, h)
drag-agrees z (drop true) h = refl
drag-agrees z (drop false) h = h

-- Whatever events come, the overlay is shown exactly while the depth is not zero.
pub drag_all-agrees :
    (z : Zone) (events : List DragEvent)
    → z.dropping ≡ ltb 0 z.depth
    → (drag_all z events).dropping ≡ ltb 0 (drag_all z events).depth
unfolding drag_all
drag_all-agrees z [] h = h
drag_all-agrees z (e ∷ es) h = drag_all-agrees (drag z e) es (drag-agrees z e h)
