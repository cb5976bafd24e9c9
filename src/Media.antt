-- ===== src/Media.antt =====
-- Images and files in client/js/app.js: the size of a profile image, the text that tells a size, the
-- overlay while a file is dragged, and the object URLs of images that are shown.
pub mod Sizes
pub mod Dragging
pub mod Urls
mod Tests
use lattix.Prelude.{
  ℕ, ◌+◌, ◌-◌, ◌*◌, ◌/◌, ◌%◌, min, max, Text, codes, Bool, true, false, not, ◌&&◌, ◌||◌, Option,
  none, some, List, [], ◌∷◌, ◌++◌, filter, leb, ltb, ◌==◌, if◌then◌else◌,
}
use lattix.Prelude.Decimal.{decimal}
use lattix.Prelude.Ids.{member_id, remove_id}

-- `Math.round` of a fraction.
unfoldable pub round_div : ℕ → ℕ → ℕ
round_div n d = (2 * n + d) / (2 * d)

-- The side of an image that `resizeImage` draws, the longer side being `longest`. The scale is an exact
-- fraction here.
unfoldable pub resized : ℕ → ℕ → ℕ → ℕ
resized most longest side =
    max 1 (if leb longest most then side else round_div (side * most) longest)

-- `resizeImage`: the width and the height of the canvas.
unfoldable pub resize_image : ℕ → ℕ × ℕ → ℕ × ℕ
resize_image most (width, height) =
    (resized most (max width height) width, resized most (max width height) height)

-- `(n / unit).toFixed(1)`, in tenths; a unit is a power of two, by which a double divides exactly.
unfoldable pub tenths : ℕ → ℕ → ℕ
tenths n unit = round_div (10 * n) unit

unfoldable pub to_fixed : ℕ → Text
to_fixed t = decimal (t / 10) ++ codes "." ++ decimal (t % 10)

-- `fmtBytes`
unfoldable pub fmt_bytes : ℕ → Text
fmt_bytes n =
    if ltb n 1024
    then decimal n ++ codes " B"
    else if ltb n (1024 * 1024)
    then to_fixed (tenths n 1024) ++ codes " KB"
    else to_fixed (tenths n (1024 * 1024)) ++ codes " MB"

-- The overlay: `dragDepth` and the class "dropping".
pub record Zone : Type 0 where
  pub depth : ℕ
  pub dropping : Bool

-- The events of the zone; the flag tells that files are dragged.
pub data DragEvent : Type 0 where
  enter : Bool → DragEvent
  leave : DragEvent
  drop : Bool → DragEvent

-- `endDrag`
unfoldable pub end_drag : Zone → Zone
end_drag z = record z { depth = 0; dropping = false }

unfoldable pub drag : Zone → DragEvent → Zone
drag z (enter files) =
    if not files
    then z
    else record z { depth = z.depth + 1; dropping = if z.depth + 1 == 1 then true else z.dropping }
drag z leave = if leb z.depth 1 then end_drag z else record z { depth = z.depth - 1 }
drag z (drop files) = if files then end_drag z else z

unfoldable pub drag_all : Zone → List DragEvent → Zone
drag_all z [] = z
drag_all z (e ∷ es) = drag_all (drag z e) es

-- Object URLs: the images in the conversations, by the ids of their messages, those that have a URL,
-- and the URLs that the browser still holds.
pub record Gallery : Type 0 where
  pub messages : List ℕ
  pub urls : List ℕ
  pub alive : List ℕ

-- `revealImage` once the bytes are decrypted; the message may have been discarded meanwhile.
unfoldable pub reveal_image : ℕ → Gallery → Gallery
reveal_image id g =
    if member_id g.urls id then g else record g { urls = id ∷ g.urls; alive = id ∷ g.alive }

-- `releaseObjectUrls`
unfoldable pub release_object_urls : List ℕ → Gallery → Gallery
release_object_urls [] g = g
release_object_urls (id ∷ ids) g = release_object_urls ids (
    if member_id g.urls id
    then record g { urls = remove_id g.urls id; alive = remove_id g.alive id }
    else g)

unfoldable pub discard : List ℕ → Gallery → Gallery
discard [] g = g
discard (id ∷ ids) g = discard ids (record g { messages = remove_id g.messages id })

-- What the sweep does to expired messages, and what leaving a group does to all of them.
unfoldable pub sweep_images : List ℕ → Gallery → Gallery
sweep_images ids g = discard ids (release_object_urls ids g)

unfoldable pub leave_images : List ℕ → Gallery → Gallery
leave_images ids g = discard ids g
