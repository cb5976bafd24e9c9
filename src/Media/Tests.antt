-- ===== src/Media/Tests.antt =====
-- Images, sizes and dragging of client/js/app.js at concrete inputs.
use lattix.Prelude.{◌≡◌, refl, ◌≤◌, max, min, arith, codes, true, false, [], ◌∷◌}
use lattix.Prelude.Decimal.{decimal}
use lattix.Prelude.Ids.{member_id}
use lattix.Media.{
  round_div, resized, resize_image, tenths, to_fixed, fmt_bytes, enter, leave, drag, drag_all,
  reveal_image,
}
use lattix.Media.Sizes.{resize_image_bounds}

resize_image_bounds_example :
    let (w, h) = resize_image 256 (1000, 333) in
    (1 ≤ w) × (w ≤ 256) × (1 ≤ h) × (h ≤ 256) × (max w h ≡ max 1 (min 256 (max 1000 333)))
resize_image_bounds_example = resize_image_bounds 256 1000 333 (omega arith)

resize_image_test : resize_image 256 (1000, 333) ≡ (256, 85)
unfolding resize_image resized round_div
resize_image_test = refl

fmt_bytes_test : fmt_bytes 1536 ≡ codes "1.5 KB"
unfolding fmt_bytes tenths to_fixed round_div decimal
fmt_bytes_test = refl

-- One byte less than a megabyte.
fmt_bytes_edge_test : fmt_bytes 1048575 ≡ codes "1024.0 KB"
unfolding fmt_bytes tenths to_fixed round_div decimal
fmt_bytes_edge_test = refl

-- Over a child of the zone and out again.
drag_test :
    drag_all (record { depth = 0; dropping = false }) (enter true ∷ enter true ∷ leave ∷ [])
    ≡ record { depth = 1; dropping = true }
unfolding drag_all drag
drag_test = refl

-- An image whose message was swept while it was being decrypted gets a URL that nobody releases.
late_test : (reveal_image 3 (record { messages = []; urls = []; alive = [] })).alive ≡ 3 ∷ []
unfolding reveal_image member_id
late_test = refl
