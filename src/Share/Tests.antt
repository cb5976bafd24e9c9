-- ===== src/Share/Tests.antt =====
-- Links and QR codes of client/js/app.js at concrete inputs. The platform of these tests writes a
-- character that is no small letter and no digit by a code above 1000.
use lattix.Prelude.{
  ℕ, ◌+◌, ◌-◌, ◌<◌, ◌≡◌, ◌≢◌, refl, ap, ◌∙◌, Text, codes, same, Bool, true, false, not, ◌||◌, ◌&&◌,
  Option, none, some, [], ◌∷◌, ◌++◌, append_assoc, ◌%◌, map, drop, any, All, arith, leb, ◌==◌,
  if◌then◌else◌,
}
use lattix.Prelude.Dict
use lattix.Trust
use lattix.Trust.{
  KeyRecord, Self, dm, get_peer_keys, refresh_peer, is_safety_code, is_hex_digit, is_verified,
  assert_sendable,
}
use lattix.Share.{Web, Canvas, my_share_url, open_link, qr_scale, qr_offset, draw_qr}
use lattix.Share.Links.{Laws, open_link-my_share_url}
use lattix.Share.Drawing.{pixel_in, draw_qr-scan}

is_plain : ℕ → Bool
is_plain c = (leb b'0' c && leb c b'9') || (leb b'a' c && leb c b'z')

shift : ℕ → ℕ
unfolding is_plain
shift c = if is_plain c then c else c + 1000

unshift : ℕ → ℕ
unshift c = if leb 1000 c then c - 1000 else c

upto : ℕ → Text → Text
upto stop [] = []
upto stop (c ∷ s) = if c == stop then [] else c ∷ upto stop s

from : ℕ → Text → Text
from stop [] = []
from stop (c ∷ s) = if c == stop then c ∷ s else from stop s

abbrev web : Web
unfolding shift unshift upto from
web = record {
  encode = map shift;
  hash_of = from b'#';
  param = λ s name. some (
      map unshift (if same name (codes "add") then drop 4 (upto b'&' s) else drop 4 (from b'&' s)));
}

plain_code : (s : Text) → any (λ c. not (is_hex_digit c)) s ≡ false → map shift s ≡ s
unfolding shift is_hex_digit
plain_code [] h = refl
plain_code (c ∷ s) h = ground (arith, h, plain_code s)

from_hash :
    (before rest : Text)
    → All (λ c. c ≢ b'#') before
    → from b'#' (before ++ b'#' ∷ rest) ≡ b'#' ∷ rest
unfolding from
from_hash [] rest h = refl
from_hash (c ∷ before) rest h = ground (arith, h.0, from_hash before rest h.1)

upto_encoded : (v rest : Text) → upto b'&' (map shift v ++ b'&' ∷ rest) ≡ map shift v
unfolding upto shift
upto_encoded [] rest = refl
upto_encoded (c ∷ v) rest = ground (arith, upto_encoded v rest)

from_encoded : (v rest : Text) → from b'&' (map shift v ++ b'&' ∷ rest) ≡ b'&' ∷ rest
unfolding from shift
from_encoded [] rest = refl
from_encoded (c ∷ v) rest = ground (arith, from_encoded v rest)

unshift-shift : (v : Text) → map unshift (map shift v) ≡ v
unfolding unshift shift
unshift-shift [] = refl
unshift-shift (c ∷ v) = ground (arith, unshift-shift v)

web_laws : Laws web
unfolding shift unshift upto from is_safety_code same
web_laws = record {
  plain = λ code h. plain_code code (ground (arith, h));
  hash = λ before v w h.
      simp append_assoc
        (from_hash before (codes "add=" ++ (map shift v ++ (codes "&fp=" ++ map shift w))) h);
  add = λ v w.
      ap (λ s. some (map unshift (upto b'&' s)))
        (append_assoc (map shift v) (codes "&fp=") (map shift w))
      ∙ ap (λ s. some (map unshift s)) (upto_encoded v (codes "fp=" ++ map shift w))
      ∙ ap some (unshift-shift v);
  fp = λ v w.
      ap (λ s. some (map unshift (drop 4 (from b'&' s))))
        (append_assoc (map shift v) (codes "&fp=") (map shift w))
      ∙ ap (λ s. some (map unshift (drop 4 s))) (from_encoded v (codes "fp=" ++ map shift w))
      ∙ ap some (unshift-shift w);
}

abbrev bob : Text
bob = codes "bo"

abbrev bob_code : Text
bob_code = codes "00112233445566778899aabbccddeeff00112233445566778899aabbccddeeff"

abbrev me : Self
me = record { username = codes "al"; kem_public_key = codes "ka"; fingerprint = codes "0" }

abbrev bob_keys : KeyRecord
bob_keys = record {
  kem_public_key = codes "kb";
  dsa_public_key = codes "db";
  fingerprint = bob_code;
  avatar = none;
}

-- Bob's keys are in the cache, and the relay cannot be reached.
abbrev session : Trust.State
session = record {
  identity = some me;
  peers = (bob, bob_keys) ∷ [];
  pins = [];
  alerts = [];
  origin = codes "o";
  storage = [];
  can_save = true;
}

abbrev hash : Text → Text → Option Text
hash kem dsa = none

open_link-my_share_url_example :
    let st' =
      open_link web
        (λ s. s)
        hash
        7
        session
        me
        (my_share_url web (codes "https://r.x") bob bob_code)
        none
        none in
    (is_verified st' bob ≡ same bob_code bob_code)
    × (assert_sendable st' (dm bob) ≡ same bob_code bob_code)
unfolding is_safety_code is_hex_digit same get_peer_keys Dict.get
open_link-my_share_url_example =
    open_link-my_share_url web web_laws (λ s. s) (codes "https://r.x") bob bob_code (omega arith)
      refl refl refl hash 7 session me none none bob_keys refl refl refl

-- The code of a checkerboard of 21 modules on the app's canvas of 220 pixels: 7 pixels a module.
abbrev board : ℕ → ℕ → Bool
board x y = (x + y) % 2 == 0

abbrev blank : Canvas
blank x y = true

draw_qr-scan_example :
    let px = pixel_in (qr_offset 220 21) (qr_scale 220 21) 3 6 in
    let py = pixel_in (qr_offset 220 21) (qr_scale 220 21) 4 0 in
    (px < 220) × (py < 220) × (draw_qr 220 220 21 board blank px py ≡ false)
unfolding qr_scale
draw_qr-scan_example =
    draw_qr-scan board 220 220 21 3 4 6 0 blank (omega arith) (omega arith) (omega arith)
      (omega arith) (omega arith) (omega arith)

-- The largest codes have 177 modules: they are drawn with a pixel each.
largest_test : (qr_scale 220 177 ≡ 1) × (qr_offset 220 177 ≡ 17)
unfolding qr_scale qr_offset
largest_test = (refl, refl)
