-- ===== src/View/Html.antt =====
-- The HTML of a message in client/js/app.js: no text becomes markup of its own.
use lattix.Prelude.{
  ℕ, ◌+◌, ◌*◌, ◌≡◌, refl, ap, ◌∙◌, arith, Text, codes, List, [], ◌∷◌, ◌++◌, ◌==◌, if◌then◌else◌,
  Bool-cases, inl, inr,
}
use lattix.Prelude.Ids.{count_id}

unfoldable pub escape_char : ℕ → Text
escape_char c =
    if c == b'&'
    then codes "&amp;"
    else if c == b'<'
    then codes "&lt;"
    else if c == b'>'
    then codes "&gt;"
    else if c == b'"'
    then codes "&quot;"
    else if c == 39
    then codes "&#39;"
    else c ∷ []

unfoldable pub escape_html : Text → Text
escape_html [] = []
escape_html (c ∷ s) = escape_char c ++ escape_html s

-- How `replace(URL_RE, …)` cuts a text: the matches are links.
pub data Segment : Type 0 where
  plain link : Text → Segment

unfoldable pub segment_text : Segment → Text
segment_text (plain s) = s
segment_text (link s) = s

unfoldable pub text_of : List Segment → Text
text_of [] = []
text_of (s ∷ segments) = segment_text s ++ text_of segments

unfoldable pub anchor : Text → Text
anchor url =
    codes "<a href=\""
    ++ url
    ++ codes "\" target=\"_blank\" rel=\"noopener noreferrer nofollow\">"
    ++ url
    ++ codes "</a>"

unfoldable pub linkify : List Segment → Text
linkify [] = []
linkify (plain s ∷ segments) = s ++ linkify segments
linkify (link s ∷ segments) = anchor s ++ linkify segments

-- `replace(/\n/g, "<br>")`
unfoldable pub break_lines : Text → Text
break_lines [] = []
break_lines (c ∷ s) = (if c == 10 then codes "<br>" else c ∷ []) ++ break_lines s

-- `messageHtml`; `find` is the matching of the regular expression.
unfoldable pub message_html : (Text → List Segment) → Text → Text
message_html find text = break_lines (linkify (find (escape_html text)))

count_id-append : (s t : Text) (c : ℕ) → count_id (s ++ t) c ≡ count_id s c + count_id t c
unfolding count_id
count_id-append [] t c = omega arith
count_id-append (x ∷ s) t c = omega (arith, count_id-append s t c)

count_id-escape_char :
    (x : ℕ)
    → (count_id (escape_char x) b'<' ≡ 0)
      × (count_id (escape_char x) b'"' ≡ 0)
      × (count_id (escape_char x) 10 ≡ (if x == 10 then 1 else 0))
      × (count_id (escape_char x) b'>' ≡ 0)
unfolding escape_char count_id
count_id-escape_char x = ground arith

count_id-escape_html :
    (s : Text)
    → (count_id (escape_html s) b'<' ≡ 0)
      × (count_id (escape_html s) b'"' ≡ 0)
      × (count_id (escape_html s) 10 ≡ count_id s 10)
      × (count_id (escape_html s) b'>' ≡ 0)
unfolding escape_html count_id
count_id-escape_html [] = (refl, refl, refl, refl)
count_id-escape_html (x ∷ s) =
    let h = count_id-escape_html s in
    let e = count_id-escape_char x in
    let a = count_id-append (escape_char x) (escape_html s) in
    (
      a b'<' ∙ omega (arith, h.0, e.0),
      a b'"' ∙ omega (arith, h.1, e.1),
      a 10
          ∙ ap (λ n. n + count_id (escape_html s) 10) e.2
          ∙ ap (λ n. (if x == 10 then 1 else 0) + n) h.2,
      a b'>' ∙ omega (arith, h.3, e.3),
    )

unfoldable pub link_count : List Segment → ℕ
link_count [] = 0
link_count (plain s ∷ segments) = link_count segments
link_count (link s ∷ segments) = 1 + link_count segments

-- The line ends inside links.
unfoldable pub link_lines : List Segment → ℕ
link_lines [] = 0
link_lines (plain s ∷ segments) = link_lines segments
link_lines (link s ∷ segments) = count_id s 10 + link_lines segments

count_id-around :
    (before url between after : Text) (c : ℕ)
    → count_id (before ++ url ++ between ++ url ++ after) c
      ≡ count_id before c + count_id between c + count_id after c + 2 * count_id url c
count_id-around before url between after c = omega (
  arith,
  count_id-append (before ++ url ++ between ++ url) after c,
  count_id-append (before ++ url ++ between) url c,
  count_id-append (before ++ url) between c,
  count_id-append before url c,
)

count_id-anchor :
    (s : Text)
    → (count_id (anchor s) b'<' ≡ 2 + 2 * count_id s b'<')
      × (count_id (anchor s) b'"' ≡ 6 + 2 * count_id s b'"')
      × (count_id (anchor s) 10 ≡ 2 * count_id s 10)
      × (count_id (anchor s) b'>' ≡ 2 + 2 * count_id s b'>')
unfolding anchor count_id
count_id-anchor s =
    let around =
      count_id-around (codes "<a href=\"") s
        (codes "\" target=\"_blank\" rel=\"noopener noreferrer nofollow\">") (codes "</a>") in
    (around b'<', around b'"', omega (arith, around 10), around b'>')

count_id-linkify :
    (segments : List Segment)
    → count_id (text_of segments) b'<' ≡ 0
    → count_id (text_of segments) b'"' ≡ 0
    → link_lines segments ≡ 0
    → count_id (text_of segments) b'>' ≡ 0
    → (count_id (linkify segments) b'<' ≡ 2 * link_count segments)
      × (count_id (linkify segments) b'"' ≡ 6 * link_count segments)
      × (count_id (linkify segments) 10 ≡ count_id (text_of segments) 10)
      × (count_id (linkify segments) b'>' ≡ 2 * link_count segments)
unfolding linkify text_of segment_text link_count link_lines count_id
count_id-linkify [] h q l g = (refl, refl, refl, refl)
count_id-linkify (plain s ∷ segments) h q l g =
    let a = count_id-append s (text_of segments) in
    let b = count_id-append s (linkify segments) in
    let r =
      count_id-linkify segments (omega (arith, h, a b'<')) (omega (arith, q, a b'"')) l
        (omega (arith, g, a b'>')) in
    (
      omega (arith, h, a b'<', b b'<', r.0),
      omega (arith, q, a b'"', b b'"', r.1),
      omega (arith, a 10, b 10, r.2),
      omega (arith, g, a b'>', b b'>', r.3),
    )
count_id-linkify (link s ∷ segments) h q l g =
    let a = count_id-append s (text_of segments) in
    let b = count_id-append (anchor s) (linkify segments) in
    let n = count_id-anchor s in
    let r =
      count_id-linkify segments (omega (arith, h, a b'<')) (omega (arith, q, a b'"'))
        (omega (arith, l)) (omega (arith, g, a b'>')) in
    (
      omega (arith, h, a b'<', b b'<', n.0, r.0),
      omega (arith, q, a b'"', b b'"', n.1, r.1),
      omega (arith, l, a 10, b 10, n.2, r.2),
      omega (arith, g, a b'>', b b'>', n.3, r.3),
    )

count_id-break_lines :
    (s : Text)
    → (count_id (break_lines s) b'<' ≡ count_id s b'<' + count_id s 10)
      × (count_id (break_lines s) b'"' ≡ count_id s b'"')
      × (count_id (break_lines s) b'>' ≡ count_id s b'>' + count_id s 10)
unfolding break_lines count_id
count_id-break_lines [] = (refl, refl, refl)
count_id-break_lines (x ∷ s) =
    let r = count_id-break_lines s in
    elim (Bool-cases (x == 10)) [
      | inl e ↦ rw e (ground (arith, e, r.0), ground (arith, e, r.1), ground (arith, e, r.2))
      | inr e ↦ rw e (ground (arith, e, r.0), ground (arith, e, r.1), ground (arith, e, r.2))
    ]

-- Where the matches of the regular expression cut a text without changing it, and contain no line
-- end, the HTML of a message has two "<" and two ">" for each link and one of each for each line end,
-- which are those of the app's own tags, and six double quotes for each link, which are those of its
-- attributes: none comes from the text of the message.
pub message_html-markup :
    (find : Text → List Segment) (text : Text)
    → ((t : Text) → text_of (find t) ≡ t)
    → ((t : Text) → link_lines (find t) ≡ 0)
    → let links = link_count (find (escape_html text)) in
      (count_id (message_html find text) b'<' ≡ 2 * links + count_id text 10)
      × (count_id (message_html find text) b'"' ≡ 6 * links)
      × (count_id (message_html find text) b'>' ≡ 2 * links + count_id text 10)
unfolding message_html
message_html-markup find text whole lines =
    let escaped = escape_html text in
    let e = count_id-escape_html text in
    let same_count : (c : ℕ) → count_id (text_of (find escaped)) c ≡ count_id escaped c =
      λ c. ap (λ t. count_id t c) (whole escaped) in
    let k =
      count_id-linkify (find escaped) (same_count b'<' ∙ e.0) (same_count b'"' ∙ e.1)
        (lines escaped) (same_count b'>' ∙ e.3) in
    let b = count_id-break_lines (linkify (find escaped)) in
    (
      omega (arith, b.0, k.0, k.2, same_count 10, e.2),
      omega (arith, b.1, k.1),
      omega (arith, b.2, k.3, k.2, same_count 10, e.2),
    )
