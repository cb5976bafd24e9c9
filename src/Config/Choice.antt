-- ===== src/Config/Choice.antt =====
-- The relay that client/js/config.js takes from what the user typed, and the one then used.
use lattix.Prelude.{
  ◌≡◌, ◌≢◌, ◌⊎◌, inl, inr, refl, Text, codes, same, same_iff, same→eq, same_refl, ne→same, true,
  false, not, ◌&&◌, Option, some, [], ◌++◌, Bool-cases, Option-cases, arith,
}
use lattix.Config.{
  Page, Url, accepted, trim, strip_slashes, is_extension, get_server_url, set_server_url,
  read_store, api_base, server_origin, share_origin, is_local_host, http_protocol, drop_api,
  with_scheme, judge_url, normalize_server_url,
}

server_origin_of :
    (page : Page) (url : Text) → get_server_url page ≡ url → url ≢ [] → server_origin page ≡ url
unfolding api_base server_origin
server_origin_of page url e n =
    elim (Bool-cases (not (is_extension page) && same url page.origin)) [
      | inl own ↦
          let base : api_base page ≡ [] = rw (e, ne→same url [] n, own, api_base) refl in
          rw (base, same_refl [], server_origin) (ground (arith, same_iff url page.origin))
      | inr other ↦
          let base : api_base page ≡ url = rw (e, ne→same url [] n, other, api_base) refl in
          rw (base, ne→same url [] n, server_origin) refl
    ]

-- Where localStorage takes writes: a relay URL without blanks around it and slashes at its end, once
-- set, is the relay that requests, the WebSocket and share links go to, in the extension or not,
-- and also if it is the page's own origin.
pub set_server_url-server_origin :
    (page : Page) (url : Text)
    → page.can_save ≡ true
    → trim url ≡ url
    → strip_slashes url ≡ url
    → url ≢ []
    → (get_server_url (set_server_url page url) ≡ url)
      × (server_origin (set_server_url page url) ≡ url)
      × (share_origin (set_server_url page url) ≡ url)
unfolding share_origin
set_server_url-server_origin page url w t s n =
    let now = set_server_url page url in
    let kept : get_server_url now ≡ url =
      unfold get_server_url set_server_url read_store in ground (arith, same_iff url []) in
    let used : server_origin now ≡ url = server_origin_of now url kept n in
    (kept, used, rw (used, share_origin) s)

judge_url-accepted :
    (page : Page) (u : Url) (url warning : Text)
    → page.protocol ≡ codes "https:"
    → judge_url page u ≡ accepted url warning
    → (url
        ≡ http_protocol u.protocol ++ codes "//" ++ u.host ++ drop_api (strip_slashes u.pathname))
      × (u.username ≡ [])
      × (u.password ≡ [])
      × (same u.hostname [] ≡ false)
      × ((http_protocol u.protocol ≡ codes "https:") ⊎ (is_local_host u.hostname ≡ true))
unfolding judge_url
judge_url-accepted page u url warning h e =
    let protocol = http_protocol u.protocol in
    let here = same_iff page.protocol (codes "https:") in
    (
      ground arith,
      ground (arith, same_iff u.username []),
      ground (arith, same_iff u.password []),
      ground (arith),
      elim (Bool-cases (same protocol (codes "https:"))) [
        | inl y ↦ inl (same→eq protocol (codes "https:") y)
        | inr n ↦ inr (ground (arith, here))
      ],
    )

-- On a page loaded over HTTPS, whatever is typed and however it is parsed: an accepted URL is the
-- empty one, for the default relay, or is the protocol, host and path of a parsed URL with a host
-- name and no user name or password, the path without a slash or a WebSocket or API path at its
-- end, and its protocol is HTTPS or its host is local.
pub normalize_server_url-accepted :
    (parse : Text → Option Url) (page : Page) (input url warning : Text)
    → page.protocol ≡ codes "https:"
    → normalize_server_url parse page input ≡ accepted url warning
    → (url ≡ [])
      ⊎ ((t : Text) × (u : Url) × (parse t ≡ some u)
          × (url
              ≡ http_protocol u.protocol
                ++ codes "//"
                ++ u.host
                ++ drop_api (strip_slashes u.pathname))
          × (u.username ≡ [])
          × (u.password ≡ [])
          × (same u.hostname [] ≡ false)
          × ((http_protocol u.protocol ≡ codes "https:") ⊎ (is_local_host u.hostname ≡ true)))
unfolding normalize_server_url
normalize_server_url-accepted parse page input url warning h e =
    elim (Bool-cases (same (trim input) [])) [
      | inl blank ↦ inl (ground arith)
      | inr some_text ↦ elim (Option-cases (parse (with_scheme (trim input)))) [
        | inl n ↦ absurd (ground arith)
        | inr (u, p) ↦
            let judged : judge_url page u ≡ accepted url warning = ground arith in
            let (q, a, b, c, d) = judge_url-accepted page u url warning h judged in
            inr (with_scheme (trim input), u, p, q, a, b, c, d)
      ]
    ]
