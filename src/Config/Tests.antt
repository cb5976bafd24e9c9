-- ===== src/Config/Tests.antt =====
-- The theorems about client/js/config.js at concrete inputs.
use lattix.Prelude.{◌≡◌, ◌⊎◌, refl, Text, codes, same, true, false, none, some, [], ◌++◌}
use lattix.Config.{
  Page, Url, accepted, trim, strip_slashes, lowered, is_local_host, is_private_ip, http_protocol,
  drop_api, normalize_server_url,
}
use lattix.Config.Choice.{normalize_server_url-accepted}

abbrev page : Page
page = record {
  protocol = codes "https:";
  origin = codes "https://a.b";
  stored = none;
  can_save = true;
}

-- A parser that knows one address.
abbrev relay : Url
relay = record {
  protocol = codes "wss:";
  username = [];
  password = [];
  hostname = codes "c.d";
  host = codes "c.d";
  pathname = codes "/ws";
}

pasted :
    normalize_server_url (λ t. some relay) page (codes "wss://c.d/ws")
    ≡ accepted (codes "https://c.d") []
unfolding normalize_server_url trim strip_slashes lowered is_local_host is_private_ip same
pasted = refl

normalize_server_url-accepted_example :
    (codes "https://c.d" ≡ [])
    ⊎ ((t : Text) × (u : Url) × (some relay ≡ some u)
        × (codes "https://c.d"
            ≡ http_protocol u.protocol
              ++ codes "//"
              ++ u.host
              ++ drop_api (strip_slashes u.pathname))
        × (u.username ≡ [])
        × (u.password ≡ [])
        × (same u.hostname [] ≡ false)
        × ((http_protocol u.protocol ≡ codes "https:") ⊎ (is_local_host u.hostname ≡ true)))
normalize_server_url-accepted_example =
    normalize_server_url-accepted (λ t. some relay) page (codes "wss://c.d/ws")
      (codes "https://c.d") [] refl pasted
