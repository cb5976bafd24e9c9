-- ===== src/Groups/Tests.antt =====
-- Groups of client/js/app.js in concrete courses.
use lattix.Prelude.{◌≡◌, refl, codes, same, true, false, none, some, [], ◌∷◌}
use lattix.Prelude.Dict
use lattix.Config.{trim}
use lattix.Groups.{pick, unpick, click, clicks, group_request, GroupMeta, row_of, group_panel}

clicks_test :
    clicks [] (pick (codes "bo") ∷ pick (codes "cy") ∷ pick (codes "bo") ∷ unpick (codes "cy") ∷ [])
    ≡ codes "bo" ∷ []
unfolding clicks click Dict.add Dict.remove same
clicks_test = refl

nameless_test : group_request (codes "  ") [] (codes "bo" ∷ []) ≡ none
unfolding group_request trim same
nameless_test = refl

abbrev meta : GroupMeta
meta = record {
  name = some (codes "us");
  icon = some none;
  owner = some (codes "al");
  members = some (codes "al" ∷ codes "bo" ∷ []);
}

-- The owner may remove the others; another member nobody.
panel_test :
    group_panel (codes "al") meta
    ≡ some (record {
      title = codes "us";
      rows =
          record { username = codes "al"; is_owner = true; removable = false }
          ∷ record { username = codes "bo"; is_owner = false; removable = true }
          ∷ [];
      can_add = true;
    })
unfolding group_panel row_of same
panel_test = refl
