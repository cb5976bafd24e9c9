-- ===== src/Api/Endpoints/Tests.antt =====
-- The requests of client/js/api.js at concrete inputs, with an escape of one sign.
use lattix.Prelude.{
  ℕ, zero, suc, ◌≡◌, refl, Text, codes, same, none, some, [], ◌∷◌, ◌++◌, ◌==◌, if◌then◌else◌,
}
use lattix.Prelude.Decimal.{decimal}
use lattix.Api.Endpoints.{Call, get_user, remove_group_member, path_of, method_of, body_of, route}
use lattix.Api.Endpoints.Reading.{escaped, is_plain, read_route, read_route-route}

abbrev escape : Text → Text
escape [] = []
escape (c ∷ s) = if c == b'/' then codes "%2F" ++ escape s else c ∷ escape s

abbrev unescape_from : ℕ → Text → Text
unescape_from _ [] = []
unescape_from (suc skipped) (c ∷ s) = unescape_from skipped s
unescape_from zero (c ∷ s) = if c == b'%' then b'/' ∷ unescape_from 2 s else c ∷ unescape_from 0 s

abbrev unescape : Text → Text
unescape = unescape_from 0

abbrev removal : Call ℕ
removal = remove_group_member 7 (codes "a/b")

removal_path : path_of escape removal ≡ codes "/api/groups/7/members/a%2Fb"
unfolding path_of decimal
removal_path = refl

abbrev lookup : Call ℕ
lookup = get_user (codes "a/b")

-- A name that holds a separator, unescaped, would be read as another request.
unescaped_name : read_route unescape (route (λ x. x) lookup) ≡ none
unfolding read_route route path_of method_of body_of same
unescaped_name = refl

removal_test : read_route unescape (route escape removal) ≡ some removal
unfolding escaped is_plain
removal_test = read_route-route escape unescape removal ((refl, refl), tt)
