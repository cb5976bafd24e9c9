-- ===== src/Shell/Searching.antt =====
-- Answers that come out of order to the search fields of client/js/app.js, and the check of one's own
-- keys.
use lattix.Prelude.{◌≡◌, refl, Text, same_iff, false, Option, some, List, ◌++◌, arith}
use lattix.Trust.{KeyRecord, Self}
use lattix.Shell.{Search, user_answer, member_timer, member_answer, warns_of_own_keys}

-- The answer to an earlier request replaces that to a later one, if it comes after it.
pub user_answer-user_answer :
    (early late : List Text) (s : Search) → (user_answer early (user_answer late s)).results ≡ early
unfolding user_answer
user_answer-user_answer early late s = refl

-- Of two requests for members that are under way together both answers are listed.
pub member_answer-member_answer :
    (early late : List Text) (s : Search)
    → (member_answer early (member_answer late (member_timer (member_timer s).0).0)).results
      ≡ late ++ early
unfolding member_answer member_timer
member_answer-member_answer early late s = refl

-- Where the relay answers and no warning comes, the keys that it publishes have our own fingerprint.
pub warns_of_own_keys_silent :
    (fingerprint_of : Text → Text → Option Text) (me : Self) (rec : KeyRecord) (fp : Text)
    → fingerprint_of rec.kem_public_key rec.dsa_public_key ≡ some fp
    → warns_of_own_keys fingerprint_of me (some rec) ≡ false
    → fp ≡ me.fingerprint
unfolding warns_of_own_keys
warns_of_own_keys_silent fingerprint_of me rec fp e quiet =
    (same_iff fp me.fingerprint).0 (ground (arith, e, quiet))
