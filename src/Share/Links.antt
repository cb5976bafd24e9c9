-- ===== src/Share/Links.antt =====
-- A share link of client/js/app.js, from `myShareUrl` of its owner to `processDeepLink` of the one
-- who opens it.
use lattix.Prelude.{
  ℕ, ◌≡◌, ◌≢◌, refl, ap, ◌∙◌, Text, codes, same, true, false, not, Option, none, some, [], ◌++◌,
  append_assoc, All, All-append, arith, Bool-cases, inl, inr, same_refl,
}
use lattix.Prelude.Dict
use lattix.Prelude.Dict.{get-put, get-del}
use lattix.View.{starts_with}
use lattix.Trust
use lattix.Trust.{
  KeyRecord, Self, dm, get_peer_keys, check_link, set_verified, pin_key, save_pins, is_verified,
  alerted_in, assert_sendable, is_safety_code, process_deep_link,
}
use lattix.Share.{
  Web, share_fragment, my_share_url, drop_hash, param_or_empty, deep_link, open_link,
}

-- What is documented of the platform: `encodeURIComponent` keeps letters and digits; the hash of an
-- address is what stands from its first "#" on; and the parameters of a query are read as they were
-- encoded.
pub record Laws (web : Web) : Type 0 where
  pub plain : (code : Text) → is_safety_code code ≡ true → web.encode code ≡ code
  pub hash :
      (before v w : Text)
      → All (λ c. c ≢ b'#') before
      → web.hash_of (before ++ codes "#add=" ++ web.encode v ++ codes "&fp=" ++ web.encode w)
        ≡ codes "#add=" ++ web.encode v ++ codes "&fp=" ++ web.encode w
  pub add :
      (v w : Text)
      → web.param (codes "add=" ++ web.encode v ++ codes "&fp=" ++ web.encode w) (codes "add")
        ≡ some v
  pub fp :
      (v w : Text)
      → web.param (codes "add=" ++ web.encode v ++ codes "&fp=" ++ web.encode w) (codes "fp")
        ≡ some w

module _ (now : ℕ) (st : Trust.State) (who link_fp : Text) (keys : KeyRecord) where
  matched :
      is_verified (set_verified now st who link_fp true) who ≡ true
      × (Dict.has (set_verified now st who link_fp true).alerts who ≡ false)
  unfolding is_verified set_verified pin_key save_pins Dict.has
  matched =
      let pin = get-put st.pins who (record { fp = link_fp; verified = true; stamp = now }) who in
      let gone = get-del st.alerts who who in
      let self = same_refl who in (ground (arith, pin, gone, self), ground (arith, gone, self))

  -- What the check of a link's code leaves: the contact is verified, and may be sent to, exactly if
  -- the keys have the link's code.
  check_link_decides :
      (is_verified (check_link now st who link_fp keys) who ≡ same keys.fingerprint link_fp)
      × (Dict.has (check_link now st who link_fp keys).alerts who
          ≡ not (same keys.fingerprint link_fp))
  unfolding check_link is_verified Dict.has
  check_link_decides = elim (Bool-cases (same keys.fingerprint link_fp)) [
    | inl e ↦ rw (e, check_link) matched
    | inr e ↦
        let alert : Trust.Alert = record {
          old_fp = link_fp;
          new_fp = keys.fingerprint;
          reason = Trust.link;
        } in
        let raised = get-put st.alerts who alert who in
        let self = same_refl who in
        (ground (arith, e, raised, self), ground (arith, e, raised, self))
  ]

module _ (web : Web) (laws : Laws web) (lower : Text → Text) (origin who link_fp : Text)
    (no_hash : All (λ c. c ≢ b'#') origin) (code : is_safety_code link_fp ≡ true)
    (small_name : lower who ≡ who) (small_code : lower link_fp ≡ link_fp) where
  address_form :
      my_share_url web origin who link_fp
      ≡ (origin ++ codes "/")
        ++ codes "#add="
        ++ web.encode who
        ++ codes "&fp="
        ++ web.encode link_fp
  unfolding my_share_url share_fragment
  address_form = rw (laws.plain link_fp code) (simp append_assoc)

  hash_form :
      web.hash_of (my_share_url web origin who link_fp)
      ≡ codes "#add=" ++ web.encode who ++ codes "&fp=" ++ web.encode link_fp
  hash_form =
      ap web.hash_of address_form
      ∙ laws.hash (origin ++ codes "/") who link_fp
          (All-append _ origin (codes "/") no_hash ((λ e. absurd (omega (arith, e))), tt))

  deep_link-my_share_url :
      deep_link web lower (web.hash_of (my_share_url web origin who link_fp)) ≡ some (who, link_fp)
  unfolding deep_link drop_hash starts_with param_or_empty
  deep_link-my_share_url =
      let hash = codes "add=" ++ web.encode who ++ codes "&fp=" ++ web.encode link_fp in
      let name : param_or_empty web hash (codes "add") ≡ who = ap or_empty (laws.add who link_fp) in
      let fp : param_or_empty web hash (codes "fp") ≡ link_fp = ap or_empty (laws.fp who link_fp) in
      rw hash_form (
        ap (λ v. some (lower v, lower (param_or_empty web hash (codes "fp")))) name
        ∙ ap (λ w. some (lower who, lower w)) fp
        ∙ ap (λ v. some (v, lower link_fp)) small_name
        ∙ ap (λ w. some (who, w)) small_code)
    where
      or_empty : Option Text → Text
      or_empty found = elim found [ none ↦ [] | some v ↦ v ]

  module _ (fingerprint_of : Text → Text → Option Text) (now : ℕ) (st : Trust.State) (me : Self)
      (opened answer : Option KeyRecord) (keys : KeyRecord) where
    -- Where the platform reads addresses and parameters as documented, and the name and the code of
    -- a contact are in small letters as they are everywhere: opening the link that the contact's
    -- `myShareUrl` made, with keys for the contact that are in the cache or had from the relay,
    -- leaves the contact verified, and lets a direct message be sent, exactly if these keys have the
    -- safety code of the link.
    pub open_link-my_share_url :
        same who [] ≡ false
        → same who me.username ≡ false
        → let shown = (get_peer_keys fingerprint_of now st who true opened).0 in
          (get_peer_keys fingerprint_of now shown who false answer).1 ≡ some keys
          → let st' =
              open_link web lower fingerprint_of now st me
                (my_share_url web origin who link_fp)
                opened
                answer in
            (is_verified st' who ≡ same keys.fingerprint link_fp)
            × (assert_sendable st' (dm who) ≡ same keys.fingerprint link_fp)
    unfolding open_link process_deep_link assert_sendable alerted_in
    open_link-my_share_url named other found =
        let asked =
          (get_peer_keys fingerprint_of now (get_peer_keys fingerprint_of now st who true opened).0
            who false answer).0 in
        let st' =
          open_link web lower fingerprint_of now st me (my_share_url web origin who link_fp) opened
            answer in
        let checked : st' ≡ check_link now asked who link_fp keys =
          rw (deep_link-my_share_url, open_link)
            (rw (named, other, code, found, process_deep_link) refl) in
        let (verified, alerted) = check_link_decides now asked who link_fp keys in
        (
          ap (λ s. is_verified s who) checked ∙ verified,
          ap (λ s. assert_sendable s (dm who)) checked ∙ ground (arith, alerted),
        )
