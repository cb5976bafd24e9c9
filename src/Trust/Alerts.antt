-- ===== src/Trust/Alerts.antt =====
-- What a key from the relay does to what is known of a contact (`adoptPeerKeys`), and how alerts
-- come and go, in client/js/app.js.
use lattix.Prelude.{ℕ, Text, same_iff, ◌≡◌, ◌≢◌, true, false, Option, some, arith}
use lattix.Prelude.Dict
use lattix.Prelude.Dict.{get-put, get-del}
use lattix.Trust.{
  KeyRecord, Pin, Alert, changed, State, dm, is_exempt, is_verified, store_peer, assert_sendable,
  alerted_in, refresh_peer, judge, raise_alert,
}
use lattix.Trust.Effects.{pin_key-Pinned}
use lattix.Trust.Guard.{refresh_peer-eq-some}

module _ (f : Text → Text → Option Text) (now : ℕ) (st : State) (u : Text) (rec : KeyRecord) where
  -- Keys of another code, for a contact whose pin is marked verified: the pins stay as they are,
  -- the contact no longer counts as verified, and the direct conversation may not be sent to.
  pub refresh_peer_holds_changed :
      (pin : Pin) (fp : Text) (t : State)
      → is_exempt st u ≡ false
      → Dict.get st.pins u ≡ some pin
      → pin.verified ≡ true
      → f rec.kem_public_key rec.dsa_public_key ≡ some fp
      → fp ≢ pin.fp
      → refresh_peer f now st u rec ≡ some t
      → (t.pins ≡ st.pins) × (is_verified t u ≡ false) × (assert_sendable t (dm u) ≡ false)
  unfolding judge raise_alert store_peer is_verified assert_sendable alerted_in Dict.has
  refresh_peer_holds_changed pin fp t hx hp hv hf ne e =
      let (fp', hf', ht) = refresh_peer-eq-some f now st u rec t e in
      let a : Alert = record { old_fp = pin.fp; new_fp = fp; reason = changed } in
      ground (arith, get-put st.alerts u a u, same_iff u u, same_iff pin.fp fp)

  -- Keys of another code, for a contact whose pin is not marked verified: the new code is pinned,
  -- not marked verified, and no alert is raised.
  pub refresh_peer_repins :
      (pin : Pin) (fp : Text) (t : State)
      → is_exempt st u ≡ false
      → Dict.get st.pins u ≡ some pin
      → pin.verified ≡ false
      → f rec.kem_public_key rec.dsa_public_key ≡ some fp
      → fp ≢ pin.fp
      → refresh_peer f now st u rec ≡ some t
      → (Dict.get t.pins u ≡ some (record { fp = fp; verified = false; stamp = now }))
        × (t.alerts ≡ st.alerts)
  unfolding judge store_peer
  refresh_peer_repins pin fp t hx hp hv hf ne e =
      let (fp', hf', ht) = refresh_peer-eq-some f now st u rec t e in
      let p = pin_key-Pinned now st u fp false in
      ground (arith, p.pins u, p.alerts, same_iff u u, same_iff pin.fp fp)
