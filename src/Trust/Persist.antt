-- ===== src/Trust/Persist.antt =====
-- Pins are written through to localStorage (`savePins`, `loadPins` of client/js/app.js): a reload
-- finds the pins that the session held, but for one name.
use lattix.Prelude.{
  ℕ, Text, codes, same, same_iff, ◌≡◌, refl, ◌∙◌, Bool, true, false, not, ◌||◌, Option, some, List,
  [], ◌∷◌, arith, Option-cases, Bool-cases, inl, inr,
}
use lattix.Prelude.Dict
use lattix.Prelude.Dict.{get-put, get-del}
use lattix.Trust.{
  KeyRecord, Self, State, load_pins, written_pins, save_pins, pin_store_key, pin_key, judge,
  raise_alert, resolve_alert, is_exempt, store_peer, accept_new_key, set_verified, toggle_verified,
  boot, refresh_peer, adopt_members, get_peer_keys, check_link, is_safety_code, process_deep_link,
}
use lattix.Trust.Guard.{refresh_peer-eq-some, get_peer_keys-cases}
use lattix.Trust.Session.{Step, asked, grouped, accepted, linked, toggled, Reach, here, next}

pub record IsSaved (st : State) : Type 0 where
  pub can_save : st.can_save ≡ true
  pub loaded :
      (u : Text)
      → same (codes "__proto__") u ≡ false
      → Dict.get (load_pins st) u ≡ Dict.get st.pins u

-- The states that differ in neither pins nor storage.
record SamePins (s t : State) : Type 0 where
  pins : t.pins ≡ s.pins
  storage : t.storage ≡ s.storage
  origin : t.origin ≡ s.origin
  can_save : t.can_save ≡ s.can_save

SamePins-IsSaved : (s t : State) → SamePins s t → IsSaved s → IsSaved t
unfolding load_pins pin_store_key
SamePins-IsSaved s t e h = record {
  can_save = e.can_save ∙ h.can_save;
  loaded = λ u other. ground (arith, e.pins, e.storage, e.origin, h.loaded u other);
}

save_pins-IsSaved : (st : State) → st.can_save ≡ true → IsSaved (save_pins st)
unfolding save_pins written_pins load_pins pin_store_key
save_pins-IsSaved st c =
    let key = pin_store_key st in
    record {
      can_save = ground arith;
      loaded = λ u other. ground (
        arith,
        get-put st.storage key (some (written_pins st.pins)) key,
        same_iff key key,
        get-del st.pins (codes "__proto__") u,
        other,
      );
    }

module _ (now : ℕ) (st : State) (u : Text) (h : IsSaved st) where
  pin_key-IsSaved : (fp : Text) (verified : Bool) → IsSaved (pin_key now st u fp verified)
  unfolding pin_key
  pin_key-IsSaved fp verified = save_pins-IsSaved _ h.can_save

  judge-IsSaved : (fp : Text) → IsSaved (judge now st u fp)
  unfolding judge
  judge-IsSaved fp = elim (Option-cases (Dict.get st.pins u)) [
    | inl e ↦ rw (e, judge) (pin_key-IsSaved fp false)
    | inr (pin, e) ↦ elim (Bool-cases (same pin.fp fp)) [
      | inl eq ↦ rw (e, eq, judge) (SamePins-IsSaved st _ (unfold resolve_alert in ground arith) h)
      | inr ne ↦ elim (Bool-cases pin.verified) [
        | inl v ↦
            rw (e, ne, v, judge) (SamePins-IsSaved st _ (unfold raise_alert in ground arith) h)
        | inr v ↦ rw (e, ne, v, judge) (pin_key-IsSaved fp false)
      ]
    ]
  ]

  accept_new_key-IsSaved : IsSaved (accept_new_key now st u)
  unfolding accept_new_key
  accept_new_key-IsSaved = elim (Option-cases (Dict.get st.alerts u)) [
    | inl e ↦ rw (e, accept_new_key) h
    | inr (a, e) ↦
        rw (e, accept_new_key)
          (SamePins-IsSaved _ _
            (record { pins = refl; storage = refl; origin = refl; can_save = refl })
            (pin_key-IsSaved a.new_fp false))
  ]

  set_verified-IsSaved : (fp : Text) (verified : Bool) → IsSaved (set_verified now st u fp verified)
  unfolding set_verified
  set_verified-IsSaved fp verified =
      SamePins-IsSaved _ _ (record { pins = refl; storage = refl; origin = refl; can_save = refl })
        (pin_key-IsSaved fp verified)

  check_link-IsSaved :
      (link_fp : Text) (keys : KeyRecord) → IsSaved (check_link now st u link_fp keys)
  unfolding check_link
  check_link-IsSaved link_fp keys = elim (Bool-cases (same keys.fingerprint link_fp)) [
    | inl e ↦ rw (e, check_link) (set_verified-IsSaved link_fp true)
    | inr e ↦
        rw (e, check_link)
          (SamePins-IsSaved st _
            (record { pins = refl; storage = refl; origin = refl; can_save = refl }) h)
  ]

module _ (f : Text → Text → Option Text) where
  refresh_peer-IsSaved :
      (now : ℕ) (st : State) (u : Text) (rec : KeyRecord) (t : State)
      → refresh_peer f now st u rec ≡ some t
      → IsSaved st
      → IsSaved t
  unfolding store_peer
  refresh_peer-IsSaved now st u rec t e h =
      let (fp, hf, ht) = refresh_peer-eq-some f now st u rec t e in
      elim (Bool-cases (is_exempt st u)) [
        | inl x ↦
            rw (ht, x)
              (SamePins-IsSaved st _
                (record { pins = refl; storage = refl; origin = refl; can_save = refl }) h)
        | inr x ↦
            rw (ht, x)
              (SamePins-IsSaved (judge now st u fp) _
                (record { pins = refl; storage = refl; origin = refl; can_save = refl })
                (judge-IsSaved now st u h fp))
      ]

  get_peer_keys-IsSaved :
      (now : ℕ) (st : State) (u : Text) (refresh : Bool) (answer : Option KeyRecord)
      → IsSaved st
      → IsSaved (get_peer_keys f now st u refresh answer).0
  get_peer_keys-IsSaved now st u refresh answer h =
      elim (get_peer_keys-cases f now st u refresh answer) [
        | inl e ↦ rw e h
        | inr (rec, e) ↦ refresh_peer-IsSaved now st u rec _ e h
      ]

  adopt_members-IsSaved :
      (now : ℕ) (st : State) (members : List (Text × KeyRecord))
      → IsSaved st
      → IsSaved (adopt_members f now st members).0
  unfolding adopt_members
  adopt_members-IsSaved now st [] h = h
  adopt_members-IsSaved now st ((u, rec) ∷ members) h =
      elim (Option-cases (refresh_peer f now st u rec)) [
        | inl e ↦ rw (e, adopt_members) h
        | inr (s', e) ↦
            rw (e, adopt_members)
              (adopt_members-IsSaved now s' members (refresh_peer-IsSaved now st u rec s' e h))
      ]

  process_deep_link-IsSaved :
      (now : ℕ) (st : State) (me : Self) (who link_fp : Text) (opened answer : Option KeyRecord)
      → IsSaved st
      → IsSaved (process_deep_link f now st me who link_fp opened answer)
  unfolding process_deep_link
  process_deep_link-IsSaved now st me who link_fp opened answer h =
      let shown = (get_peer_keys f now st who true opened).0 in
      let h1 = get_peer_keys-IsSaved now st who true opened h in
      let found = get_peer_keys f now shown who false answer in
      let h2 = get_peer_keys-IsSaved now shown who false answer h1 in
      elim (Bool-cases (same who [] || same who me.username)) [
        | inl e ↦ rw (e, process_deep_link) h
        | inr e ↦ elim (Bool-cases (not (is_safety_code link_fp))) [
          | inl e' ↦ rw (e, e', process_deep_link) h1
          | inr e' ↦ elim (Option-cases found.1) [
            | inl k ↦ rw (e, e', k, process_deep_link) h2
            | inr (keys, k) ↦
                rw (e, e', k, process_deep_link)
                  (check_link-IsSaved now found.0 who h2 link_fp keys)
          ]
        ]
      ]

  Step-IsSaved : {s t : State} → Step f s t → IsSaved s → IsSaved t
  unfolding toggle_verified
  Step-IsSaved {s} (asked now u refresh answer e) h =
      rw e (get_peer_keys-IsSaved now s u refresh answer h)
  Step-IsSaved {s} (grouped now members e) h = rw e (adopt_members-IsSaved now s members h)
  Step-IsSaved {s} (accepted now u e) h = rw e (accept_new_key-IsSaved now s u h)
  Step-IsSaved {s} (linked now me who link_fp opened answer e) h =
      rw e (process_deep_link-IsSaved now s me who link_fp opened answer h)
  Step-IsSaved {s} (toggled now u (fp, verified) fresh e) h =
      rw e (set_verified-IsSaved now s u h fp (not verified))

  Reach-IsSaved : {s t : State} → IsSaved s → Reach f s t → IsSaved t
  Reach-IsSaved h here = h
  Reach-IsSaved h (next r step) = Step-IsSaved step (Reach-IsSaved h r)

  boot-IsSaved :
      (start : State) (me : Self) (own : KeyRecord)
      → start.can_save ≡ true
      → IsSaved (boot start me own)
  unfolding boot load_pins pin_store_key
  boot-IsSaved start me own c = record { can_save = c; loaded = λ u other. refl }

  -- Where localStorage takes writes, and the dialog's button is pressed only while its code is that of
  -- the cached keys: whatever state a session reaches from its start, the next start, of any
  -- identity, has no alert and, for every user but one of the name `__proto__`, exactly the pin of that
  -- state, or none if it has none.
  pub reboot_keeps_pins :
      (start : State) (me : Self) (own : KeyRecord) (st : State) (me' : Self) (own' : KeyRecord)
      (u : Text)
      → start.can_save ≡ true
      → Reach f (boot start me own) st
      → same (codes "__proto__") u ≡ false
      → (Dict.get (boot st me' own').pins u ≡ Dict.get st.pins u) × ((boot st me' own').alerts ≡ [])
  unfolding boot
  reboot_keeps_pins start me own st me' own' u c r other =
      ((Reach-IsSaved (boot-IsSaved start me own c) r).loaded u other, refl)
