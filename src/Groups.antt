-- ===== src/Groups.antt =====
-- Groups in client/js/app.js: picking the members of a new group, the metadata of a group, and the
-- panel that tells about it. What the relay answers is given.
pub mod Picking
mod Tests
use lattix.Prelude.{
  ℕ, Text, codes, same, Bool, true, false, not, ◌&&◌, Option, none, some, List, [], ◌∷◌, map,
  length, if◌then◌else◌,
}
use lattix.Prelude.Dict
use lattix.Prelude.Dict.{Dict}
use lattix.Config.{trim}

-- The clicks in the dialog for a new group: on a person that was found, and on the cross of a chip.
pub data Click : Type 0 where
  pick unpick : Text → Click

-- `_newGroupMembers`, in the order of picking.
unfoldable pub click : List Text → Click → List Text
click members (pick u) = Dict.add members u
click members (unpick u) = Dict.remove members u

unfoldable pub clicks : List Text → List Click → List Text
clicks members [] = members
clicks members (c ∷ cs) = clicks (click members c) cs

pub record Request : Type 0 where
  pub name : Text
  pub icon : Option Text
  pub members : List Text

-- The button that creates the group: what the relay is asked, or `none` where the name is missing.
unfoldable pub group_request : Text → Text → List Text → Option Request
group_request name icon members =
    if same (trim name) []
    then none
    else some (record {
      name = trim name;
      icon = if same (trim icon) [] then none else some (trim icon);
      members = members;
    })

-- The metadata of a group; a property that is absent is `none`.
pub record GroupMeta : Type 0 where
  pub name : Option Text
  pub icon : Option (Option Text)
  pub owner : Option Text
  pub members : Option (List Text)

unfoldable pub present_or {ℓ} : {A : Type ℓ} → Option A → Option A → Option A
present_or none old = old
present_or (some a) old = some a

-- `{ ...meta, ...g }`
unfoldable pub merge_meta : GroupMeta → GroupMeta → GroupMeta
merge_meta meta g = record {
  name = present_or g.name meta.name;
  icon = present_or g.icon meta.icon;
  owner = present_or g.owner meta.owner;
  members = present_or g.members meta.members;
}

-- `ensureGroupConvo` on the metadata, by the ids of the conversations.
unfoldable pub ensure_group_meta : Text → GroupMeta → Dict GroupMeta → Dict GroupMeta
ensure_group_meta cid g metas = elim (Dict.get metas cid) [
  | none ↦ Dict.put metas cid g
  | some meta ↦ Dict.put metas cid (merge_meta meta g)
]

-- `ensureGroupConvo({ id })` of `loadGroup`.
abbrev pub stub : GroupMeta
stub = record { name = none; icon = none; owner = none; members = none }

-- The line under a group's name: the number of members, or that they are unavailable.
unfoldable pub group_status : GroupMeta → Option ℕ
group_status meta = elim meta.members [
  | none ↦ none
  | some [] ↦ none
  | some (m ∷ ms) ↦ some (length (m ∷ ms))
]

pub record Row : Type 0 where
  pub username : Text
  pub is_owner : Bool
  pub removable : Bool

pub record Panel : Type 0 where
  pub title : Text
  pub rows : List Row
  pub can_add : Bool

is_named : Option Text → Text → Bool
is_named none u = false
is_named (some owner) u = same owner u

unfoldable pub row_of : Text → Option Text → Text → Row
unfolding is_named
row_of me owner username = record {
  username = username;
  is_owner = is_named owner username;
  removable = is_named owner me && not (same username me);
}

-- `openGroupInfo`: what the panel shows, after the details were loaded or could not be; `none` where
-- it is not opened.
unfoldable pub group_panel : Text → GroupMeta → Option Panel
unfolding is_named
group_panel me meta = elim meta.members [
  | none ↦ none
  | some members ↦ some (record {
    title = elim meta.name [
      | none ↦ codes "Group"
      | some [] ↦ codes "Group"
      | some (c ∷ s) ↦ c ∷ s
    ];
    rows = map (row_of me meta.owner) members;
    can_add = is_named meta.owner me;
  })
]
