-- ===== src/Db/Groups.antt =====
-- backend/db.py, `DeviceGroupRepository` and `DeviceGroupMemberRepository`.
use homesentinel.Prelude.{
  Text, text_eq, Bool, true, false, not, ◌&&◌, ◌||◌, Option, none, some, List, [], ◌∷◌, ◌++◌, any,
  select, delete, update, count, find, order_desc, Action, integrity_error, return, raise,
  if◌then◌else◌, ltb,
}
use homesentinel.Db.Schema.{Device, Group, Member, Store, has_id, is_group}
use homesentinel.Db.Devices.{is_given}

-- `DeviceGroupRepository.get_by_id`
unfoldable pub get_group : Text → Store → Option Group
get_group group_id s = find (is_group group_id) s.groups

-- `DeviceGroupRepository.get_by_name`
unfoldable pub get_by_name : Text → Store → Option Group
get_by_name name s = find (λ g. text_eq g.name name) s.groups

-- `DeviceGroupRepository.list_all`
unfoldable pub list_groups : Store → List Group
list_groups s = order_desc (λ g. g.created_at) s.groups

-- `create_group`
unfoldable pub create_group : Text → Text → Text → Text → Action Store (Option Group)
unfolding get_group
create_group group_id name color now s =
    if any (is_group group_id) s.groups || any (λ g. text_eq g.name name) s.groups
    then raise integrity_error s
    else (let s' = record s {
      groups =
          s.groups
          ++ record {
            group_id = group_id;
            name = name;
            color = color;
            created_at = now;
            updated_at = now;
          }
            ∷ [];
    } in
        return (get_group group_id s') s')

-- Another group has the name.
unfoldable pub name_taken : Text → Option Text → List Group → Bool
name_taken group_id none gs = false
name_taken group_id (some name) gs = any (λ g. text_eq g.name name && not (is_group group_id g)) gs

abbrev keep_or : Option Text → Text → Text
keep_or none old = old
keep_or (some new) old = new

unfoldable pub with_group_metadata : Option Text → Option Text → Text → Group → Group
with_group_metadata name color now g = record g {
  name = keep_or name g.name;
  color = keep_or color g.color;
  updated_at = now;
}

-- `update_group`: UNIQUE on the name fails if the group is there and another has the new name.
unfoldable pub update_group : Text → Option Text → Option Text → Text → Action Store (Option Group)
unfolding get_group name_taken with_group_metadata
update_group group_id name color now s =
    if not (is_given name || is_given color)
    then return (get_group group_id s) s
    else (if any (is_group group_id) s.groups && name_taken group_id name s.groups
        then raise integrity_error s
        else (let s' = record s {
          groups = update (is_group group_id) (with_group_metadata name color now) s.groups;
        } in
            return (get_group group_id s') s'))

-- `delete_group`; ON DELETE CASCADE removes its memberships.
unfoldable pub delete_group : Text → Action Store Bool
delete_group group_id s = return (ltb 0 (count (is_group group_id) s.groups)) (
    if any (is_group group_id) s.groups
    then record s {
      groups = delete (is_group group_id) s.groups;
      members = delete (λ m. text_eq m.group_id group_id) s.members;
    }
    else s)

abbrev pub is_member : Text → Text → Member → Bool
is_member group_id device_id m = text_eq m.group_id group_id && text_eq m.device_id device_id

-- `add_member`: INSERT OR IGNORE skips a row that is there, and still fails on a missing parent.
unfoldable pub add_member : Text → Text → Text → Action Store Bool
add_member group_id device_id now s =
    if any (is_member group_id device_id) s.members
    then return false s
    else (if not (any (is_group group_id) s.groups) || not (any (has_id device_id) s.devices)
        then raise integrity_error s
        else return true (record s {
          members =
              s.members
              ++ record { group_id = group_id; device_id = device_id; created_at = now } ∷ [];
        }))

-- `remove_member`
unfoldable pub remove_member : Text → Text → Action Store Bool
remove_member group_id device_id s =
    return (ltb 0 (count (is_member group_id device_id) s.members))
      (record s { members = delete (is_member group_id device_id) s.members })

-- `get_group_members`; the primary key of the memberships lets a device join once at most.
unfoldable pub get_group_members : Text → Store → List Device
get_group_members group_id s =
    order_desc (λ d. d.last_seen)
      (select (λ d. any (is_member group_id d.device_id) s.members) s.devices)

-- `get_device_groups`
unfoldable pub get_device_groups : Text → Store → List Group
get_device_groups device_id s =
    order_desc (λ g. g.created_at)
      (select (λ g. any (is_member g.group_id device_id) s.members) s.groups)

-- `list_all_memberships`
unfoldable pub list_all_memberships : Store → List Member
list_all_memberships s = order_desc (λ m. m.group_id) s.members
