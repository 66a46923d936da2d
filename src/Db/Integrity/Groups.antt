-- ===== src/Db/Integrity/Groups.antt =====
-- `DeviceGroupRepository` and `DeviceGroupMemberRepository` keep the database sound.
use homesentinel.Prelude.{
  ◌≡◌, refl, Text, Bool, true, false, not, ◌&&◌, ◌||◌, any, update, delete, Option, none, some, All,
  All-map, All-append, All-delete, Distinct, Distinct-update, Distinct-delete, Distinct-insert,
  DistinctPairs, DistinctPairs-insert, DistinctPairs-delete, any-update, any-append, any-kept,
  any-false, ◌∷◌, [], List, arith, text_eq, text_eq_iff, text_eq_comm, eq-of-text_eq, Bool-cases,
  inl, inr, ◌++◌,
}
use homesentinel.Db.Devices.{is_given}
use homesentinel.Db.Schema.{Store, Group, Member, has_id, is_group}
use homesentinel.Db.Groups.{
  create_group, update_group, delete_group, add_member, remove_member, with_group_metadata,
  name_taken, is_member,
}
use homesentinel.Db.Integrity.Sound.{IsSound}

abbrev names : Group → Text
names g = g.name

pub groups_replaced :
    (s : Store) (gs : List Group)
    → IsSound s
    → Distinct (λ g. g.group_id) gs
    → Distinct (λ g. g.name) gs
    → ((k : Text) → any (is_group k) s.groups ≡ true → any (is_group k) gs ≡ true)
    → IsSound (record s { groups = gs })
groups_replaced s gs v ids names kept = record {
  device_ids = v.device_ids;
  device_macs = v.device_macs;
  group_ids = ids;
  member_keys = v.member_keys;
  link_keys = v.link_keys;
  link_devices = v.link_devices;
  group_names = names;
  event_ids = v.event_ids;
  alert_ids = v.alert_ids;
  member_groups = All-map _ _ s.members (λ m. kept m.group_id) v.member_groups;
  member_devices = v.member_devices;
  event_devices = v.event_devices;
  alert_devices = v.alert_devices;
  alert_events = v.alert_events;
}

members_replaced :
    (s : Store) (ms : List Member)
    → IsSound s
    → DistinctPairs (λ m. m.group_id) (λ m. m.device_id) ms
    → All (λ m. any (is_group m.group_id) s.groups ≡ true) ms
    → All (λ m. any (has_id m.device_id) s.devices ≡ true) ms
    → IsSound (record s { members = ms })
members_replaced s ms v keys groups devices = record {
  device_ids = v.device_ids;
  device_macs = v.device_macs;
  group_ids = v.group_ids;
  member_keys = keys;
  link_keys = v.link_keys;
  link_devices = v.link_devices;
  group_names = v.group_names;
  event_ids = v.event_ids;
  alert_ids = v.alert_ids;
  member_groups = groups;
  member_devices = devices;
  event_devices = v.event_devices;
  alert_devices = v.alert_devices;
  alert_events = v.alert_events;
}

pub create_group-IsSound :
    (id name color now : Text) (s : Store)
    → IsSound s
    → IsSound (create_group id name color now s).1
unfolding create_group
create_group-IsSound id name color now s v =
    elim (Bool-cases (any (is_group id) s.groups || any (λ g. text_eq g.name name) s.groups)) [
      | inl refused ↦ rw refused v
      | inr fresh ↦ rw fresh (
          groups_replaced s (s.groups ++ new ∷ []) v
            (Distinct-insert (λ g. g.group_id) new s.groups (ground arith) v.group_ids)
            (Distinct-insert (λ g. g.name) new s.groups (ground arith) v.group_names)
            (λ k h. rw (any-append (is_group k) s.groups (new ∷ []), h)))
    ]
  where
    new : Group
    new = record { group_id = id; name = name; color = color; created_at = now; updated_at = now }

pub add_member-IsSound :
    (group device now : Text) (s : Store) → IsSound s → IsSound (add_member group device now s).1
unfolding add_member
add_member-IsSound group device now s v =
    elim (Bool-cases (any (is_member group device) s.members)) [
      | inl there ↦ rw there v
      | inr absent ↦
          rw absent
            (elim (Bool-cases
              (not (any (is_group group) s.groups) || not (any (has_id device) s.devices))) [
                | inl orphan ↦ rw orphan v
                | inr parents ↦ rw parents (
                    members_replaced s (s.members ++ new ∷ []) v
                      (DistinctPairs-insert (λ m. m.group_id) (λ m. m.device_id) new s.members
                        absent v.member_keys)
                      (All-append _ s.members (new ∷ []) v.member_groups (ground arith, tt))
                      (All-append _ s.members (new ∷ []) v.member_devices (ground arith, tt)))
              ])
    ]
  where
    new : Member
    new = record { group_id = group; device_id = device; created_at = now }

pub remove_member-IsSound :
    (group device : Text) (s : Store) → IsSound s → IsSound (remove_member group device s).1
unfolding remove_member
remove_member-IsSound group device s v =
    members_replaced s (delete (is_member group device) s.members) v
      (DistinctPairs-delete _ _ (is_member group device) s.members v.member_keys)
      (All-map _ _ _ (λ m h. h.0) (All-delete _ _ s.members v.member_groups))
      (All-map _ _ _ (λ m h. h.0) (All-delete _ _ s.members v.member_devices))

group_still_there :
    (k id : Text) (gs : List Group)
    → any (is_group k) gs ≡ true
    → text_eq k id ≡ false
    → any (is_group k) (delete (is_group id) gs) ≡ true
group_still_there k id gs h other = any-kept (is_group k) (is_group id) gs h (any-false _ gs apart)
  where
    apart : (g : Group) → (is_group k g && is_group id g) ≡ false
    apart g = ground (arith, text_eq_iff g.group_id k, text_eq_iff g.group_id id, text_eq_iff k id)

pub delete_group-IsSound : (id : Text) (s : Store) → IsSound s → IsSound (delete_group id s).1
unfolding delete_group
delete_group-IsSound id s v = elim (Bool-cases (any (is_group id) s.groups)) [
  | inr unknown ↦ rw unknown v
  | inl known ↦ rw known (record {
    device_ids = v.device_ids;
    device_macs = v.device_macs;
    group_ids = Distinct-delete (λ g. g.group_id) (is_group id) s.groups v.group_ids;
    member_keys = DistinctPairs-delete _ _ _ s.members v.member_keys;
    link_keys = v.link_keys;
    link_devices = v.link_devices;
    group_names = Distinct-delete (λ g. g.name) (is_group id) s.groups v.group_names;
    event_ids = v.event_ids;
    alert_ids = v.alert_ids;
    member_groups =
        All-map _ _ _ (λ m h. group_still_there m.group_id id s.groups h.0 h.1)
          (All-delete _ _ s.members v.member_groups);
    member_devices = All-map _ _ _ (λ m h. h.0) (All-delete _ _ s.members v.member_devices);
    event_devices = v.event_devices;
    alert_devices = v.alert_devices;
    alert_events = v.alert_events;
  })
]

-- Renaming one group: the rows without it keep their names, and the rest stay apart.
module _ (id n : Text) (color : Option Text) (now : Text) where
  abbrev renamed : List Group → List Group
  renamed = update (is_group id) (with_group_metadata (some n) color now)

  abbrev rival : Group → Bool
  rival g = text_eq g.name n && not (is_group id g)

  none_renamed :
      (gs : List Group)
      → any (is_group id) gs ≡ false
      → any rival gs ≡ false
      → any (λ g. text_eq g.name n) (renamed gs) ≡ false
  unfolding any update
  none_renamed [] h k = refl
  none_renamed (g ∷ gs) h k = ground (arith, none_renamed gs)

  others_apart :
      (m : Text) (gs : List Group)
      → text_eq n m ≡ false
      → any (λ g. text_eq g.name m) gs ≡ false
      → any (λ g. text_eq g.name m) (renamed gs) ≡ false
  unfolding any update with_group_metadata
  others_apart m [] h k = refl
  others_apart m (g ∷ gs) h k = ground (arith, others_apart m gs)

  renamed-Distinct :
      (gs : List Group)
      → Distinct (λ g. g.group_id) gs
      → Distinct (λ g. g.name) gs
      → any rival gs ≡ false
      → Distinct (λ g. g.name) (renamed gs)
  unfolding any update with_group_metadata
  renamed-Distinct [] ids ns h = tt
  renamed-Distinct (g ∷ gs) ids ns h = elim (Bool-cases (is_group id g)) [
    | inl own ↦ rw own (
      none_renamed gs (rw (← eq-of-text_eq g.group_id id own) ids.0) (ground arith),
      renamed-Distinct gs ids.1 ns.1 (ground arith),
    )
    | inr other ↦ rw other (
      others_apart g.name gs (ground (arith, text_eq_comm n g.name)) ns.0,
      renamed-Distinct gs ids.1 ns.1 (ground arith),
    )
  ]

names_kept :
    (id : Text) (name color : Option Text) (now : Text) (s : Store)
    → IsSound s
    → name_taken id name s.groups ≡ false
    → Distinct (λ g. g.name) (update (is_group id) (with_group_metadata name color now) s.groups)
unfolding name_taken with_group_metadata
names_kept id none color now s v h =
    Distinct-update (λ g. g.name) _ _ s.groups (λ g. refl) v.group_names
names_kept id (some n) color now s v h =
    renamed-Distinct id n color now s.groups v.group_ids v.group_names h

absent_unchanged :
    (p : Group → Bool) (f : Group → Group) (gs : List Group) → any p gs ≡ false → update p f gs ≡ gs
unfolding any update
absent_unchanged p f [] h = refl
absent_unchanged p f (g ∷ gs) h = ground (arith, absent_unchanged p f gs)

pub update_group-IsSound :
    (id : Text) (name color : Option Text) (now : Text) (s : Store)
    → IsSound s
    → IsSound (update_group id name color now s).1
unfolding update_group
update_group-IsSound id name color now s v =
    elim (Bool-cases (not (is_given name || is_given color))) [
      | inl nothing ↦ rw nothing v
      | inr something ↦ rw something (elim (Bool-cases (any (is_group id) s.groups)) [
        | inr unknown ↦
            rw
              (
                unknown,
                absent_unchanged (is_group id) (with_group_metadata name color now) s.groups
                    unknown,
              )
              v
        | inl known ↦ rw known (elim (Bool-cases (name_taken id name s.groups)) [
          | inl taken ↦ rw taken v
          | inr free ↦ rw free (rows_kept free)
        ])
      ])
    ]
  where
    rows_kept :
        name_taken id name s.groups ≡ false
        → IsSound (record s {
          groups = update (is_group id) (with_group_metadata name color now) s.groups;
        })
    rows_kept free =
        groups_replaced s (update (is_group id) (with_group_metadata name color now) s.groups) v
          (Distinct-update (λ g. g.group_id) _ _ s.groups (λ g. refl) v.group_ids)
          (names_kept id name color now s v free)
          (λ k h.
            rw
              (any-update (is_group id) (is_group k) (with_group_metadata name color now) s.groups
                (λ g. refl))
              h)
