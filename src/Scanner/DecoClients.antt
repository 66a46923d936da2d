-- ===== src/Scanner/DecoClients.antt =====
-- The parts of `scan_and_update` that ask the Deco and the Chester who is online, and
-- `_remember_deco_master`.
use homesentinel.Prelude.{
  suc, Text, text_eq, is_empty, is_set, any, Bool, ◌&&◌, ◌||◌, not, Option, none, some, List, [],
  ◌∷◌, if◌then◌else◌, codes, Action, Outcome, return, ◌>>=◌, ◌>>◌, for_each, attempt,
}
use homesentinel.Db.Schema.{Device}
use homesentinel.Db.Devices.{get_by_mac}
use homesentinel.Mac.{normalize_node_mac, or_blank}
use homesentinel.Scanner.State.{
  World, Results, Env, on_store, count_result, see, add_mac, require, create_or_update_device,
  set_friendly_name, populate_vendor,
}
use homesentinel.Scanner.Persist.{when, added}

pub record DecoClient : Type 0 where
  pub online : Bool
  pub mac : Option Text
  pub mac_alias : Option Text
  pub ip : Option Text
  pub ip_alias : Option Text
  pub name : Option Text

pub record DecoNode : Type 0 where
  pub role : Option Text
  pub mac : Option Text
  pub device_mac : Option Text
  pub custom_nickname : Option Text
  pub nickname : Option Text

pub record ChesterStatus : Type 0 where
  pub board_mac : Option Text
  pub ipv4_addr : Option Text

-- `x.get(a, "") or x.get(b, "")`
abbrev pub first_set : Option Text → Option Text → Text
first_set a b = if is_set a then or_blank a else or_blank b

-- Generic names are dropped.
unfoldable pub useful_name : Text → Text
useful_name s =
    if text_eq s (codes "network device") || text_eq s (codes "iot_device") then [] else s

abbrev pub ip_or : Text → Option Text → Option Text
ip_or ip old = if is_empty ip then old else some ip

abbrev pub deco_added : Results → Results
deco_added r = record r { deco_online = suc r.deco_online }

abbrev pub run_outcome : {S A : Type 0} → Outcome A → S → Outcome A × S
run_outcome r s = (r, s)

abbrev pub node_mac : DecoNode → Option Text
node_mac n =
    if is_empty (first_set n.mac n.device_mac)
    then none
    else normalize_node_mac (some (first_set n.mac n.device_mac))

abbrev or_old : Option Text → Option Text → Option Text
or_old none old = old
or_old (some mac) old = some mac

-- `_remember_deco_master`: the last master with an address is remembered.
unfoldable pub remember_deco_master : List DecoNode → Option Text → Option Text
remember_deco_master [] old = old
remember_deco_master (n ∷ ns) old = remember_deco_master ns (
    if text_eq (or_blank n.role) (codes "master")
    then or_old (normalize_node_mac (some (first_set n.mac n.device_mac))) old
    else old)

abbrev add_if : Option Text → List Text → List Text
add_if none macs = macs
add_if (some mac) macs = add_mac mac macs

unfoldable pub fresh_macs : List DecoNode → List Text → List Text
unfolding add_mac
fresh_macs [] macs = macs
fresh_macs (n ∷ ns) macs = fresh_macs ns (add_if (node_mac n) macs)

unfoldable pub add_all : List Text → List Text → List Text
unfolding add_mac
add_all [] macs = macs
add_all (mac ∷ more) macs = add_all more (add_mac mac macs)

abbrev cache_or : List Text → List Text → List Text
cache_or [] cache = cache
cache_or (m ∷ ms) cache = m ∷ ms

-- Node addresses join the online set; without fresh ones the remembered ones do.
unfoldable pub see_nodes : List DecoNode → Action World Unit
unfolding remember_deco_master fresh_macs add_all
see_nodes nodes w = return tt (record w {
  deco_master_mac = remember_deco_master nodes w.deco_master_mac;
  deco_node_macs = cache_or (fresh_macs nodes []) w.deco_node_macs;
  online_macs = add_all (cache_or (fresh_macs nodes []) w.deco_node_macs) w.online_macs;
})

module _ (env : Env) where
  unfoldable pub name_if_missing : Text → Device → Action World Unit
  unfolding set_friendly_name
  name_if_missing name d =
      when (not (is_empty name) && not (is_set d.friendly_name))
        (set_friendly_name env d.device_id name >> return tt)

  unfoldable pub client_known : Text → Text → Text → Device → Action World Unit
  unfolding create_or_update_device name_if_missing
  client_known mac ip name d = do
    create_or_update_device env mac (ip_or ip d.current_ip)
    name_if_missing name d

  unfoldable pub client_new : Text → Text → Text → Action World Unit
  unfolding create_or_update_device set_friendly_name populate_vendor
  client_new mac ip name = do
    created ← create_or_update_device env mac (some ip)
    device ← require created
    when (not (is_empty name)) (set_friendly_name env device.device_id name >> return tt)
    populate_vendor env device.device_id mac
    count_result added

  abbrev pub client_found : Text → Text → Text → Option Device → Action World Unit
  client_found mac ip name none = client_new mac ip name
  client_found mac ip name (some d) = client_known mac ip name d

  abbrev pub name_found : Text → Option Device → Action World Unit
  name_found name none = return tt
  name_found name (some d) = name_if_missing name d

  -- A client with a MAC that the ARP scan did not see.
  unfoldable pub supplement_online : Text → Text → Text → Action World Unit
  unfolding client_known client_new on_store
  supplement_online mac ip name = do
    existing ← on_store (get_by_mac mac)
    client_found mac ip name existing
    see mac
    count_result deco_added

  -- A client that it did see.
  unfoldable pub sync_name : Text → Text → Action World Unit
  unfolding name_if_missing on_store
  sync_name mac name =
      when (not (is_empty name)) (do existing ← on_store (get_by_mac mac); name_found name existing)

  abbrev pub supplement_mac : Option Text → Text → Text → Action World Unit
  supplement_mac none ip name w = return tt w
  supplement_mac (some mac) ip name w =
      if not (any (text_eq mac) w.online_macs)
      then supplement_online mac ip name w
      else sync_name mac name w

  -- The body of the loop over the Deco's clients.
  unfoldable pub supplement_client : DecoClient → Action World Unit
  unfolding supplement_online sync_name useful_name
  supplement_client c = when (c.online && not (is_empty (first_set c.mac c.mac_alias))) (
      supplement_mac (normalize_node_mac (some (first_set c.mac c.mac_alias)))
        (first_set c.ip c.ip_alias) (useful_name (or_blank c.name)))

  -- The first `try` of the Deco supplement; `clients` is what the Deco answers.
  unfoldable pub deco_supplement : Outcome (List DecoClient) → Action World Unit
  unfolding supplement_client for_each
  deco_supplement clients =
      attempt (run_outcome clients >>= λ cs. for_each cs supplement_client) (λ e. return tt)

  -- `base64.b64decode(raw).decode("utf-8") if raw else ""`, and the raw text if that fails
  abbrev pub nickname_of : DecoNode → Text
  nickname_of n =
      if is_empty (first_set n.custom_nickname n.nickname)
      then []
      else (elim (env.decode_nickname (first_set n.custom_nickname n.nickname)) [
        | none ↦ first_set n.custom_nickname n.nickname
        | some name ↦ name
      ])

  abbrev pub name_node_at : Option Text → Text → Action World Unit
  name_node_at none name = return tt
  name_node_at (some mac) name =
      when (not (is_empty name)) (do existing ← on_store (get_by_mac mac); name_found name existing)

  unfoldable pub name_node : DecoNode → Action World Unit
  unfolding name_if_missing on_store
  name_node n = name_node_at (node_mac n) (nickname_of n)

  -- The second `try` of the Deco supplement; `nodes` is the topology that the Deco answers.
  unfoldable pub deco_nodes : Outcome (List DecoNode) → Action World Unit
  unfolding see_nodes name_node for_each
  deco_nodes nodes =
      attempt (run_outcome nodes >>= λ ns. see_nodes ns >> for_each ns name_node) (λ e. return tt)

  abbrev pub ip_or_default : Option Text → Option Text
  ip_or_default ip = if is_set ip then ip else some (codes "192.168.12.1")

  abbrev pub chester_at : Option Text → Option Text → Action World Unit
  chester_at none ip = return tt
  chester_at (some mac) ip =
      see mac >> (create_or_update_device env mac (ip_or_default ip) >> return tt)

  abbrev pub chester_online : Option ChesterStatus → Action World Unit
  chester_online none = return tt
  chester_online (some c) =
      when (is_set c.board_mac) (chester_at (normalize_node_mac c.board_mac) c.ipv4_addr)

  -- The `try` that asks for the Chester router; `none` is a status without a board.
  unfoldable pub chester_check : Outcome (Option ChesterStatus) → Action World Unit
  unfolding create_or_update_device
  chester_check status = attempt (run_outcome status >>= λ c. chester_online c) (λ e. return tt)
