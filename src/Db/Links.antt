-- ===== src/Db/Links.antt =====
-- The statements on `alexa_device_links` of backend/routes/alexa.py (`link_alexa_to_network`,
-- `unlink_alexa_from_network`) and of `CorrelationService.auto_correlate_alexa`. The table
-- `alexa_devices` is an argument, the list of its keys. The routes answer a failure with status 500.
use homesentinel.Prelude.{
  Text, text_eq, Bool, true, false, not, ◌&&◌, ◌||◌, List, [], ◌∷◌, ◌++◌, any, delete, Action,
  integrity_error, return, raise, if◌then◌else◌, codes,
}
use homesentinel.Db.Schema.{DeviceLink, Store, has_id}

abbrev pub is_link : Text → Text → DeviceLink → Bool
is_link endpoint_id device_id l =
    text_eq l.alexa_endpoint_id endpoint_id && text_eq l.network_device_id device_id

-- A FOREIGN KEY of a new link fails.
unfoldable pub refuses_link : List Text → Text → Text → Store → Bool
refuses_link endpoints endpoint_id device_id s =
    not (any (text_eq endpoint_id) endpoints) || not (any (has_id device_id) s.devices)

-- `link_alexa_to_network`: INSERT OR REPLACE
unfoldable pub link_alexa_to_network : List Text → Text → Text → Text → Action Store Unit
unfolding refuses_link
link_alexa_to_network endpoints endpoint_id device_id now s =
    if refuses_link endpoints endpoint_id device_id s
    then raise integrity_error s
    else return tt (record s {
      links =
          delete (is_link endpoint_id device_id) s.links
          ++ record {
            alexa_endpoint_id = endpoint_id;
            network_device_id = device_id;
            link_type = codes "manual";
            created_at = now;
          }
            ∷ [];
    })

-- `unlink_alexa_from_network`
unfoldable pub unlink_alexa_from_network : Text → Text → Action Store Unit
unlink_alexa_from_network endpoint_id device_id s =
    return tt (record s { links = delete (is_link endpoint_id device_id) s.links })

-- INSERT OR IGNORE of `auto_correlate_alexa`, and whether it inserted
unfoldable pub auto_link : List Text → Text → Text → Text → Action Store Bool
unfolding refuses_link
auto_link endpoints endpoint_id device_id now s =
    if any (is_link endpoint_id device_id) s.links
    then return false s
    else (if refuses_link endpoints endpoint_id device_id s
        then raise integrity_error s
        else return true (record s {
          links =
              s.links
              ++ record {
                alexa_endpoint_id = endpoint_id;
                network_device_id = device_id;
                link_type = codes "auto";
                created_at = now;
              }
                ∷ [];
        }))
