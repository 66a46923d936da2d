-- ===== src/Tmp/Requests.antt =====
-- The requests of `TMPClient`: `_send_tmp_business`, `version_negotiate`, `rename_client` and
-- `get_client_list`.
use homesentinel.Prelude.{
  ℕ, Bool, false, ◌==◌, not, ◌&&◌, [], length, take, Text, lower, remove_char, if◌then◌else◌,
  Outcome, ok, raised, runtime_error, value_error, return, ◌>>=◌, and_then,
}
use homesentinel.Tmp.Bytes.{Bytes}
use homesentinel.Tmp.Packets.{
  new_tmp, encode_tmp, decode_tmp, TmpPacket, encode_business, decode_business,
}
use homesentinel.Tmp.Client.{
  Wire, Client, Response, parsed, raw, no_response, hex, Params, rename_params, list_params, lift,
  next_tmp_seq, send_packet, receive_packet,
}

-- `mac.lower().replace(":", "").replace("-", "").replace(" ", "")`
abbrev pub clean_mac : Text → Text
clean_mac mac = remove_char b' ' (remove_char b'-' (remove_char b':' (lower mac)))

module _ {J : Type 0} (loads : Bytes → Outcome J) where
  -- The response's JSON, of a TMP packet of type DATA with a payload
  unfoldable pub response_of : TmpPacket → Outcome (Response J)
  unfolding decode_business
  response_of p =
      if p.ptype == 5 && not (length p.payload == 0)
      then and_then (decode_business p.payload)
          (λ biz. and_then (loads biz.payload) (λ j. ok (parsed j)))
      else ok no_response

  abbrev give_up : Bytes → Outcome (Response J) → Response J
  unfolding hex
  give_up b (ok r) = r
  give_up b (raised e) = raw (take 200 (hex b))

  -- `except Exception: return {"raw": resp_data.hex()[:200]}`
  unfoldable pub parse_response : Bytes → Response J
  unfolding response_of decode_tmp hex
  parse_response b = give_up b (and_then (decode_tmp b) response_of)

-- `tmp_resp.type == TMP_TYPE_ASSOC_ACK`; a packet that does not parse is logged.
unfoldable pub is_acknowledged : Outcome TmpPacket → Bool
is_acknowledged (ok p) = p.ptype == 2
is_acknowledged (raised e) = false

module _ {S : Type 0} (w : Wire S) where
  -- `version_negotiate`
  unfoldable pub version_negotiate : Client S → Outcome Bool × Client S
  unfolding encode_tmp new_tmp send_packet receive_packet decode_tmp is_acknowledged
  version_negotiate = lift (encode_tmp (new_tmp 1 [] 0 0)) >>= λ packet.
      send_packet w 0 packet >>= λ sent.
      receive_packet w 0 >>= λ b. return (is_acknowledged (decode_tmp b))

  module _ {J : Type 0} (dumps : Params → Bytes) (loads : Bytes → Outcome J) where
    -- `_send_tmp_business`
    unfoldable pub send_tmp_business : ℕ → Params → Client S → Outcome (Response J) × Client S
    unfolding encode_business next_tmp_seq encode_tmp new_tmp send_packet receive_packet
        parse_response
    send_tmp_business opcode params c0 =
        if c0.authenticated
        then (lift (encode_business (record { btype = 1; subtype = 0; payload = dumps params }))
              >>= λ biz. next_tmp_seq >>= λ seq.
                  lift (encode_tmp (new_tmp 5 biz seq 0)) >>= λ packet.
                  send_packet w seq packet >>= λ sent.
                  receive_packet w seq >>= λ b. return (parse_response loads b))
            c0
        else (raised runtime_error, c0)

    -- `rename_client`, with base64 as an argument
    unfoldable pub rename_client :
        (Text → Text) → Text → Text → Client S → Outcome (Response J) × Client S
    unfolding send_tmp_business
    rename_client base64 mac new_name c =
        if length (clean_mac mac) == 12
        then send_tmp_business 785
            (rename_params (record { mac = clean_mac mac; name = base64 new_name })) c
        else (raised value_error, c)

    -- `get_client_list`
    unfoldable pub get_client_list : Client S → Outcome (Response J) × Client S
    unfolding send_tmp_business
    get_client_list = send_tmp_business 784 (list_params 0 0)
