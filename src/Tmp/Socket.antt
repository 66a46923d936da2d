-- ===== src/Tmp/Socket.antt =====
-- `TMPClient._recv_tslp`, over a socket: `recv n` gives at most n bytes that arrived, and none once
-- the peer has closed. The socket is a parameter; its timeout is not modelled.
use homesentinel.Prelude.{
  ℕ, zero, suc, ◌-◌, ltb, Option, none, some, [], ◌∷◌, ◌++◌, length, Text, if◌then◌else◌, Outcome,
  ok, raised, connection_error,
}
use homesentinel.Tmp.Bytes.{Bytes}
use homesentinel.Tmp.Packets.{field, TslpPacket, decode_tslp}

module _ {S : Type 0} (recv : ℕ → S → Bytes × S) where
  -- `if not chunk: raise ConnectionError`
  abbrev pub unless_closed : Bytes → S → Option (Outcome Bytes × S) → Option (Outcome Bytes × S)
  unless_closed [] s next = some (raised connection_error, s)
  unless_closed (b ∷ bs) s next = next

  -- `while len(header) < n: header += recv(n - len(header))`, at most as often as the first number
  -- says; none is a loop that has not ended by then.
  unfoldable pub read_until : ℕ → ℕ → Bytes → S → Option (Outcome Bytes × S)
  read_until zero n acc s = if ltb (length acc) n then none else some (ok acc, s)
  read_until (suc k) n acc s =
      let next = read_until k n (acc ++ (recv (n - length acc) s).0) (recv (n - length acc) s).1 in
      if ltb (length acc) n
      then unless_closed (recv (n - length acc) s).0 (recv (n - length acc) s).1 next
      else some (ok acc, s)

  module _ (utf8 : Text → Bytes) (utf8_replace : Bytes → Text) where
    abbrev pub after_payload : Bytes → Option (Outcome Bytes × S) → Option (Outcome TslpPacket × S)
    after_payload header none = none
    after_payload header (some (raised e, s)) = some (raised e, s)
    after_payload header (some (ok payload, s)) =
        some (decode_tslp utf8 utf8_replace (header ++ payload), s)

    abbrev pub after_header : Option (Outcome Bytes × S) → Option (Outcome TslpPacket × S)
    unfolding read_until
    after_header none = none
    after_header (some (raised e, s)) = some (raised e, s)
    after_header (some (ok header, s)) =
        after_payload header (read_until (field 4 4 header) (field 4 4 header) [] s)

    -- `_recv_tslp`; a loop that waits for n bytes has n rounds.
    unfoldable pub recv_tslp : S → Option (Outcome TslpPacket × S)
    unfolding read_until
    recv_tslp s = after_header (read_until 24 24 [] s)
