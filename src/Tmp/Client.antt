-- ===== src/Tmp/Client.antt =====
-- `TMPClient` after authentication: `_next_seq`, `_next_tmp_seq`, `_send_tslp`, `_send_tmp_business`,
-- `version_negotiate`, `rename_client` and `get_client_list`. The socket, AES-CCM under the session
-- key, base64 and JSON are parameters.
use homesentinel.Prelude.{
  ℕ, ◌+◌, ◌/◌, ◌%◌, Bool, ltb, Option, none, some, [], ◌∷◌, Text, if◌then◌else◌, Outcome, ok,
  raised, runtime_error, struct_error, return, ◌>>=◌, attempt, codes,
}
use homesentinel.Tmp.Bytes.{Bytes, pack32}
use homesentinel.Tmp.Packets.{TslpPacket, new_tslp, encode_tslp, fits_word}
use homesentinel.Tmp.Socket.{recv_tslp}

-- What the client uses of its surroundings: `str.encode`, `bytes.decode`, the socket, and AES-CCM
-- under the session key, whose second argument is the nonce
pub record Wire (S : Type 0) : Type 0 where
  pub utf8 : Text → Bytes
  pub utf8_replace : Bytes → Text
  pub sendall : Bytes → S → Outcome Unit × S
  pub recv : ℕ → S → Bytes × S
  pub encrypt : Bytes → Bytes → Outcome Bytes
  pub decrypt : Bytes → Bytes → Outcome Bytes

pub record Client (S : Type 0) : Type 0 where
  pub socket : S
  pub seq : ℕ
  pub tmp_seq : ℕ
  pub authenticated : Bool
  -- `self._spake and self._spake.get_session_key()`
  pub has_key : Bool

-- What `_send_tmp_business` returns: the parsed JSON, the hexadecimal text of what could not be
-- parsed, or `{}`.
pub data Response (J : Type 0) : Type 0 where
  parsed : J → Response J
  raw : Text → Response J
  no_response : Response J

unfoldable pub hex_digit : ℕ → ℕ
hex_digit d = if ltb d 10 then d + 48 else d + 87

unfoldable pub hex : Bytes → Text
unfolding hex_digit
hex [] = []
hex (b ∷ bs) = hex_digit (b / 16) ∷ hex_digit (b % 16) ∷ hex bs

-- The arguments of `rename_client` in its request
pub record Rename : Type 0 where
  pub mac : Text
  pub name : Text

pub data Params : Type 0 where
  rename_params : Rename → Params
  list_params : ℕ → ℕ → Params

abbrev pub lift : {S A : Type 0} → Outcome A → S → Outcome A × S
lift o s = (o, s)

module _ {S : Type 0} where
  unfoldable pub next_seq : Client S → Outcome ℕ × Client S
  next_seq c = (ok (c.seq + 1), record c { seq = c.seq + 1 })

  unfoldable pub next_tmp_seq : Client S → Outcome ℕ × Client S
  next_tmp_seq c = (ok (c.tmp_seq + 1), record c { tmp_seq = c.tmp_seq + 1 })

  -- `struct.pack('>I', seq).rjust(13, b'\x00')`
  unfoldable pub nonce : ℕ → Client S → Outcome Bytes × Client S
  unfolding pack32
  nonce seq c = (
    if fits_word seq
        then ok (0 ∷ 0 ∷ 0 ∷ 0 ∷ 0 ∷ 0 ∷ 0 ∷ 0 ∷ 0 ∷ pack32 seq)
        else raised struct_error,
    c,
  )

  module _ (w : Wire S) where
    abbrev send_bytes : Bytes → Client S → Outcome Unit × Client S
    send_bytes b c = let r = w.sendall b c.socket in (r.0, record c { socket = r.1 })

    -- `_send_tslp`, on a request
    unfoldable pub send_tslp : ℕ → Text → Bytes → Client S → Outcome Unit × Client S
    unfolding next_seq encode_tslp new_tslp
    send_tslp channel_type channel payload = next_seq >>= λ seq.
        lift (encode_tslp w.utf8 w.utf8_replace (new_tslp 1 channel_type channel seq payload))
        >>= λ b. send_bytes b

    -- Encrypted under the session key, or as it is if anything fails
    unfoldable pub send_business : Bytes → Bytes → Client S → Outcome Unit × Client S
    unfolding send_tslp
    send_business iv packet =
        attempt (lift (w.encrypt packet iv) >>= λ sealed. send_tslp 2 (codes "TMP") sealed)
          (λ e. send_tslp 2 (codes "TMP") packet)

    unfoldable pub send_packet : ℕ → Bytes → Client S → Outcome Unit × Client S
    unfolding send_business send_tslp nonce
    send_packet seq packet c =
        if c.has_key
        then (nonce seq >>= λ iv. send_business iv packet) c
        else send_tslp 2 (codes "TMP") packet c

    -- The first case does not occur.
    abbrev received_by : Client S → Option (Outcome TslpPacket × S) → Outcome Bytes × Client S
    received_by c none = (raised runtime_error, c)
    received_by c (some (ok p, s)) = (ok p.payload, record c { socket = s })
    received_by c (some (raised e, s)) = (raised e, record c { socket = s })

    abbrev receive_tslp : Client S → Outcome Bytes × Client S
    unfolding recv_tslp
    receive_tslp c = received_by c (recv_tslp w.recv w.utf8 w.utf8_replace c.socket)

    abbrev opened : ℕ → Bytes → Client S → Outcome Bytes × Client S
    unfolding nonce
    opened seq b c =
        if c.has_key
        then attempt (nonce seq >>= λ iv. lift (w.decrypt b iv)) (λ e. return b) c
        else (ok b, c)

    -- `resp_data` after the attempt to decrypt it
    unfoldable pub receive_packet : ℕ → Client S → Outcome Bytes × Client S
    unfolding recv_tslp nonce
    receive_packet seq = receive_tslp >>= λ b. opened seq b
