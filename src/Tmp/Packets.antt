-- ===== src/Tmp/Packets.antt =====
-- The three packets, with `struct.pack`'s range checks; the text of a channel goes through `utf8`
-- and `utf8_replace`, `str.encode` and `bytes.decode` with `errors='replace'`.
use homesentinel.Prelude.{
  ℕ, ◌+◌, ◌%◌, Bool, ◌&&◌, ◌||◌, ◌==◌, ltb, [], ◌∷◌, ◌++◌, length, take, drop, Text, if◌then◌else◌,
  Outcome, ok, raised, struct_error, value_error,
}
use homesentinel.Tmp.Bytes.{Bytes, pack16, pack32, unpack, crc32, pad, strip_zeros}

-- The field of n bytes at offset i
unfoldable pub field : ℕ → ℕ → Bytes → ℕ
unfolding unpack
field i n bytes = unpack (take n (drop i bytes))

-- `packet[:i] + struct.pack('>I', _crc32(packet)) + packet[i + 4:]`
unfoldable pub with_crc : ℕ → Bytes → Bytes
unfolding crc32 pack32
with_crc i packet = take i packet ++ (pack32 (crc32 packet) ++ drop (i + 4) packet)

abbrev pub fits_byte : ℕ → Bool
fits_byte n = ltb n 256

abbrev pub fits_word : ℕ → Bool
fits_word n = ltb n 4294967296

-- `TSLPPacket`
pub record TslpPacket : Type 0 where
  pub version : ℕ
  pub ptype : ℕ
  pub channel_type : ℕ
  pub channel : Text
  pub sequence : ℕ
  pub payload : Bytes

-- `TSLPPacket.__init__`
unfoldable pub new_tslp : ℕ → ℕ → Text → ℕ → Bytes → TslpPacket
new_tslp ptype channel_type channel sequence payload = record {
  version = 1;
  ptype = ptype;
  channel_type = channel_type;
  channel = channel;
  sequence = sequence;
  payload = payload;
}

unfoldable pub fits_tslp : TslpPacket → Bool
fits_tslp p =
    fits_byte p.version
    && (fits_byte p.ptype
        && (fits_byte p.channel_type && (fits_word (length p.payload) && fits_word p.sequence)))

module _ (utf8 : Text → Bytes) (utf8_replace : Bytes → Text) where
  -- `_make_channel_bytes`
  unfoldable pub make_channel_bytes : Text → Bytes
  unfolding pad
  make_channel_bytes channel_name = pad 8 (take 8 (utf8 channel_name))

  -- The packet before its checksum is written
  unfoldable pub tslp_bytes : TslpPacket → Bytes
  unfolding make_channel_bytes pack32
  tslp_bytes p =
      p.version
      ∷ p.ptype
      ∷ p.channel_type
      ∷ 0
      ∷ (pack32 (length p.payload)
          ++ (make_channel_bytes p.channel ++ (pack32 p.sequence ++ (pack32 0 ++ p.payload))))

  -- `TSLPPacket.encode`
  unfoldable pub encode_tslp : TslpPacket → Outcome Bytes
  unfolding tslp_bytes with_crc fits_tslp
  encode_tslp p = if fits_tslp p then ok (with_crc 20 (tslp_bytes p)) else raised struct_error

  -- `TSLPPacket.decode`
  unfoldable pub decode_tslp : Bytes → Outcome TslpPacket
  unfolding field strip_zeros new_tslp
  decode_tslp bytes =
      if ltb (length bytes) 24
      then raised value_error
      else ok (
          new_tslp (field 1 1 bytes) (field 2 1 bytes)
            (utf8_replace (strip_zeros (take 8 (drop 8 bytes)))) (field 16 4 bytes)
            (take (field 4 4 bytes) (drop 24 bytes)))

-- `TMPPacket`
pub record TmpPacket : Type 0 where
  pub major_version : ℕ
  pub minor_version : ℕ
  pub ptype : ℕ
  pub payload : Bytes
  pub sequence : ℕ
  pub status : ℕ

-- `TMPPacket.__init__`
unfoldable pub new_tmp : ℕ → Bytes → ℕ → ℕ → TmpPacket
new_tmp ptype payload sequence status = record {
  major_version = 2;
  minor_version = 0;
  ptype = ptype;
  payload = payload;
  sequence = sequence;
  status = status;
}

-- The types with the header of 4 bytes: association request, acknowledgement and refusal
unfoldable pub is_short : ℕ → Bool
is_short ptype = ptype == 1 || (ptype == 2 || ptype == 3)

unfoldable pub fits_general : TmpPacket → Bool
fits_general p = fits_byte p.major_version && (fits_byte p.minor_version && fits_byte p.ptype)

unfoldable pub tmp_bytes : TmpPacket → Bytes
unfolding pack16 pack32
tmp_bytes p =
    p.major_version
    ∷ p.minor_version
    ∷ p.ptype
    ∷ 0
    ∷ (pack16 (length p.payload % 65536)
        ++ (p.status ∷ 0 ∷ (pack32 p.sequence ++ (pack32 0 ++ p.payload))))

-- `TMPPacket.encode`
unfoldable pub encode_tmp : TmpPacket → Outcome Bytes
unfolding is_short fits_general tmp_bytes with_crc
encode_tmp p =
    if is_short p.ptype
    then (if fits_general p
        then ok (p.major_version ∷ p.minor_version ∷ p.ptype ∷ 0 ∷ [])
        else raised struct_error)
    else if fits_general p && (fits_byte p.status && fits_word p.sequence)
    then ok (with_crc 12 (tmp_bytes p))
    else raised struct_error

abbrev with_versions : Bytes → TmpPacket → TmpPacket
unfolding field
with_versions bytes p = record p {
  major_version = field 0 1 bytes;
  minor_version = field 1 1 bytes;
}

-- `TMPPacket.decode`
unfoldable pub decode_tmp : Bytes → Outcome TmpPacket
unfolding field is_short new_tmp
decode_tmp bytes =
    if ltb (length bytes) 4
    then raised value_error
    else if is_short (field 2 1 bytes)
    then ok (with_versions bytes (new_tmp (field 2 1 bytes) [] 0 0))
    else if ltb (length bytes) 16
    then raised value_error
    else ok (
        with_versions bytes (
          new_tmp (field 2 1 bytes) (take (field 4 2 bytes) (drop 16 bytes)) (field 8 4 bytes)
            (field 6 1 bytes)))

-- `BusinessPacket`
pub record BusinessPacket : Type 0 where
  pub btype : ℕ
  pub subtype : ℕ
  pub payload : Bytes

-- `BusinessPacket.encode`
unfoldable pub encode_business : BusinessPacket → Outcome Bytes
encode_business p =
    if fits_byte p.btype && fits_byte p.subtype
    then ok (p.btype ∷ p.subtype ∷ p.payload)
    else raised struct_error

-- `BusinessPacket.decode`
unfoldable pub decode_business : Bytes → Outcome BusinessPacket
unfolding field
decode_business bytes =
    if ltb (length bytes) 2
    then raised value_error
    else ok (record { btype = field 0 1 bytes; subtype = field 1 1 bytes; payload = drop 2 bytes })
