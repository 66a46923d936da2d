-- ===== src/Tmp/Checksum.antt =====
-- The checksum in an encoded packet.
use homesentinel.Prelude.{
  ℕ, ◌+◌, ◌≡◌, Bool, true, false, ◌==◌, ==_iff, ◌∷◌, ◌++◌, length, take, drop, Text, arith, ok,
}
use homesentinel.Tmp.Bytes.{Bytes, pack16, pack32, unpack-pack32, crc32}
use homesentinel.Tmp.Packets.{
  field, with_crc, TslpPacket, make_channel_bytes, tslp_bytes, encode_tslp, TmpPacket, is_short,
  tmp_bytes, encode_tmp,
}
use homesentinel.Tmp.RoundTrip.{EightBytes, pad_eight, sent}

-- The checksum of a packet is that of the packet with zeros in the checksum's place.
unfoldable pub is_intact : ℕ → Bytes → Bool
unfolding field crc32
is_intact i b = field i 4 b == crc32 (take i b ++ (0 ∷ 0 ∷ 0 ∷ 0 ∷ drop (i + 4) b))

tslp_intact_lem :
    (v t c n s : ℕ) (payload : Bytes)
    → EightBytes (λ raw. is_intact 20 (sent v t c n s payload raw) ≡ true)
unfolding is_intact EightBytes with_crc pack32 field sent
tslp_intact_lem v t c n s payload a b d e f g h i = (==_iff _ _).1 (unpack-pack32 _)

tmp_intact : (p : TmpPacket) → is_intact 12 (with_crc 12 (tmp_bytes p)) ≡ true
unfolding is_intact with_crc pack32 pack16 field tmp_bytes
tmp_intact p = (==_iff _ _).1 (unpack-pack32 _)

-- A TMP packet that is encoded and is no association carries, at offset 12, the checksum of itself.
pub encode_tmp_intact :
    (p : TmpPacket) (b : Bytes)
    → encode_tmp p ≡ ok b
    → is_short p.ptype ≡ false
    → is_intact 12 b ≡ true
unfolding encode_tmp
encode_tmp_intact p b e h = ground (arith, e, h, tmp_intact p)

module _ (utf8 : Text → Bytes) (utf8_replace : Bytes → Text) where
  tslp_intact :
      (p : TslpPacket) → is_intact 20 (with_crc 20 (tslp_bytes utf8 utf8_replace p)) ≡ true
  unfolding tslp_bytes make_channel_bytes with_crc sent
  tslp_intact p =
      pad_eight
        (λ raw.
          is_intact 20
            (sent p.version p.ptype p.channel_type (length p.payload) p.sequence p.payload raw)
          ≡ true)
        (take 8 (utf8 p.channel))
        (tslp_intact_lem p.version p.ptype p.channel_type (length p.payload) p.sequence p.payload)

  pub encode_tslp_intact :
      (p : TslpPacket) (b : Bytes) → encode_tslp utf8 utf8_replace p ≡ ok b → is_intact 20 b ≡ true
  unfolding encode_tslp
  encode_tslp_intact p b e = ground (arith, e, tslp_intact p)
