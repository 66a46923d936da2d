-- ===== src/Tmp/RoundTrip.antt =====
-- Packets survive being sent: what `decode` reads is what `encode` was given.
use homesentinel.Prelude.{
  ℕ, suc, ◌+◌, ◌%◌, ◌<◌, ◌≤◌, ◌≡◌, refl, ap, ◌∙◌, Bool, true, false, ◌&&◌, ltb, [], ◌∷◌, ◌++◌,
  length, take, drop, Text, arith, if◌then◌else◌, and_then, ok, take_all, Bool-cases, inl, inr,
}
use homesentinel.Tmp.Bytes.{
  Bytes, pack16, pack32, unpack, unpack_from, unpack-pack16, unpack-pack32, pad, strip_zeros,
  strip_zeros-pad,
}
use homesentinel.Tmp.Packets.{
  field, with_crc, TslpPacket, new_tslp, fits_tslp, make_channel_bytes, tslp_bytes, encode_tslp,
  decode_tslp, TmpPacket, new_tmp, is_short, fits_general, tmp_bytes, encode_tmp, decode_tmp,
  fits_byte, fits_word, BusinessPacket, encode_business, decode_business,
}

unpack_byte : (b : ℕ) → unpack (b ∷ []) ≡ b
unfolding unpack unpack_from
unpack_byte b = omega arith

pub long_enough : {A : Type 0} (b : Bool) (x y : A) → b ≡ false → (if b then x else y) ≡ y
long_enough b x y h = rw h refl

pub not_short : (k n m : ℕ) → m ≡ k + n → ltb m k ≡ false
not_short k n m h = ground arith

pub not_short_of : (k j m : ℕ) → ltb m (k + j) ≡ false → ltb m k ≡ false
not_short_of k j m h = ground (arith, h)

-- A list of eight bytes, byte by byte
unfoldable pub EightBytes : (Bytes → Type 0) → Type 0
EightBytes P = (a b c d e f g h : ℕ) → P (a ∷ b ∷ c ∷ d ∷ e ∷ f ∷ g ∷ h ∷ [])

unfoldable pub head_or_zero : Bytes → ℕ
head_or_zero [] = 0
head_or_zero (b ∷ bs) = b

unfoldable pub tail : Bytes → Bytes
tail [] = []
tail (b ∷ bs) = bs

pad-suc : (k : ℕ) (bs : Bytes) → pad (suc k) bs ≡ head_or_zero bs ∷ pad k (tail bs)
unfolding pad head_or_zero tail
pad-suc k [] = refl
pad-suc k (b ∷ bs) = refl

pub pad_eight : (P : Bytes → Type 0) (bs : Bytes) → EightBytes P → P (pad 8 bs)
unfolding EightBytes pad
pad_eight P bs all =
    rw
      (
        pad-suc 7 bs,
        pad-suc 6 (tail bs),
        pad-suc 5 (tail (tail bs)),
        pad-suc 4 (tail (tail (tail bs))),
        pad-suc 3 (tail (tail (tail (tail bs)))),
        pad-suc 2 (tail (tail (tail (tail (tail bs))))),
        pad-suc 1 (tail (tail (tail (tail (tail (tail bs)))))),
        pad-suc 0 (tail (tail (tail (tail (tail (tail (tail bs))))))),
      )
      (all _ _ _ _ _ _ _ _)

unfoldable pub sent : (v t c n s : ℕ) (payload raw : Bytes) → Bytes
unfolding with_crc pack32
sent v t c n s payload raw =
    with_crc 20 (v ∷ t ∷ c ∷ 0 ∷ (pack32 n ++ (raw ++ (pack32 s ++ (pack32 0 ++ payload)))))

sent_long :
    (v t c n s : ℕ) (payload : Bytes)
    → EightBytes (λ raw. ltb (length (sent v t c n s payload raw)) 24 ≡ false)
unfolding EightBytes with_crc pack32 sent
sent_long v t c n s payload a b d e f g h i = not_short 24 (length payload) _ (omega arith)

module _ (utf8 : Text → Bytes) (utf8_replace : Bytes → Text) where
  received-eq :
      {t t' c c' n n' s s' : ℕ} (ch : Text) (payload : Bytes)
      → t ≡ t'
      → c ≡ c'
      → n ≡ n'
      → s ≡ s'
      → ok (new_tslp t c ch s (take n payload)) ≡ ok (new_tslp t' c' ch s' (take n' payload))
  received-eq ch payload p q r w = rw (p, q, r, w) refl

  pub decode-with_crc :
      (v t c n s : ℕ) (payload : Bytes)
      → EightBytes (λ raw.
        decode_tslp utf8 utf8_replace (sent v t c n s payload raw)
        ≡ ok (new_tslp t c (utf8_replace (strip_zeros raw)) s (take n payload)))
  unfolding with_crc decode_tslp pack32 field EightBytes sent
  decode-with_crc v t c n s payload a b d e f g h i =
      long_enough (ltb (length (sent v t c n s payload (a ∷ b ∷ d ∷ e ∷ f ∷ g ∷ h ∷ i ∷ []))) 24) _
        _ (sent_long v t c n s payload a b d e f g h i)
      ∙ received-eq _ _ (unpack_byte t) (unpack_byte c) (unpack-pack32 n) (unpack-pack32 s)

  tslp-ext :
      (p : TslpPacket)
      → p.version ≡ 1
      → new_tslp p.ptype p.channel_type p.channel p.sequence p.payload ≡ p
  unfolding new_tslp
  tslp-ext p h = rw (← h) refl

  -- A TSLP packet of version 1 whose fields fit (each byte below 256, the sequence number and the
  -- length of the payload below 2^32) and whose channel's name has at most 8 bytes, does not end in
  -- a zero byte and is read back from its bytes, is encoded, and decoded from the bytes as it was.
  pub decode_tslp-encode_tslp :
      (p : TslpPacket)
      → p.version ≡ 1
      → fits_tslp p ≡ true
      → length (utf8 p.channel) ≤ 8
      → strip_zeros (utf8 p.channel) ≡ utf8 p.channel
      → utf8_replace (utf8 p.channel) ≡ p.channel
      → and_then (encode_tslp utf8 utf8_replace p) (decode_tslp utf8 utf8_replace) ≡ ok p
  unfolding encode_tslp tslp_bytes make_channel_bytes sent
  decode_tslp-encode_tslp p v fit short zeros back =
      rw
        (
          fit,
          pad_eight
              (λ raw.
                decode_tslp utf8 utf8_replace (
                  sent p.version p.ptype p.channel_type (length p.payload) p.sequence p.payload raw)
                ≡ ok (
                    new_tslp p.ptype p.channel_type (utf8_replace (strip_zeros raw)) p.sequence
                      (take (length p.payload) p.payload)))
              (take 8 (utf8 p.channel))
              (decode-with_crc p.version p.ptype p.channel_type (length p.payload) p.sequence
                p.payload),
          take_all 8 (utf8 p.channel) short,
          strip_zeros-pad 8 (utf8 p.channel) (omega arith) zeros,
          back,
          take_all (length p.payload) p.payload (omega arith),
        )
        (ap ok (tslp-ext p v))

-- What the receiver has of a packet: the short types lose all but the versions, and a payload is
-- cut to its length modulo 65536.
unfoldable pub received : TmpPacket → TmpPacket
unfolding is_short
received p =
    if is_short p.ptype
    then record p { payload = []; sequence = 0; status = 0 }
    else record p { payload = take (length p.payload % 65536) p.payload }

unfoldable pub fits_tmp : TmpPacket → Bool
unfolding is_short fits_general
fits_tmp p =
    if is_short p.ptype
    then fits_general p
    else fits_general p && (fits_byte p.status && fits_word p.sequence)

short_read :
    (p : TmpPacket)
    → is_short p.ptype ≡ true
    → decode_tmp (p.major_version ∷ p.minor_version ∷ p.ptype ∷ 0 ∷ [])
      ≡ ok (record p { payload = []; sequence = 0; status = 0 })
unfolding decode_tmp field new_tmp
short_read p h =
    rw (unpack_byte p.ptype, unpack_byte p.major_version, unpack_byte p.minor_version, h) refl

full_long : (p : TmpPacket) → ltb (length (with_crc 12 (tmp_bytes p))) 16 ≡ false
unfolding with_crc pack32 pack16 tmp_bytes
full_long p = not_short 16 (length p.payload) _ (omega arith)

decode_tmp-full :
    (b : Bytes)
    → ltb (length b) 16 ≡ false
    → is_short (field 2 1 b) ≡ false
    → decode_tmp b
      ≡ ok (record {
        major_version = field 0 1 b;
        minor_version = field 1 1 b;
        ptype = field 2 1 b;
        payload = take (field 4 2 b) (drop 16 b);
        sequence = field 8 4 b;
        status = field 6 1 b;
      })
unfolding decode_tmp new_tmp
decode_tmp-full b h k = rw (not_short_of 4 12 (length b) h, k, h) refl

made : ℕ → ℕ → ℕ → Bytes → ℕ → ℕ → TmpPacket
made a b c bytes s t = record {
  major_version = a;
  minor_version = b;
  ptype = c;
  payload = bytes;
  sequence = s;
  status = t;
}

packet-eq :
    {a a' b b' c c' n n' s s' t t' : ℕ} (payload : Bytes)
    → a ≡ a'
    → b ≡ b'
    → c ≡ c'
    → n ≡ n'
    → s ≡ s'
    → t ≡ t'
    → made a b c (take n payload) s t ≡ made a' b' c' (take n' payload) s' t'
packet-eq payload p q r w x y = rw (p, q, r, w, x, y) refl

full_read :
    (p : TmpPacket)
    → is_short p.ptype ≡ false
    → decode_tmp (with_crc 12 (tmp_bytes p))
      ≡ ok (record p { payload = take (length p.payload % 65536) p.payload })
unfolding field with_crc pack32 pack16 tmp_bytes made
full_read p h =
    decode_tmp-full (with_crc 12 (tmp_bytes p)) (full_long p)
      (ap is_short (unpack_byte p.ptype) ∙ h)
    ∙ ap ok (
        packet-eq p.payload (unpack_byte p.major_version) (unpack_byte p.minor_version)
          (unpack_byte p.ptype) (unpack-pack16 (length p.payload % 65536))
          (unpack-pack32 p.sequence) (unpack_byte p.status))

-- A TMP packet whose fields fit is encoded, and decoded from the bytes without its payload,
-- sequence number and status if its type is one of the three association types, and with its
-- payload cut to the payload's length modulo 65536 otherwise.
pub decode_tmp-encode_tmp :
    (p : TmpPacket) → fits_tmp p ≡ true → and_then (encode_tmp p) decode_tmp ≡ ok (received p)
unfolding encode_tmp received fits_tmp
decode_tmp-encode_tmp p fit = elim (Bool-cases (is_short p.ptype)) [
  | inl h ↦ ground (arith, fit, h, short_read p h)
  | inr h ↦ ground (arith, fit, h, full_read p h)
]

-- A packet that is not an association and whose payload has less than 65536 bytes arrives whole.
pub received_whole :
    (p : TmpPacket) → is_short p.ptype ≡ false → length p.payload < 65536 → received p ≡ p
unfolding received
received_whole p h k = rw (h, take_all (length p.payload % 65536) p.payload (omega arith)) refl

test_true : (m k : ℕ) → m < k → ltb m k ≡ true
test_true m k h = ground arith

made_business : ℕ → ℕ → Bytes → BusinessPacket
made_business a b bytes = record { btype = a; subtype = b; payload = bytes }

business-eq :
    {a a' b b' : ℕ} (payload : Bytes)
    → a ≡ a'
    → b ≡ b'
    → made_business a b payload ≡ made_business a' b' payload
business-eq payload p q = rw (p, q) refl

decode_business-long :
    (b : Bytes)
    → ltb (length b) 2 ≡ false
    → decode_business b ≡ ok (made_business (field 0 1 b) (field 1 1 b) (drop 2 b))
unfolding decode_business made_business
decode_business-long b h = rw h refl

pub decode_business-encode_business :
    (p : BusinessPacket)
    → p.btype < 256
    → p.subtype < 256
    → and_then (encode_business p) decode_business ≡ ok p
unfolding encode_business field made_business
decode_business-encode_business p h k =
    rw (test_true p.btype 256 h, test_true p.subtype 256 k)
      (decode_business-long _ (not_short 2 (length p.payload) _ (omega arith))
        ∙ ap ok (business-eq p.payload (unpack_byte p.btype) (unpack_byte p.subtype)))
