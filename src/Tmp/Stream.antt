-- ===== src/Tmp/Stream.antt =====
-- Reading a packet from the socket ends, whatever the sizes of the chunks, and reads that packet.
use homesentinel.Prelude.{
  ℕ, zero, suc, ◌+◌, ◌-◌, ◌<◌, ◌≤◌, ◌≡◌, refl, sym, ap, ◌∙◌, ◌⊎◌, inl, inr, Option, some, [], ◌∷◌,
  ◌++◌, length, take, drop, Text, arith, append_assoc, length-append, Outcome, ok,
}
use homesentinel.Tmp.Bytes.{Bytes, pack32, unpack-pack32}
use homesentinel.Tmp.Packets.{
  field, with_crc, TslpPacket, tslp_bytes, make_channel_bytes, encode_tslp, decode_tslp,
}
use homesentinel.Tmp.RoundTrip.{head_or_zero, tail, EightBytes, pad_eight, sent}
use homesentinel.Tmp.Socket.{unless_closed, read_until, recv_tslp}

append_nil : (a : Bytes) → a ++ [] ≡ a
append_nil [] = refl
append_nil (x ∷ a) = ap (λ t. x ∷ t) (append_nil a)

-- A chunk c that is not longer than xs begins xs.
split_prefix :
    (c u xs ys : Bytes)
    → c ++ u ≡ xs ++ ys
    → length c ≤ length xs
    → (xs ≡ c ++ drop (length c) xs) × (u ≡ drop (length c) xs ++ ys)
unfolding head_or_zero tail
split_prefix [] u xs ys h l = (refl, h)
split_prefix (x ∷ c) u [] ys h l = absurd (omega arith)
split_prefix (x ∷ c) u (y ∷ xs) ys h l =
    let rest = split_prefix c u xs ys (ap tail h) (omega arith) in (cc (h, rest.0), rest.1)

empty_or : (c : Bytes) → (c ≡ []) ⊎ (0 < length c)
empty_or [] = inl refl
empty_or (b ∷ c) = inr (omega arith)

no_bytes : (x : ℕ) (xs : Bytes) → ¬ ((x ∷ xs) ≡ [])
no_bytes x xs h = absurd (omega (arith, ap length h))

module _ {S : Type 0} (recv : ℕ → S → Bytes × S) (unread : S → Bytes) where
  -- The loop has read n bytes and left the stream at the rest.
  ReadsUntil : ℕ → ℕ → Bytes → S → Bytes → Bytes → Type 0
  unfolding read_until
  ReadsUntil k n acc s xs ys =
      (t : S) × ((read_until recv k n acc s ≡ some (ok (acc ++ xs), t)) × (unread t ≡ ys))

  -- The stream is left at the bytes that follow the packet.
  unfoldable pub Receives : (Text → Bytes) → (Bytes → Text) → S → TslpPacket → Bytes → Type 0
  unfolding recv_tslp
  Receives utf8 utf8_replace s p ys =
      (t : S) × ((recv_tslp recv utf8 utf8_replace s ≡ some (ok p, t)) × (unread t ≡ ys))

module _ {S : Type 0} (recv : ℕ → S → Bytes × S) (unread : S → Bytes)
    (gives : (n : ℕ) (s : S) → unread s ≡ (recv n s).0 ++ unread (recv n s).1)
    (bounded : (n : ℕ) (s : S) → length (recv n s).0 ≤ n)
    (waits : (n : ℕ) (s : S) → (recv (suc n) s).0 ≡ [] → unread s ≡ []) where
  not_closed :
      (c : Bytes) (t : S) (next : Option (Outcome Bytes × S))
      → 0 < length c
      → unless_closed recv c t next ≡ next
  not_closed [] t next h = absurd (omega arith)
  not_closed (b ∷ c) t next h = refl

  read_next :
      (k n : ℕ) (acc : Bytes) (s : S)
      → length acc < n
      → 0 < length (recv (n - length acc) s).0
      → read_until recv (suc k) n acc s
        ≡ read_until recv k n (acc ++ (recv (n - length acc) s).0) (recv (n - length acc) s).1
  unfolding read_until
  read_next k n acc s h p = ground (
    arith,
    h,
    not_closed (recv (n - length acc) s).0 (recv (n - length acc) s).1
        (read_until recv k n (acc ++ (recv (n - length acc) s).0) (recv (n - length acc) s).1) p,
  )

  -- A chunk that was waited for is not empty while bytes are unread.
  chunk_nonempty :
      (m : ℕ) (s : S) (x : ℕ) (xs : Bytes) → 0 < m → unread s ≡ x ∷ xs → 0 < length (recv m s).0
  chunk_nonempty zero s x xs p h = absurd (omega arith)
  chunk_nonempty (suc m) s x xs p h = elim (empty_or (recv (suc m) s).0) [
    | inl e ↦ absurd (no_bytes x xs (sym h ∙ waits m s e))
    | inr q ↦ q
  ]

  read_until_step :
      (k n : ℕ) (acc : Bytes) (s : S) (xs ys : Bytes)
      → (rest : Bytes) → xs ≡ (recv (n - length acc) s).0 ++ rest
      → length acc < n
      → 0 < length (recv (n - length acc) s).0
      → ReadsUntil recv unread k n
          (acc ++ (recv (n - length acc) s).0)
          (recv (n - length acc) s).1
          rest
          ys
      → ReadsUntil recv unread (suc k) n acc s xs ys
  unfolding ReadsUntil
  read_until_step k n acc s xs ys rest e h p (t, (r, u)) = (
    t,
    (
      read_next k n acc s h p
          ∙ r
          ∙ rw e (ap (λ b. some (ok b, t)) (append_assoc acc (recv (n - length acc) s).0 rest)),
      u,
    ),
  )

  read_until_lem :
      (k n : ℕ) (acc : Bytes) (s : S) (xs ys : Bytes)
      → unread s ≡ xs ++ ys
      → length acc + length xs ≡ n
      → length xs ≤ k
      → ReadsUntil recv unread k n acc s xs ys
  unfolding ReadsUntil read_until
  read_until_lem zero n acc s [] ys h l e = (s, (ground (arith, l, append_nil acc), h))
  read_until_lem zero n acc s (x ∷ xs) ys h l e = absurd (omega arith)
  read_until_lem (suc k) n acc s [] ys h l e = (s, (ground (arith, l, append_nil acc), h))
  read_until_lem (suc k) n acc s (x ∷ xs) ys h l e =
      let c = (recv (n - length acc) s).0 in
      let t = (recv (n - length acc) s).1 in
      let p = chunk_nonempty (n - length acc) s x (xs ++ ys) (omega arith) h in
      let two =
        split_prefix c (unread t) (x ∷ xs) ys (sym (gives (n - length acc) s) ∙ h)
          (omega (arith, bounded (n - length acc) s)) in
      let rest = drop (length c) (x ∷ xs) in
      read_until_step k n acc s (x ∷ xs) ys rest two.0 (omega arith) p (
        read_until_lem k n (acc ++ c) t rest ys two.1
          (omega (arith, length-append acc c, length-append c rest, ap length two.0))
          (omega (arith, length-append c rest, ap length two.0)))

  module _ (utf8 : Text → Bytes) (utf8_replace : Bytes → Text) where
    after_payload_lem :
        (s t : S) (header payload ys : Bytes) (p : TslpPacket)
        → decode_tslp utf8 utf8_replace (header ++ payload) ≡ ok p
        → read_until recv 24 24 [] s ≡ some (ok header, t)
        → ReadsUntil recv unread (field 4 4 header) (field 4 4 header) [] t payload ys
        → Receives recv unread utf8 utf8_replace s p ys
    unfolding Receives ReadsUntil recv_tslp
    after_payload_lem s t header payload ys p d r (t', (r', u)) = (t', (rw (r, r', d) refl, u))

    after_header_lem :
        (s : S) (header payload ys : Bytes) (p : TslpPacket)
        → field 4 4 header ≡ length payload
        → decode_tslp utf8 utf8_replace (header ++ payload) ≡ ok p
        → ReadsUntil recv unread 24 24 [] s header (payload ++ ys)
        → Receives recv unread utf8 utf8_replace s p ys
    unfolding ReadsUntil
    after_header_lem s header payload ys p f d (t, (r, u)) =
        after_payload_lem s t header payload ys p d r (
          read_until_lem (field 4 4 header) (field 4 4 header) [] t payload ys u (omega (arith, f))
            (omega (arith, f)))

    recv_tslp_lem :
        (s : S) (header payload ys : Bytes) (p : TslpPacket)
        → length header ≡ 24
        → field 4 4 header ≡ length payload
        → decode_tslp utf8 utf8_replace (header ++ payload) ≡ ok p
        → unread s ≡ (header ++ payload) ++ ys
        → Receives recv unread utf8 utf8_replace s p ys
    recv_tslp_lem s header payload ys p l f d h = after_header_lem s header payload ys p f d (
        read_until_lem 24 24 [] s header (payload ++ ys) (h ∙ append_assoc header payload ys)
          (omega arith) (omega arith))

    -- A packet with a payload of n bytes is a header of 24 bytes that says so, and the payload.
    unfoldable HasHeader : Bytes → Bytes → Type 0
    HasHeader b payload =
        (b ≡ take 24 b ++ payload)
        × ((length (take 24 b) ≡ 24) × (field 4 4 (take 24 b) ≡ length payload))

    sent-HasHeader :
        (v t c s : ℕ) (payload : Bytes)
        → EightBytes (λ raw. HasHeader (sent v t c (length payload) s payload raw) payload)
    unfolding EightBytes HasHeader sent with_crc pack32 field
    sent-HasHeader v t c s payload a b d e f g h i = (refl, (refl, unpack-pack32 (length payload)))

    tslp_bytes-HasHeader :
        (p : TslpPacket) → HasHeader (with_crc 20 (tslp_bytes utf8 utf8_replace p)) p.payload
    unfolding tslp_bytes make_channel_bytes sent
    tslp_bytes-HasHeader p =
        pad_eight
          (λ raw.
            HasHeader
              (sent p.version p.ptype p.channel_type (length p.payload) p.sequence p.payload raw)
              p.payload)
          (take 8 (utf8 p.channel))
          (sent-HasHeader p.version p.ptype p.channel_type p.sequence p.payload)

    encoded :
        (p : TslpPacket) (b : Bytes)
        → encode_tslp utf8 utf8_replace p ≡ ok b
        → with_crc 20 (tslp_bytes utf8 utf8_replace p) ≡ b
    unfolding encode_tslp
    encoded p b e = ground (arith, e)

    encode-HasHeader :
        (p : TslpPacket) (b : Bytes)
        → encode_tslp utf8 utf8_replace p ≡ ok b
        → HasHeader b p.payload
    encode-HasHeader p b e = rw (← encoded p b e) (tslp_bytes-HasHeader p)

    -- Over a socket whose `recv` gives what is next of the unread bytes, at most as many as asked
    -- for, and no bytes only if none are unread: if the unread bytes begin with the encoding of a
    -- packet that decodes as itself, then `_recv_tslp` ends, returns that packet, and leaves the
    -- bytes that follow it, whatever the sizes of the chunks.
    pub recv_tslp-encode_tslp :
        (p : TslpPacket) (b ys : Bytes) (s : S)
        → encode_tslp utf8 utf8_replace p ≡ ok b
        → decode_tslp utf8 utf8_replace b ≡ ok p
        → unread s ≡ b ++ ys
        → Receives recv unread utf8 utf8_replace s p ys
    unfolding HasHeader
    recv_tslp-encode_tslp p b ys s e d h =
        let (parts, (l, f)) = encode-HasHeader p b e in
        recv_tslp_lem s (take 24 b) p.payload ys p l f (rw (← parts) d) (rw (← parts) h)
