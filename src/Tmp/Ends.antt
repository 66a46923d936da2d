-- ===== src/Tmp/Ends.antt =====
-- `TMPClient._recv_tslp` ends, whatever the socket gives.
use homesentinel.Prelude.{
  ℕ, zero, suc, ◌+◌, ◌-◌, ◌≤◌, ◌<◌, ◌≡◌, refl, inl, inr, ltb, Bool-cases, Option, some, [], ◌∷◌,
  ◌++◌, length, length-append, Text, arith, Outcome, ok, raised,
}
use homesentinel.Tmp.Bytes.{Bytes}
use homesentinel.Tmp.Packets.{field, TslpPacket}
use homesentinel.Tmp.Socket.{unless_closed, read_until, after_payload, after_header, recv_tslp}

-- The rounds sufficed.
Ends : {A : Type 0} → Option A → Type 0
Ends {A} o = (a : A) × (o ≡ some a)

module _ {S : Type 0} (recv : ℕ → S → Bytes × S) where
  closed-Ends :
      (c : Bytes) (t : S) (next : Option (Outcome Bytes × S))
      → (0 < length c → Ends next)
      → Ends (unless_closed recv c t next)
  unfolding Ends
  closed-Ends [] t next h = (_, refl)
  closed-Ends (b ∷ c) t next h = h (omega arith)

  read_until-Ends :
      (k n : ℕ) (acc : Bytes) (s : S) → n ≤ length acc + k → Ends (read_until recv k n acc s)
  unfolding read_until Ends
  read_until-Ends zero n acc s h = ((ok acc, s), ground (arith, h))
  read_until-Ends (suc k) n acc s h = elim (Bool-cases (ltb (length acc) n)) [
    | inl e ↦ rw e (
        closed-Ends (recv (n - length acc) s).0 (recv (n - length acc) s).1 _ (λ p.
          read_until-Ends k n (acc ++ (recv (n - length acc) s).0) (recv (n - length acc) s).1
            (omega (arith, length-append acc (recv (n - length acc) s).0))))
    | inr e ↦ rw e ((ok acc, s), refl)
  ]

  module _ (utf8 : Text → Bytes) (utf8_replace : Bytes → Text) where
    after_payload-Ends :
        (header : Bytes) (o : Option (Outcome Bytes × S))
        → Ends o
        → Ends (after_payload recv utf8 utf8_replace header o)
    unfolding Ends
    after_payload-Ends header o ((ok payload, s), e) = rw e (_, refl)
    after_payload-Ends header o ((raised f, s), e) = rw e (_, refl)

    after_header-Ends :
        (o : Option (Outcome Bytes × S)) → Ends o → Ends (after_header recv utf8 utf8_replace o)
    unfolding Ends read_until
    after_header-Ends o ((ok header, s), e) = rw e (
        after_payload-Ends header _
          (read_until-Ends (field 4 4 header) (field 4 4 header) [] s (omega arith)))
    after_header-Ends o ((raised f, s), e) = rw e (_, refl)

    -- `_recv_tslp` returns or raises within the rounds that its loops are given, for every socket,
    -- also for one that closes, gives single bytes or gives more bytes than were asked for.
    pub recv_tslp_ends :
        (s : S) → (r : Outcome TslpPacket × S) × (recv_tslp recv utf8 utf8_replace s ≡ some r)
    unfolding recv_tslp Ends
    recv_tslp_ends s =
        after_header-Ends (read_until recv 24 24 [] s) (read_until-Ends 24 24 [] s (omega arith))
