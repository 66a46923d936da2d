-- ===== src/Scenarios/Packets.antt =====
-- A TMP packet in three chunks, and the claims about packets applied to it.
use homesentinel.Prelude.{
  ℕ, zero, suc, ◌≤◌, ◌≡◌, refl, ap, leb, [], ◌∷◌, ◌++◌, take, drop, length, length-take, Text,
  arith, some, Outcome, ok, and_then, if◌then◌else◌, codes,
}
use mathlib.Core.Path.{subst}
use homesentinel.Tmp.Bytes.{Bytes, strip_zeros}
use homesentinel.Tmp.Packets.{
  TslpPacket, new_tslp, fits_tslp, encode_tslp, decode_tslp, tslp_bytes, with_crc,
  make_channel_bytes, TmpPacket, new_tmp, is_short, fits_general, encode_tmp, decode_tmp,
}
use homesentinel.Tmp.RoundTrip.{fits_tmp, received, decode_tslp-encode_tslp, decode_tmp-encode_tmp}
use homesentinel.Tmp.Socket.{recv_tslp}
use homesentinel.Tmp.Stream.{Receives, recv_tslp-encode_tslp}
use homesentinel.Tmp.Ends.{recv_tslp_ends}

abbrev ascii : Text → Bytes
ascii s = s

abbrev hello : TslpPacket
unfolding new_tslp
hello = new_tslp 1 2 (codes "TMP") 7 (104 ∷ 105 ∷ [])

abbrev hello_bytes : Bytes
unfolding tslp_bytes with_crc
hello_bytes = with_crc 20 (tslp_bytes ascii ascii hello)

-- A socket that gives at most three bytes at a time
abbrev three : ℕ → ℕ
three n = if leb n 3 then n else 3

abbrev recv : ℕ → Bytes → Bytes × Bytes
recv n s = (take (three n) s, drop (three n) s)

take-drop : (n : ℕ) (s : Bytes) → s ≡ take n s ++ drop n s
take-drop zero s = refl
take-drop (suc n) [] = refl
take-drop (suc n) (b ∷ s) = ap (λ t. b ∷ t) (take-drop n s)

bounded : (n : ℕ) (s : Bytes) → length (take (three n) s) ≤ n
bounded n s = ground (arith, length-take (three n) s)

take_some : (k : ℕ) (s : Bytes) → take (suc k) s ≡ [] → s ≡ []
take_some k [] h = refl
take_some k (b ∷ s) h = absurd (omega (arith, ap length h))

three_or_more : (n : ℕ) → three (suc (suc (suc n))) ≡ 3
three_or_more n = ground arith

waits : (n : ℕ) (s : Bytes) → take (three (suc n)) s ≡ [] → s ≡ []
waits zero s h = take_some 0 s h
waits (suc zero) s h = take_some 1 s h
waits (suc (suc n)) s h = take_some 2 s (subst (λ k. take k s ≡ []) (three_or_more n) h)

decode_tslp-encode_tslp_example :
    and_then (encode_tslp ascii ascii hello) (decode_tslp ascii ascii) ≡ ok hello
unfolding new_tslp fits_tslp strip_zeros
decode_tslp-encode_tslp_example =
    decode_tslp-encode_tslp ascii ascii hello refl refl (omega arith) refl refl

greeting : TmpPacket
unfolding new_tmp
greeting = new_tmp 5 (1 ∷ 2 ∷ 3 ∷ []) 9 0

decode_tmp-encode_tmp_example : and_then (encode_tmp greeting) decode_tmp ≡ ok (received greeting)
unfolding greeting new_tmp fits_tmp is_short fits_general
decode_tmp-encode_tmp_example = decode_tmp-encode_tmp greeting refl

encoded_hello : encode_tslp ascii ascii hello ≡ ok hello_bytes
unfolding encode_tslp fits_tslp new_tslp
encoded_hello = refl

recv_tslp-encode_tslp_example :
    Receives recv (λ s. s) ascii ascii (hello_bytes ++ (1 ∷ 1 ∷ [])) hello (1 ∷ 1 ∷ [])
unfolding encode_tslp fits_tslp new_tslp decode_tslp tslp_bytes with_crc make_channel_bytes
    strip_zeros
recv_tslp-encode_tslp_example =
    recv_tslp-encode_tslp recv (λ s. s) (λ n s. take-drop (three n) s) bounded waits ascii ascii
      hello hello_bytes (1 ∷ 1 ∷ []) (hello_bytes ++ (1 ∷ 1 ∷ [])) encoded_hello
      decode_tslp-encode_tslp_example refl

recv_tslp_ends_example :
    (r : Outcome TslpPacket × Bytes) × (recv_tslp recv ascii ascii (1 ∷ 2 ∷ []) ≡ some r)
recv_tslp_ends_example = recv_tslp_ends recv ascii ascii (1 ∷ 2 ∷ [])
