-- ===== src/Deco/Shown.antt =====
-- A node with an online client is never offline, however the two answers of the Deco spell its address.
use homesentinel.Prelude.{
  ℕ, ◌≡◌, refl, Text, text_eq, text_eq_refl, upper, upper_char, lower_char, Bool, true, false, ◌&&◌,
  ◌||◌, none, some, List, [], ◌∷◌, ◌++◌, any, All, Dict, get, if◌then◌else◌, ok, codes, arith, ◌==◌,
  ◌⊎◌, inl, inr, Bool-cases,
}
use homesentinel.Deco.Values.{Value, text, Object, truthy, or_default}
use homesentinel.Deco.Nodes.{Formats, Node}
use homesentinel.Deco.Service.{
  Topology, is_online_client, colon_mac, nodes_with_clients, as_text, get_or_blank, node_mac,
  is_offline_node, nodes_of,
}
use homesentinel.Deco.Online.{IsShown, nodes_of-IsShown}

abbrev pub is_separator : ℕ → Bool
is_separator c = c == b':' || c == b'-'

-- Two spellings of one address: letters may differ in case, and separators are `:` or `-`.
unfoldable pub same_address : Text → Text → Bool
same_address [] [] = true
same_address [] (d ∷ t) = false
same_address (c ∷ s) [] = false
same_address (c ∷ s) (d ∷ t) =
    (lower_char c == lower_char d || (is_separator c && is_separator d)) && same_address s t

abbrev colon_char : ℕ → ℕ
colon_char c = if c == b'-' then b':' else c

colon_char-alike :
    (c d : ℕ)
    → (lower_char c == lower_char d || (is_separator c && is_separator d)) ≡ true
    → colon_char (upper_char c) ≡ colon_char (upper_char d)
unfolding lower_char upper_char
colon_char-alike c d h = ground (arith, h)

colon_mac-same : (s t : Text) → same_address s t ≡ true → colon_mac (upper s) ≡ colon_mac (upper t)
unfolding same_address colon_mac
colon_mac-same [] [] h = refl
colon_mac-same [] (d ∷ t) h = absurd (ground (arith, h))
colon_mac-same (c ∷ s) [] h = absurd (ground (arith, h))
colon_mac-same (c ∷ s) (d ∷ t) h =
    rw (colon_char-alike c d (ground (arith, h)), colon_mac-same s t (ground (arith, h))) refl

-- `c.get("online", True)` holds.
abbrev pub IsOnline : Object → Type 0
IsOnline c =
    (get (codes "online") c ≡ none)
    ⊎ ((v : Value) × (get (codes "online") c ≡ some v) × (truthy v ≡ true))

IsOnline-is_online_client : (c : Object) → IsOnline c → is_online_client c ≡ true
IsOnline-is_online_client c (inl h) = rw (h, is_online_client) refl
IsOnline-is_online_client c (inr (v, h, k)) = rw (h, is_online_client) k

any-middle :
    {A : Type 0} (p : A → Bool) (xs : List A) (x : A) (ys : List A)
    → p x ≡ true
    → any p (xs ++ x ∷ ys) ≡ true
unfolding any
any-middle p [] x ys h = rw h refl
any-middle p (y ∷ xs) x ys h = ground (arith, any-middle p xs x ys h)

All-middle :
    {A : Type 0} (P : A → Type 0) (xs : List A) (x : A) (ys : List A) → All P (xs ++ x ∷ ys) → P x
All-middle P [] x ys h = h.0
All-middle P (y ∷ xs) x ys h = All-middle P xs x ys h.1

listed :
    (xs : Dict (List Object)) (mac : Text) (cs : List Object) (ys : Dict (List Object)) (a : Text)
    → any is_online_client cs ≡ true
    → same_address mac a ≡ true
    → any (text_eq (colon_mac (upper a))) (nodes_with_clients (xs ++ (mac, cs) ∷ ys)) ≡ true
unfolding nodes_with_clients any
listed [] mac cs ys a h k = rw (h, colon_mac-same mac a k, text_eq_refl (colon_mac (upper a))) refl
listed ((m, ds) ∷ xs) mac cs ys a h k = elim (Bool-cases (any is_online_client ds)) [
  | inl e ↦ rw e (ground (arith, listed xs mac cs ys a h k))
  | inr e ↦ rw e (listed xs mac cs ys a h k)
]

module _ (f : Formats) (t : Topology) (before : List Node) (n : Node) (after : List Node) where
  -- The nodes come of a topology without an exception, the client c is listed under the address mac,
  -- with "online" absent or true, and the node's own address is another spelling of it, in letters of
  -- either case and with colons or dashes: then the node is not offline.
  pub nodes_of_shown :
      (xs : Dict (List Object)) (mac : Text) (us : List Object) (c : Object) (vs : List Object)
      → (ys : Dict (List Object)) (a : Text) → nodes_of f t ≡ ok (before ++ n ∷ after)
      → t.node_clients ≡ xs ++ (mac, us ++ c ∷ vs) ∷ ys
      → IsOnline c
      → or_default
          (get_or_blank (codes "deviceMac") n.raw_data)
          (get_or_blank (codes "mac") n.raw_data)
        ≡ text a
      → same_address mac a ≡ true
      → is_offline_node n ≡ false
  unfolding IsShown node_mac as_text
  nodes_of_shown xs mac us c vs ys a made clients is_online own same =
      All-middle (IsShown (nodes_with_clients t.node_clients)) before n after
        (nodes_of-IsShown f t (before ++ n ∷ after) made) (colon_mac (upper a)) (rw own refl)
        (rw clients (
          listed xs mac (us ++ c ∷ vs) ys a
            (any-middle is_online_client us c vs (IsOnline-is_online_client c is_online)) same))
