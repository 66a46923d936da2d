-- ===== src/Auth.antt =====
-- backend/middleware/auth.py: `APIKeyAuthMiddleware.dispatch`. `hmac.compare_digest` compares texts
-- of ASCII characters and raises for others.
use homesentinel.Prelude.{
  ◌≡◌, refl, Text, text_eq, text_eq_iff, is_empty, starts_with, Bool, true, false, not, ◌&&◌, ◌||◌,
  ltb, Option, none, some, [], ◌∷◌, any, if◌then◌else◌, Outcome, ok, raised, type_error, codes,
  arith, ◌↔◌, ◌⊎◌,
}

-- The request goes on to the application, or is answered with status 401.
pub data Answer : Type 0 where
  forwarded unauthorized : Answer

unfoldable pub is_ascii : Text → Bool
is_ascii s = not (any (λ c. not (ltb c 128)) s)

unfoldable pub compare_digest : Text → Text → Outcome Bool
unfolding is_ascii
compare_digest a b = if is_ascii a && is_ascii b then ok (text_eq a b) else raised type_error

-- `request.headers.get("X-API-Key", "")`
abbrev pub header_or_empty : Option Text → Text
header_or_empty none = []
header_or_empty (some s) = s

abbrev pub answer : Outcome Bool → Outcome Answer
answer (ok true) = ok forwarded
answer (ok false) = ok unauthorized
answer (raised e) = raised e

-- `dispatch`, of the configured key, the path and the header
unfoldable pub dispatch : Text → Text → Option Text → Outcome Answer
unfolding compare_digest
dispatch key path header =
    if is_empty key
    then ok forwarded
    else if not (starts_with path (codes "/api/"))
    then ok forwarded
    else if text_eq path (codes "/api/health")
    then ok forwarded
    else if starts_with path (codes "/oauth/") || starts_with path (codes "/static/")
    then ok forwarded
    else if is_empty (header_or_empty header)
    then ok unauthorized
    else answer (compare_digest (header_or_empty header) key)

-- No key is configured, or the path is not of the API, or it is that of the health check.
unfoldable pub IsPublic : Text → Text → Type 0
IsPublic key path =
    (is_empty key ≡ true)
    ⊎ ((starts_with path (codes "/api/") ≡ false) ⊎ (path ≡ codes "/api/health"))

not_oauth :
    (path : Text)
    → starts_with path (codes "/api/") ≡ true
    → (starts_with path (codes "/oauth/") || starts_with path (codes "/static/")) ≡ false
unfolding starts_with
not_oauth [] h = refl
not_oauth (c ∷ []) h = ground (arith, h)
not_oauth (c ∷ d ∷ path) h = ground (arith, h)

-- `dispatch` without the branch that no path takes
unfoldable goes_on : Bool → Bool → Bool → Bool → Bool → Bool → Bool
goes_on no_key api health no_header ascii same =
    no_key || (not api || (health || (not no_header && (ascii && same))))

dispatch-goes_on :
    (key path : Text) (header : Option Text)
    → (dispatch key path header ≡ ok forwarded) ↔ (
        goes_on
          (is_empty key)
          (starts_with path (codes "/api/"))
          (text_eq path (codes "/api/health"))
          (is_empty (header_or_empty header))
          (is_ascii (header_or_empty header) && is_ascii key)
          (text_eq (header_or_empty header) key)
        ≡ true)
unfolding dispatch compare_digest goes_on
dispatch-goes_on key path header = ground (arith, not_oauth path)

goes_on_iff :
    (key path given : Text)
    → (goes_on
          (is_empty key)
          (starts_with path (codes "/api/"))
          (text_eq path (codes "/api/health"))
          (is_empty given)
          (is_ascii given && is_ascii key)
          (text_eq given key)
        ≡ true)
      ↔ (IsPublic key path ⊎ ((given ≡ key) × (is_ascii key ≡ true)))
unfolding goes_on IsPublic
goes_on_iff key path given =
    ground (arith, text_eq_iff path (codes "/api/health"), text_eq_iff given key)

-- A request goes on exactly when it is public or carries the configured key, of ASCII characters.
pub dispatch_iff :
    (key path : Text) (header : Option Text)
    → (dispatch key path header ≡ ok forwarded)
      ↔ (IsPublic key path ⊎ ((header_or_empty header ≡ key) × (is_ascii key ≡ true)))
dispatch_iff key path header =
    let (there, back) = dispatch-goes_on key path header in
    let (there', back') = goes_on_iff key path (header_or_empty header) in
    (λ h. there' (there h), λ h. back (back' h))
