-- ===== src/Http/Url.antt =====
-- Which URL `cl_proxy_handler` builds.
use vixy.Prelude.{
  ℕ, ◌≡◌, refl, ◌⊎◌, inl, inr, ◌||◌, [], ◌∷◌, ◌++◌, Option, none, some, Text, bytes, text_eq,
  is_empty, starts_with, starts_with_iff, strip_prefix, strip_prefix-append, trim_end_matches,
  if◌then◌else◌, arith, Bool-cases,
}
use vixy.Http.{stripped_path, cl_path, query_text, join_url, full_url}

trim_end_matches-append :
    (c : ℕ) (s : Text) → trim_end_matches c (s ++ c ∷ []) ≡ trim_end_matches c s
unfolding trim_end_matches
trim_end_matches-append c [] = ground arith
trim_end_matches-append c (a ∷ s) = ground (arith, trim_end_matches-append c s)

-- A slash at the end of the configured URL makes no difference.
full_url-trailing_slash :
    (base path : Text) (query : Option Text)
    → full_url (base ++ bytes "/") path query ≡ full_url base path query
unfolding full_url
full_url-trailing_slash base path query = rw (trim_end_matches-append b'/' base)

stripped_path-cl : (rest : Text) → stripped_path (bytes "/cl/" ++ rest) ≡ rest
unfolding stripped_path
stripped_path-cl rest = rw (strip_prefix-append (bytes "/cl/") rest)

-- Below `/cl/` the node is asked for the rest of the path: for its root if there is none or only
-- a slash, and with one slash between, which is added only where the rest does not begin with one.
-- The query goes along unchanged.
pub full_url-cl :
    (base rest : Text) (query : Option Text)
    → let root = trim_end_matches b'/' base in
      full_url base (bytes "/cl/" ++ rest) query ≡ (
        if is_empty rest || text_eq rest (bytes "/")
        then root ++ query_text query
        else if starts_with (bytes "/") rest
        then root ++ (rest ++ query_text query)
        else root ++ (bytes "/" ++ (rest ++ query_text query)))
unfolding full_url join_url cl_path
full_url-cl base rest query = ground (arith, stripped_path-cl rest)

pub full_url-bare :
    (base : Text) (query : Option Text)
    → full_url base (bytes "/cl") query ≡ trim_end_matches b'/' base ++ query_text query
unfolding full_url join_url cl_path stripped_path strip_prefix
full_url-bare base query = refl

-- `tail` cannot continue the host name of a URL in front of it.
abbrev pub IsDelimited : Text → Type 0
IsDelimited tail = (tail ≡ []) ⊎ ((t : Text) × ((tail ≡ bytes "/" ++ t) ⊎ (tail ≡ bytes "?" ++ t)))

query_text-IsDelimited : (query : Option Text) → IsDelimited (query_text query)
query_text-IsDelimited none = inl refl
query_text-IsDelimited (some q) = inr (q, inr refl)

-- What stands behind the node's URL.
url_tail : Text → Option Text → Text
url_tail p query =
    if is_empty p
    then query_text query
    else if starts_with (bytes "/") p
    then p ++ query_text query
    else bytes "/" ++ (p ++ query_text query)

join_url-url_tail :
    (root p : Text) (query : Option Text) → join_url root p query ≡ root ++ url_tail p query
unfolding join_url url_tail
join_url-url_tail root p query = ground arith

url_tail-IsDelimited : (p : Text) (query : Option Text) → IsDelimited (url_tail p query)
unfolding url_tail
url_tail-IsDelimited p query = elim (Bool-cases (is_empty p)) [
  | inl bare ↦ rw (bare, url_tail) (query_text-IsDelimited query)
  | inr more ↦ elim (Bool-cases (starts_with (bytes "/") p)) [
    | inl slash ↦
        let (r, e) = (starts_with_iff (bytes "/") p).0 slash in
        inr (r ++ query_text query, inl (ground (arith, e)))
    | inr other ↦ inr (p ++ query_text query, inl (ground arith))
  ]
]

-- Whatever the request's path and query, the URL is the node's URL without its trailing slashes,
-- with a text behind it that is empty or begins with a slash or a question mark.
pub full_url-IsDelimited :
    (base path : Text) (query : Option Text)
    → (tail : Text) × (full_url base path query ≡ trim_end_matches b'/' base ++ tail)
      × IsDelimited tail
unfolding full_url
full_url-IsDelimited base path query = (
  url_tail (cl_path path) query,
  join_url-url_tail (trim_end_matches b'/' base) (cl_path path) query,
  url_tail-IsDelimited (cl_path path) query,
)
