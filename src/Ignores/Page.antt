-- ===== src/Ignores/Page.antt =====
-- `pageCandidates` of live-browser-ignores.js: the paths that a page may be known by.
use ar_automation_agent.Prelude.{
  not, ◌&&◌, ◌||◌, Option, none, some, List, [], ◌∷◌, ◌++◌, map, keep, some_of, ◌==◌, if◌then◌else◌,
}
use ar_automation_agent.Prelude.Text.{Text, codes, text_eq, is_set, ends_with, split, join}

-- `decodeURIComponent` is the language's, none where it throws.
abbrev pub decoded : (Text → Option Text) → Text → Text
decoded decode s = elim (decode s) [ none ↦ s | some t ↦ t ]

-- `replace(/^\/+/, '')`
abbrev pub after_slashes : Text → Text
after_slashes [] = []
after_slashes (c ∷ cs) = if c == 47 then after_slashes cs else c ∷ cs

unfoldable pub page_path : (Text → Option Text) → Text → Text
page_path decode pathname =
    let p = after_slashes (decoded decode pathname) in
    if not (is_set p) || ends_with (47 ∷ []) p then p ++ codes "index.html" else p

-- `path.split('/').filter(Boolean)`
unfoldable pub segments : Text → List Text
segments s = keep is_set (split 47 s)

abbrev pub tails : List Text → List (List Text)
tails [] = []
tails (w ∷ ws) = (w ∷ ws) ∷ tails ws

-- `addSuffixes`, of the paths that are not there yet, in the order of the set.
abbrev pub add_new : Text → List Text → List Text
add_new t set = if some_of (text_eq t) set then set else set ++ t ∷ []

abbrev pub add_all : List Text → List Text → List Text
add_all [] set = set
add_all (t ∷ ts) set = add_all ts (add_new t set)

unfoldable pub suffixes : Text → List Text
suffixes full = map (join 47) (tails (segments full))

-- The items of an array in a configuration: none is an item that is not a string.
abbrev pub strings : List (Option Text) → List Text
strings [] = []
strings (none ∷ es) = strings es
strings (some s ∷ es) = s ∷ strings es

-- none is a value that is no array.
abbrev pub as_array : Option (List (Option Text)) → List (Option Text)
as_array none = []
as_array (some es) = es

unfoldable pub known_pages : Text → Option (List (Option Text)) → List Text
known_pages path pages =
    keep (λ e. is_set e && (text_eq e path || ends_with (47 ∷ path) e)) (strings (as_array pages))

abbrev pub common_prefix : List Text → List Text → List Text
common_prefix [] ys = []
common_prefix (a ∷ xs) [] = []
common_prefix (a ∷ xs) (b ∷ ys) = if text_eq a b then a ∷ common_prefix xs ys else []

abbrev pub common_of : List Text → List (List Text) → List Text
common_of c [] = c
common_of c (p ∷ ps) = common_of (common_prefix c p) ps

unfoldable pub common_root : List (List Text) → List Text
common_root [] = []
common_root (p ∷ ps) = common_of p ps

abbrev pub rooted : List Text → Text → List Text
rooted [] path = []
rooted (w ∷ ws) path = suffixes (join 47 (w ∷ ws) ++ 47 ∷ path)

-- The paths besides those of the URL: those of the one known page, or those under the common root.
abbrev pub identity : List Text → List (List Text) → Text → List Text
identity (k ∷ []) prefixes path = suffixes k
identity _ prefixes path = rooted (common_root prefixes) path

unfoldable pub page_candidates :
    (Text → Option Text)
    → Text
    → Option (List (Option Text))
    → Option (List (Option Text))
    → List Text
page_candidates decode pathname roots pages =
    let path = page_path decode pathname in
    add_all (identity (known_pages path pages) (map segments (strings (as_array roots))) path)
      (add_all (suffixes path) [])
