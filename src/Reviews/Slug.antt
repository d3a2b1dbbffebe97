-- ===== src/Reviews/Slug.antt =====
-- `deriveProductSlug` of packages/reviews/src/products.ts. `trim` and `lower` stand for the methods
-- `trim` and `toLowerCase` of strings.
pub mod Format
use Prim.Native.Char.{Char, code}
use Prim.Native.String
use cloudtalk_tech_task.Base.{
  ℕ, String, Bool, true, false, ◌==◌, leb, ◌&&◌, ◌||◌, not, str_eq, if◌then◌else◌, text_take,
}

unfoldable pub is_alphanumeric : Char → Bool
is_alphanumeric c =
    (leb b'a' (code c) && leb (code c) b'z') || (leb b'0' (code c) && leb (code c) b'9')

unfoldable pub is_hyphen : Char → Bool
is_hyphen c = code c == b'-'

-- `.replace(/[^a-z0-9]+/g, '-')`; `in_run` says that the run's hyphen is there already
unfoldable pub collapse : Bool → String → String
unfolding is_alphanumeric
collapse in_run String.[] = ""
collapse in_run (String.◌∷◌ c s) =
    let next = collapse (not (is_alphanumeric c)) s in
    if is_alphanumeric c then String.◌∷◌ c next else if in_run then next else String.◌∷◌ "-" next

-- `/^-+/`
unfoldable pub trim_front : String → String
unfolding is_hyphen
trim_front String.[] = ""
trim_front (String.◌∷◌ c s) =
    let rest = trim_front s in if is_hyphen c then rest else String.◌∷◌ c s

abbrev pub is_empty : String → Bool
is_empty String.[] = true
is_empty _ = false

-- `/-+$/`
unfoldable pub trim_end : String → String
unfolding is_hyphen
trim_end String.[] = ""
trim_end (String.◌∷◌ c s) =
    if is_hyphen c && is_empty (trim_end s) then "" else String.◌∷◌ c (trim_end s)

-- `.replace(/^-+|-+$/g, '')`
unfoldable pub trim_hyphens : String → String
unfolding trim_front trim_end
trim_hyphens s = trim_end (trim_front s)

abbrev pub max_derived_slug_length : ℕ
max_derived_slug_length = 80

unfoldable pub derive_product_slug : (String → String) → (String → String) → String → String
unfolding collapse trim_hyphens
derive_product_slug trim lower name =
    trim_hyphens
      (text_take max_derived_slug_length (trim_hyphens (collapse false (lower (trim name)))))

-- `^[a-z0-9]+(-[a-z0-9]+)*$`; `starts` says that a letter or digit has to come next
unfoldable pub matches_slug : Bool → String → Bool
unfolding is_alphanumeric is_hyphen
matches_slug starts String.[] = not starts
matches_slug starts (String.◌∷◌ c s) =
    let next = matches_slug (not (is_alphanumeric c)) s in
    if is_alphanumeric c then next else is_hyphen c && not starts && next

unfoldable pub is_slug : String → Bool
unfolding matches_slug
is_slug s = matches_slug true s
