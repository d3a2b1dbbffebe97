-- ===== src/Reviews/Slug/Format.antt =====
-- A derived slug has the format of slugs, or is empty.
use Prim.Native.Char.{Char}
use cloudtalk_tech_task.Base.{
  ℕ, zero, suc, ◌≤◌, String, Bool, true, false, ◌≡◌, refl, arith, ◌&&◌, ◌||◌, not, if◌then◌else◌,
  text_take, text_length, text_length-text_take, Bool-cases, inl, inr,
}
use cloudtalk_tech_task.Reviews.Slug.{
  is_alphanumeric, is_hyphen, collapse, trim_front, is_empty, trim_end, trim_hyphens,
  derive_product_slug, matches_slug, is_slug,
}

-- Letters and digits with single hyphens between them, the last of which may stand at the end.
single_hyphens : Bool → String → Bool
single_hyphens starts String.[] = true
single_hyphens starts (String.◌∷◌ c s) =
    let next = single_hyphens (not (is_alphanumeric c)) s in
    if is_alphanumeric c then next else is_hyphen c && not starts && next

hyphen : (is_alphanumeric "-" ≡ false) × (is_hyphen "-" ≡ true)
unfolding is_alphanumeric is_hyphen
hyphen = (refl, refl)

not_both : (c : Char) → is_hyphen c ≡ true → is_alphanumeric c ≡ false
unfolding is_alphanumeric is_hyphen
not_both c h = ground arith

after_run :
    (in_run : Bool) (s : String)
    → single_hyphens true s ≡ true
    → single_hyphens in_run (if in_run then s else String.◌∷◌ "-" s) ≡ true
unfolding single_hyphens
after_run true s h = h
after_run false s h = rw (hyphen.0, hyphen.1) h

collapse-single_hyphens :
    (in_run : Bool) (s : String) → single_hyphens in_run (collapse in_run s) ≡ true
unfolding collapse single_hyphens
collapse-single_hyphens in_run String.[] = refl
collapse-single_hyphens in_run (String.◌∷◌ c s) = elim (Bool-cases (is_alphanumeric c)) [
  | inl letter ↦ rw letter (rw letter (collapse-single_hyphens false s))
  | inr other ↦ rw other (after_run in_run (collapse true s) (collapse-single_hyphens true s))
]

trim_front-single_hyphens :
    (starts : Bool) (s : String)
    → single_hyphens starts s ≡ true
    → single_hyphens true (trim_front s) ≡ true
unfolding trim_front single_hyphens
trim_front-single_hyphens starts String.[] h = refl
trim_front-single_hyphens starts (String.◌∷◌ c s) h = elim (Bool-cases (is_hyphen c)) [
  | inl e ↦ rw e (trim_front-single_hyphens true s (ground (arith, not_both c)))
  | inr e ↦ rw e (ground arith)
]

take-single_hyphens :
    (n : ℕ) (starts : Bool) (s : String)
    → single_hyphens starts s ≡ true
    → single_hyphens starts (text_take n s) ≡ true
unfolding single_hyphens
take-single_hyphens zero starts s h = refl
take-single_hyphens (suc n) starts String.[] h = refl
take-single_hyphens (suc n) starts (String.◌∷◌ c s) h =
    ground (arith, take-single_hyphens n (not (is_alphanumeric c)) s)

matches_empty : (s : String) → is_empty s ≡ true → matches_slug false s ≡ true
unfolding matches_slug
matches_empty String.[] h = refl
matches_empty (String.◌∷◌ c s) h = cc

trim_end-matches_slug :
    (starts : Bool) (s : String)
    → single_hyphens starts s ≡ true
    → (is_empty (trim_end s) || matches_slug starts (trim_end s)) ≡ true
unfolding trim_end single_hyphens matches_slug
trim_end-matches_slug starts String.[] h = refl
trim_end-matches_slug starts (String.◌∷◌ c s) h = ground (
  arith,
  trim_end-matches_slug (not (is_alphanumeric c)) s,
  matches_empty (trim_end s),
  not_both c,
)

trim_hyphens-matches_slug :
    (starts : Bool) (s : String)
    → single_hyphens starts s ≡ true
    → (is_empty (trim_hyphens s) || is_slug (trim_hyphens s)) ≡ true
unfolding trim_hyphens is_slug
trim_hyphens-matches_slug starts s h =
    trim_end-matches_slug true (trim_front s) (trim_front-single_hyphens starts s h)

trim_end-single_hyphens :
    (starts : Bool) (s : String)
    → single_hyphens starts s ≡ true
    → single_hyphens starts (trim_end s) ≡ true
unfolding trim_end single_hyphens
trim_end-single_hyphens starts String.[] h = refl
trim_end-single_hyphens starts (String.◌∷◌ c s) h =
    elim (Bool-cases (is_hyphen c && is_empty (trim_end s))) [
      | inl gone ↦ rw gone refl
      | inr stays ↦ rw stays (ground (arith, trim_end-single_hyphens (not (is_alphanumeric c)) s))
    ]

text_length-trim_front : (s : String) → text_length (trim_front s) ≤ text_length s
unfolding trim_front
text_length-trim_front String.[] = omega arith
text_length-trim_front (String.◌∷◌ c s) = ground (arith, text_length-trim_front s)

text_length-trim_end : (s : String) → text_length (trim_end s) ≤ text_length s
unfolding trim_end
text_length-trim_end String.[] = omega arith
text_length-trim_end (String.◌∷◌ c s) = ground (arith, text_length-trim_end s)

-- Whatever trimming and lowering do to a name, the slug that is derived from it is empty or has
-- the format of slugs, and has at most 80 characters.
pub derive_product_slug-is_slug :
    (trim lower : String → String) (name : String)
    → ((is_empty (derive_product_slug trim lower name)
          || is_slug (derive_product_slug trim lower name))
        ≡ true)
      × (text_length (derive_product_slug trim lower name) ≤ 80)
unfolding derive_product_slug trim_hyphens
derive_product_slug-is_slug trim lower name =
    let whole = trim_hyphens (collapse false (lower (trim name))) in
    let cut = text_take 80 whole in
    let kept = take-single_hyphens 80 true whole (
      trim_end-single_hyphens true (trim_front (collapse false (lower (trim name)))) (
        trim_front-single_hyphens false (collapse false (lower (trim name)))
          (collapse-single_hyphens false (lower (trim name))))) in
    (
      trim_hyphens-matches_slug true cut kept,
      omega (
        arith,
        text_length-trim_end (trim_front cut),
        text_length-trim_front cut,
        text_length-text_take 80 whole,
      ),
    )
