-- ===== src/Education.antt =====
-- The education catalogue of app/services/education_catalog_service.py: which trainings it
-- holds and which are mandatory. Dates are year, month and day; the clock reading kept in
-- `created_at` is a number. The children add expiry and reissue.
use ctrlf_ai.Prelude.{
  ℕ, String, ◌≡◌, Bool, true, false, ◌&&◌, ◌||◌, Option, none, some, List, [], ◌∷◌, any, ◌=ˢ◌, leb,
  if◌then◌else◌,
}
use ctrlf_ai.Prelude.Dict.{Dict, lookup, insert}
use text.Mathlib.Text.{starts_with}
pub mod Mandatory
pub mod Expiry
pub mod Reissue
pub mod Copies

pub record Date : Type 0 where
  pub year : ℕ
  pub month : ℕ
  pub day : ℕ

pub record EducationMeta : Type 0 where
  pub education_id : String
  pub year : ℕ
  pub due_date : Date
  pub is_mandatory_4type : Bool
  pub title : Option String
  pub video_asset_id : Option String
  pub script_text : Option String
  pub subtitle_text : Option String
  pub video_ids : List String
  pub created_at : ℕ

pub record Catalog : Type 0 where
  pub mandatory_4type_ids : List String
  pub catalog : Dict EducationMeta

abbrev pub init : Catalog
init = record { mandatory_4type_ids = []; catalog = [] }

abbrev pub mandatory_4type_prefixes : List String
mandatory_4type_prefixes =
    "EDU-4TYPE-" ∷ "4EDU-" ∷ "MANDATORY-" ∷ "EDU-SEC-" ∷ "EDU-SAF-" ∷ "EDU-HAR-" ∷ "EDU-DIS-" ∷ []

unfoldable pub contains : String → List String → Bool
contains x xs = any (λ y. y =ˢ x) xs

-- `set.add` and `set.discard`
unfoldable pub add : String → List String → List String
unfolding contains
add x xs = if contains x xs then xs else x ∷ xs

unfoldable pub discard : String → List String → List String
discard x [] = []
discard x (y ∷ ys) = let rest = discard x ys in if y =ˢ x then rest else y ∷ rest

-- The loop over the prefixes.
unfoldable pub has_prefix : String → List String → Bool
has_prefix s [] = false
has_prefix s (p ∷ ps) = if starts_with s p then true else has_prefix s ps

unfoldable pub is_mandatory_4type : Catalog → String → Bool
unfolding contains
is_mandatory_4type c id = elim (lookup id c.catalog) [
  | some meta ↦ meta.is_mandatory_4type
  | none ↦
      if contains id c.mandatory_4type_ids then true else has_prefix id mandatory_4type_prefixes
]

unfoldable pub register_mandatory_4type : String → Catalog → Catalog
unfolding add
register_mandatory_4type id c = record c { mandatory_4type_ids = add id c.mandatory_4type_ids }

unfoldable pub unregister_mandatory_4type : String → Catalog → Catalog
unfolding discard
unregister_mandatory_4type id c = record c {
  mandatory_4type_ids = discard id c.mandatory_4type_ids;
}

unfoldable pub or_year : Option ℕ → ℕ → ℕ
or_year (some y) now = y
or_year none now = now

-- Where `date(year, 12, 31)` raises there is none.
unfoldable pub or_year_end : Option Date → ℕ → Option Date
or_year_end (some d) year = some d
or_year_end none year =
    if leb 1 year && leb year 9_999
    then some (record { year = year; month = 12; day = 31 })
    else none

or_empty : Option (List String) → List String
or_empty (some ids) = ids
or_empty none = []

-- The optional arguments of `register_education`.
pub record Registration : Type 0 where
  pub year : Option ℕ
  pub due_date : Option Date
  pub title : Option String
  pub is_mandatory_4type : Bool
  pub video_asset_id : Option String
  pub script_text : Option String
  pub subtitle_text : Option String
  pub video_ids : Option (List String)

-- `this_year` and `now` are the two readings of the clock.
meta_of : ℕ → ℕ → String → Registration → Date → EducationMeta
unfolding or_year or_empty
meta_of this_year now id r due_date = record {
  education_id = id;
  year = or_year r.year this_year;
  due_date = due_date;
  is_mandatory_4type = r.is_mandatory_4type;
  title = r.title;
  video_asset_id = r.video_asset_id;
  script_text = r.script_text;
  subtitle_text = r.subtitle_text;
  video_ids = or_empty r.video_ids;
  created_at = now;
}

-- `register_education` from the due date on
unfoldable pub register_due :
    ℕ → ℕ → String → Registration → Catalog → Date → Catalog × EducationMeta
unfolding meta_of add
register_due this_year now id r c due_date = (
  record {
    mandatory_4type_ids =
        if r.is_mandatory_4type then add id c.mandatory_4type_ids else c.mandatory_4type_ids;
    catalog = insert id (meta_of this_year now id r due_date) c.catalog;
  },
  meta_of this_year now id r due_date,
)

-- None where it raises a ValueError, before anything is stored.
unfoldable pub register_education :
    ℕ → ℕ → String → Registration → Catalog → Option (Catalog × EducationMeta)
unfolding register_due or_year or_year_end
register_education this_year now id r c = elim (or_year_end r.due_date (or_year r.year this_year)) [
  | none ↦ none
  | some due_date ↦ some (register_due this_year now id r c due_date)
]
