-- ===== src/Education/Expiry.antt =====
-- app/services/education_catalog_service.py: what the catalogue holds and which trainings are over. A
-- moment is the date in Seoul and the microsecond of the day.
use ctrlf_ai.Prelude.{
  ℕ, String, Bool, true, false, Option, none, some, List, [], ◌∷◌, ltb, ◌==◌, if◌then◌else◌,
}
use ctrlf_ai.Prelude.Dict.{Dict, lookup}
use ctrlf_ai.Education.{Date, EducationMeta, Catalog, init}

pub record Moment : Type 0 where
  pub date : Date
  pub microsecond : ℕ

pub data EducationStatus : Type 0 where
  active expired : EducationStatus

-- `a < b` on dates
unfoldable pub is_before : Date → Date → Bool
is_before a b =
    if a.year == b.year
    then (if a.month == b.month then ltb a.day b.day else ltb a.month b.month)
    else ltb a.year b.year

-- `now > expires_at`
unfoldable pub is_after : Moment → Moment → Bool
unfolding is_before
is_after now t =
    if is_before t.date now.date
    then true
    else if is_before now.date t.date
    then false
    else ltb t.microsecond now.microsecond

-- 23:59:59 on the due date
unfoldable pub expires_at : EducationMeta → Moment
expires_at meta = record { date = meta.due_date; microsecond = 86_399_000_000 }

unfoldable pub status : Moment → EducationMeta → EducationStatus
unfolding is_after expires_at
status now meta = if is_after now (expires_at meta) then expired else active

unfoldable pub is_expired : String → Moment → Catalog → Bool
unfolding is_after expires_at
is_expired id now c = elim (lookup id c.catalog) [
  | none ↦ false
  | some meta ↦ is_after now (expires_at meta)
]

unfoldable pub get_status : Moment → String → Catalog → Option EducationStatus
unfolding status
get_status now id c = elim (lookup id c.catalog) [
  | none ↦ none
  | some meta ↦ some (status now meta)
]

abbrev pub get_education : String → Catalog → Option EducationMeta
get_education id c = lookup id c.catalog

unfoldable pub exists : String → Catalog → Bool
exists id c = elim (lookup id c.catalog) [ none ↦ false | some meta ↦ true ]

active_of : Moment → Dict EducationMeta → List EducationMeta
unfolding is_after expires_at
active_of now [] = []
active_of now ((id, meta) ∷ rest) =
    let others = active_of now rest in
    if is_after now (expires_at meta) then others else meta ∷ others

unfoldable pub list_active_educations : Moment → Catalog → List EducationMeta
unfolding active_of
list_active_educations now c = active_of now c.catalog

abbrev pub clear : Catalog → Catalog
clear c = init
