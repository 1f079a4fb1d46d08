-- ===== src/Education/Reissue.antt =====
-- app/services/education_catalog_service.py: `reissue`. Python's `str` of an int is an argument.
use Prim.Native.String.{◌++◌}
use text.Mathlib.Text.{starts_with}
use ctrlf_ai.Prelude.{ℕ, String, Bool, true, none, some, ◌==◌, not, if◌then◌else◌}
use ctrlf_ai.Prelude.Dict.{lookup, insert}
use ctrlf_ai.Education.{Date, EducationMeta, Catalog, add}
use ctrlf_ai.Education.Expiry.{exists}

-- `pattern in s`
unfoldable pub occurs : String → String → Bool
occurs pattern String.[] = starts_with "" pattern
occurs pattern (String.◌∷◌ c s) =
    if starts_with (String.◌∷◌ c s) pattern then true else occurs pattern s

-- The text after the pattern with which it starts.
unfoldable pub after_pattern : String → String → String
after_pattern String.[] s = s
after_pattern (String.◌∷◌ d pattern) String.[] = ""
after_pattern (String.◌∷◌ d pattern) (String.◌∷◌ c s) = after_pattern pattern s

-- `s.replace(pattern, by, 1)`
unfoldable pub replace_first : String → String → String → String
unfolding after_pattern
replace_first pattern by String.[] = if starts_with "" pattern then by else ""
replace_first pattern by (String.◌∷◌ c s) =
    let rest = replace_first pattern by s in
    if starts_with (String.◌∷◌ c s) pattern
    then by ++ after_pattern pattern (String.◌∷◌ c s)
    else String.◌∷◌ c rest

pub data ReissueError : Type 0 where
  source_not_found target_exists due_date_out_of_year : ReissueError

pub data Reissued : Type 0 where
  refused : ReissueError → Reissued
  reissued : EducationMeta → Reissued

unfoldable pub copy_of : ℕ → String → ℕ → Date → EducationMeta → EducationMeta
copy_of now id target_year new_due_date source = record source {
  education_id = id;
  year = target_year;
  due_date = new_due_date;
  created_at = now;
}

module _ (str : ℕ → String) where
  unfoldable pub generate_reissued_id : String → ℕ → ℕ → String
  unfolding occurs replace_first
  generate_reissued_id source_id source_year target_year =
      if occurs (str source_year) source_id
      then replace_first (str source_year) (str target_year) source_id
      else source_id ++ "-" ++ str target_year

  -- The steps after the source was found.
  unfoldable pub reissue_as : ℕ → String → ℕ → Date → EducationMeta → Catalog → Catalog × Reissued
  unfolding copy_of exists add
  reissue_as now new_id target_year new_due_date source c =
      let meta = copy_of now new_id target_year new_due_date source in
      if exists new_id c
      then (c, refused target_exists)
      else if not (new_due_date.year == target_year)
      then (c, refused due_date_out_of_year)
      else (
        record {
          mandatory_4type_ids =
              if meta.is_mandatory_4type
              then add new_id c.mandatory_4type_ids
              else c.mandatory_4type_ids;
          catalog = insert new_id meta c.catalog;
        },
        reissued meta,
      )

  unfoldable pub reissue : ℕ → String → ℕ → Date → Catalog → Catalog × Reissued
  unfolding reissue_as generate_reissued_id
  reissue now source_id target_year new_due_date c = elim (lookup source_id c.catalog) [
    | none ↦ (c, refused source_not_found)
    | some source ↦
        reissue_as now (generate_reissued_id source_id source.year target_year) target_year
          new_due_date source c
  ]
