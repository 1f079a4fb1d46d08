-- ===== src/Tests/SmallRuns.antt =====
-- The catalogue, the search in texts, and the translation of routes.
use ctrlf_ai.Prelude.{
  ℕ, ◌==◌, String, true, false, some, none, [], ◌∷◌, ◌≡◌, ◌↔◌, refl, if◌then◌else◌,
}
use ctrlf_ai.Prelude.Dict.{lookup, insert}
use ctrlf_ai.Education.{
  init, Date, EducationMeta, Catalog, Registration, register_education, or_year, or_year_end,
}
use ctrlf_ai.Education.Mandatory.{IsRegistered, is_mandatory_4type-register_education}
use ctrlf_ai.Education.Expiry.{exists}
use ctrlf_ai.Education.Reissue.{
  generate_reissued_id, reissue, reissue_as, occurs, replace_first, after_pattern, Reissued,
  reissued,
}
use ctrlf_ai.Education.Copies.{lookup-reissue}
use ctrlf_ai.Text.{codes, contains}
use ctrlf_ai.Text.Laws.{Occurs, contains_iff}

abbrev voluntary : Registration
voluntary = record {
  year = some 2025;
  due_date = none;
  title = none;
  is_mandatory_4type = false;
  video_asset_id = none;
  script_text = none;
  subtitle_text = none;
  video_ids = none;
}

is_mandatory_4type-register_education_example :
    IsRegistered 2025 "EDU-SEC-1" voluntary init
      (register_education 2025 0 "EDU-SEC-1" voluntary init)
is_mandatory_4type-register_education_example =
    is_mandatory_4type-register_education 2025 0 "EDU-SEC-1" voluntary init

-- The year 10000 has no last day.
no_such_date :
    register_education 2025 0 "EDU-SEC-1" (record voluntary { year = some 10_000 }) init ≡ none
unfolding register_education or_year or_year_end
no_such_date = refl

contains_iff_example :
    (contains (codes "연차") (codes "내 연차 조회") ≡ true) ↔ Occurs (codes "연차") (codes "내 연차 조회")
contains_iff_example = contains_iff (codes "연차") (codes "내 연차 조회")

-- `str` on the two years that the runs use.
abbrev str : ℕ → String
str n = if n == 2025 then "2025" else "2026"

abbrev due_2025 : Date
due_2025 = record { year = 2025; month = 12; day = 31 }

abbrev due_2026 : Date
due_2026 = record { year = 2026; month = 6; day = 30 }

abbrev training : EducationMeta
training = record {
  education_id = "EDU-SEC-2025-001";
  year = 2025;
  due_date = due_2025;
  is_mandatory_4type = true;
  title = some "정보보호";
  video_asset_id = none;
  script_text = none;
  subtitle_text = none;
  video_ids = [];
  created_at = 0;
}

abbrev copy : EducationMeta
copy = record training {
  education_id = "EDU-SEC-2026-001";
  year = 2026;
  due_date = due_2026;
  created_at = 9;
}

abbrev listed : Catalog
listed = record { mandatory_4type_ids = []; catalog = ("EDU-SEC-2025-001", training) ∷ [] }

abbrev reissue_training : Date → Catalog × Reissued
reissue_training due = reissue str 9 "EDU-SEC-2025-001" 2026 due listed

reissues : (reissue_training due_2026).1 ≡ reissued copy
unfolding reissue reissue_as generate_reissued_id occurs replace_first after_pattern exists lookup
    insert
reissues = refl

found : lookup "EDU-SEC-2025-001" listed.catalog ≡ some training
unfolding lookup
found = refl

lookup-reissue_example :
    (lookup "EDU-SEC-2026-001" listed.catalog ≡ none)
    × (lookup "EDU-SEC-2026-001" (reissue_training due_2026).0.catalog ≡ some copy)
    × (copy ≡ record training {
      education_id = generate_reissued_id str "EDU-SEC-2025-001" 2025 2026;
      year = 2026;
      due_date = due_2026;
      created_at = 9;
    })
    × (copy.due_date.year ≡ 2026)
lookup-reissue_example =
    lookup-reissue str 9 "EDU-SEC-2025-001" 2026 due_2026 listed training copy found reissues
