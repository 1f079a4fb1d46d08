-- ===== src/Education/Copies.antt =====
-- app/services/education_catalog_service.py: what a reissued training is, and what it leaves alone.
use ctrlf_ai.Prelude.{
  ℕ, ◌<◌, String, Bool, true, false, none, some, ◌≡◌, refl, sym, ◌∙◌, ap, subst, arith, ◌==◌, ◌=ˢ◌,
  eq_refl, eq_iff, not, if◌then◌else◌, Bool-cases, inl, inr,
}
use ctrlf_ai.Prelude.Dict.{lookup, insert, lookup-insert}
use ctrlf_ai.Education.{Date, EducationMeta, Catalog, add, is_mandatory_4type}
use ctrlf_ai.Education.Mandatory.{contains-add}
use ctrlf_ai.Education.Expiry.{Moment, exists, is_expired, is_after, is_before, expires_at}
use ctrlf_ai.Education.Reissue.{
  generate_reissued_id, reissue_as, reissue, copy_of, ReissueError, target_exists,
  due_date_out_of_year, Reissued, refused, reissued,
}

-- The catalogue with a copy under the new id.
abbrev with_copy : String → EducationMeta → Catalog → Catalog
with_copy id meta c = record {
  mandatory_4type_ids =
      if meta.is_mandatory_4type then add id c.mandatory_4type_ids else c.mandatory_4type_ids;
  catalog = insert id meta c.catalog;
}

-- The two checks of `reissue`, and what they come to where they pass.
abbrev checked :
    Bool → Bool → Catalog × Reissued → Catalog × Reissued → Catalog × Reissued → Catalog × Reissued
checked present in_year a b done = if present then a else if not in_year then b else done

settle :
    (present in_year : Bool) (e f : ReissueError) (m meta : EducationMeta) (c c' : Catalog)
    → (checked present in_year (c, refused e) (c, refused f) (c', reissued meta)).1 ≡ reissued m
    → (present ≡ false)
      × (in_year ≡ true)
      × (m ≡ meta)
      × ((checked present in_year (c, refused e) (c, refused f) (c', reissued meta)).0 ≡ c')
settle true in_year e f m meta c c' h = cc
settle false false e f m meta c c' h = cc
settle false true e f m meta c c' h = (refl, refl, cc, refl)

exists_none : (id : String) (c : Catalog) → exists id c ≡ false → lookup id c.catalog ≡ none
unfolding exists
exists_none id c h = ground arith

-- What a successful reissue of `source` comes to.
record IsCopy (c c' : Catalog) (now : ℕ) (id : String) (year : ℕ) (due : Date)
    (source m : EducationMeta) : Type 0 where
  pub copy : m ≡ copy_of now id year due source
  pub fresh : lookup id c.catalog ≡ none
  pub in_year : (due.year == year) ≡ true
  pub after : c' ≡ with_copy id (copy_of now id year due source) c

reissue_as-IsCopy :
    (now : ℕ) (id : String) (year : ℕ) (due : Date) (source : EducationMeta) (c : Catalog)
    (str : ℕ → String) (m : EducationMeta)
    → (reissue_as str now id year due source c).1 ≡ reissued m
    → IsCopy c (reissue_as str now id year due source c).0 now id year due source m
unfolding reissue_as
reissue_as-IsCopy now id year due source c str m h =
    let meta = copy_of now id year due source in
    let (absent, same, copy, after) =
      settle (exists id c) (due.year == year) target_exists due_date_out_of_year m meta c
        (with_copy id meta c) h in
    record { copy = copy; fresh = exists_none id c absent; in_year = same; after = after }

reissue_found :
    (str : ℕ → String) (now : ℕ) (source_id : String) (year : ℕ) (due : Date) (c : Catalog)
    (source : EducationMeta)
    → lookup source_id c.catalog ≡ some source
    → reissue str now source_id year due c
      ≡ reissue_as str now (generate_reissued_id str source_id source.year year) year due source c
unfolding reissue
reissue_found str now source_id year due c source found = rw (reissue, found) refl

reissue_as_present :
    (str : ℕ → String) (now : ℕ) (id : String) (year : ℕ) (due : Date) (source : EducationMeta)
    (c : Catalog)
    → exists id c ≡ true
    → (reissue_as str now id year due source c).1 ≡ refused target_exists
unfolding reissue_as
reissue_as_present str now id year due source c there = rw (reissue_as, there) refl

-- The copy is found under its id, and the source under its own.
with_copy-exists :
    (id : String) (meta : EducationMeta) (c : Catalog) → exists id (with_copy id meta c) ≡ true
unfolding exists
with_copy-exists id meta c = rw (exists, lookup-insert, eq_refl) refl

lookup-with_copy :
    (id source_id : String) (meta source : EducationMeta) (c : Catalog)
    → lookup id c.catalog ≡ none
    → lookup source_id c.catalog ≡ some source
    → lookup source_id (with_copy id meta c).catalog ≡ some source
lookup-with_copy id source_id meta source c fresh found = elim (Bool-cases (id =ˢ source_id)) [
  | inl same ↦
      let here : id ≡ source_id = (eq_iff id source_id).0 same in
      let clash : none ≡ some source = sym fresh ∙ ap (λ x. lookup x c.catalog) here ∙ found in cc
  | inr other ↦ rw (lookup-insert, other) found
]

module _ (str : ℕ → String) (now : ℕ) (source_id : String) (year : ℕ) (due : Date)
    (c : Catalog) where
  -- A reissue that is refused leaves the catalogue as it was.
  pub reissue_refused :
      (e : ReissueError)
      → (reissue str now source_id year due c).1 ≡ refused e
      → (reissue str now source_id year due c).0 ≡ c
  unfolding reissue reissue_as
  reissue_refused e h = ground arith

  reissue-IsCopy :
      (source m : EducationMeta)
      → lookup source_id c.catalog ≡ some source
      → (reissue str now source_id year due c).1 ≡ reissued m
      → IsCopy c
          (reissue str now source_id year due c).0
          now
          (generate_reissued_id str source_id source.year year)
          year
          due
          source
          m
  reissue-IsCopy source m found h =
      let id = generate_reissued_id str source_id source.year year in
      let run = reissue_found str now source_id year due c source found in
      subst (λ x. IsCopy c x.0 now id year due source m) (sym run)
        (reissue_as-IsCopy now id year due source c str m (sym (ap (λ x. x.1) run) ∙ h))

  -- After a reissue that succeeds the new training is mandatory just when its source is flagged so, and
  -- every other training is judged as before.
  pub is_mandatory_4type-reissue :
      (source m : EducationMeta) (j : String)
      → lookup source_id c.catalog ≡ some source
      → (reissue str now source_id year due c).1 ≡ reissued m
      → is_mandatory_4type (reissue str now source_id year due c).0 j
        ≡ (if m.education_id =ˢ j then source.is_mandatory_4type else is_mandatory_4type c j)
  unfolding is_mandatory_4type copy_of
  is_mandatory_4type-reissue source m j found h =
      let id = generate_reissued_id str source_id source.year year in
      let done = reissue-IsCopy source m found h in
      rw (done.after, done.copy)
        (ground (
          arith,
          lookup-insert id j (copy_of now id year due source) c.catalog,
          contains-add id j c.mandatory_4type_ids,
        ))

  -- After a reissue that succeeds the catalogue holds the copy under its own id, where it held
  -- nothing: the source with the new id, year and due date, which lies in that year.
  pub lookup-reissue :
      (source m : EducationMeta)
      → lookup source_id c.catalog ≡ some source
      → (reissue str now source_id year due c).1 ≡ reissued m
      → (lookup m.education_id c.catalog ≡ none)
        × (lookup m.education_id (reissue str now source_id year due c).0.catalog ≡ some m)
        × (m ≡ record source {
          education_id = generate_reissued_id str source_id source.year year;
          year = year;
          due_date = due;
          created_at = now;
        })
        × (m.due_date.year ≡ year)
  unfolding copy_of
  lookup-reissue source m found h =
      let id = generate_reissued_id str source_id source.year year in
      let done = reissue-IsCopy source m found h in
      let there : lookup id (with_copy id (copy_of now id year due source) c).catalog
          ≡ some (copy_of now id year due source) =
        rw (lookup-insert, eq_refl) refl in
      rw (done.after, done.copy) (done.fresh, there, refl, ground (arith, done.in_year))

  -- Right after a reissue that succeeds, another one of the same training for the same year is refused,
  -- whatever its due date.
  pub reissue_twice :
      (source m : EducationMeta) (later : ℕ) (due' : Date)
      → lookup source_id c.catalog ≡ some source
      → (reissue str now source_id year due c).1 ≡ reissued m
      → (reissue str later source_id year due' (reissue str now source_id year due c).0).1
        ≡ refused target_exists
  reissue_twice source m later due' found h =
      let id = generate_reissued_id str source_id source.year year in
      let meta = copy_of now id year due source in
      let done = reissue-IsCopy source m found h in
      let again = lookup-with_copy id source_id meta source c done.fresh found in
      rw done.after (
        ap (λ x. x.1)
          (reissue_found str later source_id year due' (with_copy id meta c) source again)
        ∙ reissue_as_present str later id year due' source (with_copy id meta c)
            (with_copy-exists id meta c))

  -- After a reissue that succeeds the new training is not over at any moment of a year before its own.
  pub is_expired-reissue :
      (source m : EducationMeta) (moment : Moment)
      → lookup source_id c.catalog ≡ some source
      → (reissue str now source_id year due c).1 ≡ reissued m
      → moment.date.year < year
      → is_expired m.education_id moment (reissue str now source_id year due c).0 ≡ false
  unfolding is_expired is_after is_before expires_at
  is_expired-reissue source m moment found h early =
      let (fresh, there, copy, in_year) = lookup-reissue source m found h in
      rw (is_expired, there) (ground (arith, in_year))
