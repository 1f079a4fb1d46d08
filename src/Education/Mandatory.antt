-- ===== src/Education/Mandatory.antt =====
-- Who decides that a training is mandatory.
use ctrlf_ai.Prelude.{
  ℕ, String, leb, ◌&&◌, Option, ◌≡◌, refl, true, false, none, some, List, [], ◌∷◌, ◌=ˢ◌, arith,
  eq_iff, if◌then◌else◌, subst, Bool-cases, inl, inr,
}
use ctrlf_ai.Prelude.Dict.{lookup, lookup-insert}
use ctrlf_ai.Education.{
  Catalog, Registration, contains, add, discard, has_prefix, mandatory_4type_prefixes,
  is_mandatory_4type, register_mandatory_4type, unregister_mandatory_4type, register_education,
  register_due, or_year, or_year_end, Date, EducationMeta, meta_of,
}

contains-add_self : (x : String) (xs : List String) → contains x (add x xs) ≡ true
unfolding add contains
contains-add_self x xs = ground (arith, eq_iff x x)

contains-add_ne :
    (x y : String) (xs : List String) → (x =ˢ y) ≡ false → contains y (add x xs) ≡ contains y xs
unfolding add contains
contains-add_ne x y xs h = ground arith

pub contains-add :
    (x y : String) (xs : List String)
    → contains y (add x xs) ≡ (if x =ˢ y then true else contains y xs)
contains-add x y xs = elim (Bool-cases (x =ˢ y)) [
  | inl same ↦
      rw same
        (subst (λ z. contains z (add x xs) ≡ true) ((eq_iff x y).0 same) (contains-add_self x xs))
  | inr other ↦ rw other (contains-add_ne x y xs other)
]

contains-discard :
    (x y : String) (xs : List String)
    → contains y (discard x xs) ≡ (if x =ˢ y then false else contains y xs)
unfolding discard contains
contains-discard x y [] = ground arith
contains-discard x y (z ∷ zs) =
    ground (arith, contains-discard x y zs, eq_iff z x, eq_iff z y, eq_iff x y)

register_due-is_mandatory :
    (this_year now : ℕ) (id j : String) (r : Registration) (c : Catalog) (due_date : Date)
    → is_mandatory_4type (register_due this_year now id r c due_date).0 j
      ≡ (if id =ˢ j then r.is_mandatory_4type else is_mandatory_4type c j)
unfolding is_mandatory_4type register_due
register_due-is_mandatory this_year now id j r c due_date = ground (
  arith,
  lookup-insert id j (meta_of this_year now id r due_date) c.catalog,
  contains-add id j c.mandatory_4type_ids,
)

-- How a registration ends: it raises, without a due date and in a year that is no year of a date, or
-- the catalogue that it leaves judges every training so.
unfoldable pub IsRegistered :
    ℕ → String → Registration → Catalog → Option (Catalog × EducationMeta) → Type 0
IsRegistered this_year id r c none =
    (r.due_date ≡ none)
    × ((leb 1 (or_year r.year this_year) && leb (or_year r.year this_year) 9_999) ≡ false)
IsRegistered this_year id r c (some (c', meta)) =
    (j : String)
    → is_mandatory_4type c' j ≡ (if id =ˢ j then r.is_mandatory_4type else is_mandatory_4type c j)

due-IsRegistered :
    (this_year now : ℕ) (id : String) (r : Registration) (c : Catalog) (due_date : Option Date)
    → r.due_date ≡ due_date
    → IsRegistered this_year id r c (elim (or_year_end due_date (or_year r.year this_year)) [
      | none ↦ none
      | some d ↦ some (register_due this_year now id r c d)
    ])
unfolding or_year_end IsRegistered
due-IsRegistered this_year now id r c (some d) e =
    λ j. register_due-is_mandatory this_year now id j r c d
due-IsRegistered this_year now id r c none e =
    elim (Bool-cases (leb 1 (or_year r.year this_year) && leb (or_year r.year this_year) 9_999)) [
      | inl inside ↦ rw inside (λ j. register_due-is_mandatory this_year now id j r c _)
      | inr outside ↦ rw outside (e, outside)
    ]

-- `register_education` raises only where no due date is given and the year, which is this year where
-- none is given, is not one of 1 to 9999. Otherwise the flag that was given decides for that training
-- afterwards, whatever was registered before and whatever its prefix, and every other training is
-- judged as before.
pub is_mandatory_4type-register_education :
    (this_year now : ℕ) (id : String) (r : Registration) (c : Catalog)
    → IsRegistered this_year id r c (register_education this_year now id r c)
unfolding register_education
is_mandatory_4type-register_education this_year now id r c =
    due-IsRegistered this_year now id r c r.due_date refl

-- Registering an id, and taking it back, decides the trainings that the catalogue does not hold
-- and that no prefix makes mandatory; no other training is touched.
pub is_mandatory_4type-register_mandatory :
    (id j : String) (c : Catalog)
    → (is_mandatory_4type (register_mandatory_4type id c) j ≡ (elim (lookup j c.catalog) [
      | some meta ↦ meta.is_mandatory_4type
      | none ↦ if id =ˢ j then true else is_mandatory_4type c j
    ]))
      × (is_mandatory_4type (unregister_mandatory_4type id c) j ≡ (elim (lookup j c.catalog) [
        | some meta ↦ meta.is_mandatory_4type
        | none ↦ if id =ˢ j then has_prefix j mandatory_4type_prefixes else is_mandatory_4type c j
      ]))
unfolding is_mandatory_4type register_mandatory_4type unregister_mandatory_4type
is_mandatory_4type-register_mandatory id j c = (
  ground (arith, contains-add id j c.mandatory_4type_ids),
  ground (arith, contains-discard id j c.mandatory_4type_ids),
)
