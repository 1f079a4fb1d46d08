-- ===== src/Video/Store/Keys.antt =====
-- When the keys of the store are unambiguous.
use Prim.Native.Char.{Char, code}
use Prim.Native.String.{◌++◌}
use text.Mathlib.TextLemmas.{nil-append, cons-append, head-eq_of_cons-eq, tail-eq_of_cons-eq}
use ctrlf_ai.Prelude.{
  String, ◌≡◌, refl, sym, ap, ◌∙◌, Bool, true, false, not, ◌&&◌, ◌==◌, arith, if◌then◌else◌, ◌=ˢ◌,
  eq_iff, eq_refl, some, Bool-cases, inl, inr,
}
use ctrlf_ai.Prelude.Dict.{Dict}
use ctrlf_ai.Video.Store.{make_key, get, set, get-set}

-- The id has no colon.
unfoldable pub colon_free : String → Bool
colon_free String.[] = true
colon_free (String.◌∷◌ c s) = not (code c == b':') && colon_free s

abbrev colon : Char
colon = ":"

colon-cons : (t : String) → ":" ++ t ≡ String.◌∷◌ colon t
colon-cons t = cons-append colon String.[] t ∙ ap (String.◌∷◌ colon) (nil-append t)

colon_free-tail : (c : Char) (u : String) → colon_free (String.◌∷◌ c u) ≡ true → colon_free u ≡ true
unfolding colon_free
colon_free-tail c u h = ground arith

colon-head : (d : Char) (v : String) → colon ≡ d → colon_free (String.◌∷◌ d v) ≡ false
unfolding colon_free
colon-head d v e = rw (← e)

joined_inj :
    (u v t t' : String)
    → colon_free u ≡ true
    → colon_free v ≡ true
    → u ++ String.◌∷◌ colon t ≡ v ++ String.◌∷◌ colon t'
    → (u ≡ v) × (t ≡ t')
joined_inj String.[] String.[] t t' hu hv e =
    (refl, tail-eq_of_cons-eq (sym (nil-append _) ∙ e ∙ nil-append _))
joined_inj String.[] (String.◌∷◌ d v) t t' hu hv e =
    let q = head-eq_of_cons-eq (sym (nil-append _) ∙ e ∙ cons-append d v _) in cc (colon-head d v q)
joined_inj (String.◌∷◌ c u) String.[] t t' hu hv e =
    let q = head-eq_of_cons-eq (sym (nil-append _) ∙ sym e ∙ cons-append c u _) in
    cc (colon-head c u q)
joined_inj (String.◌∷◌ c u) (String.◌∷◌ d v) t t' hu hv e =
    let q = sym (cons-append c u _) ∙ e ∙ cons-append d v _ in
    let (same, rest) =
      joined_inj u v t t' (colon_free-tail c u hu) (colon_free-tail d v hv)
        (tail-eq_of_cons-eq q) in
    (cc (head-eq_of_cons-eq q), rest)

-- Two users without a colon share a key only if they, and the trainings, are the same.
pub make_key_inj :
    (u v t t' : String)
    → colon_free u ≡ true
    → colon_free v ≡ true
    → make_key u t ≡ make_key v t'
    → (u ≡ v) × (t ≡ t')
unfolding make_key
make_key_inj u v t t' hu hv e = joined_inj u v t t' hu hv (rw (colon-cons t, colon-cons t') at e)

both : (a b : Bool) → (a && b) ≡ true → (a ≡ true) × (b ≡ true)
both a b h = ground arith

make_key-eq :
    (u v t t' : String)
    → colon_free u ≡ true
    → colon_free v ≡ true
    → (make_key u t =ˢ make_key v t') ≡ ((u =ˢ v) && (t =ˢ t'))
make_key-eq u v t t' hu hv = elim (Bool-cases ((u =ˢ v) && (t =ˢ t'))) [
  | inl same ↦
      let (p, q) = both (u =ˢ v) (t =ˢ t') same in
      rw (same, ← (eq_iff u v).0 p, ← (eq_iff t t').0 q) (eq_refl (make_key u t))
  | inr other ↦ elim (Bool-cases (make_key u t =ˢ make_key v t')) [
    | inl e ↦
        let (p, q) = make_key_inj u v t t' hu hv ((eq_iff (make_key u t) (make_key v t')).0 e) in
        ground (arith, eq_iff u v, eq_iff t t')
    | inr ne ↦ rw (ne, other)
  ]
]

-- For users without a colon the store behaves as a map from pairs: what is stored for one pair is
-- found for it, and is not found for another user or another training.
pub get-set_pair :
    {V : Type 0} (u v t t' : String) (r : V) (s : Dict V)
    → colon_free u ≡ true
    → colon_free v ≡ true
    → get v t' (set u t r s) ≡ (if (u =ˢ v) && (t =ˢ t') then some r else get v t' s)
get-set_pair u v t t' r s hu hv = rw (get-set, make_key-eq u v t t' hu hv)
