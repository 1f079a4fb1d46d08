-- ===== src/Video/Store.antt =====
-- `VideoProgressStore`: a dict whose key joins the user and the training by a colon.
pub mod Keys
use text.Mathlib.TextLemmas.{append_assoc}
use Prim.Native.String.{◌++◌}
use ctrlf_ai.Prelude.{String, ◌≡◌, ap, Option, none, some, [], if◌then◌else◌, ◌=ˢ◌, eq_refl}
use ctrlf_ai.Prelude.Dict.{Dict, lookup, insert, remove, lookup-insert}

unfoldable pub make_key : String → String → String
make_key user_id training_id = user_id ++ ":" ++ training_id

module _ {V : Type 0} where
  unfoldable pub set : String → String → V → Dict V → Dict V
  set user_id training_id record_ s = insert (make_key user_id training_id) record_ s

  unfoldable pub get : String → String → Dict V → Option V
  get user_id training_id s = lookup (make_key user_id training_id) s

  unfoldable pub delete : String → String → Dict V → Dict V
  delete user_id training_id s = remove (make_key user_id training_id) s

  unfoldable pub clear : Dict V → Dict V
  clear s = []

  pub get-set :
      (u t u' t' : String) (r : V) (s : Dict V)
      → get u' t' (set u t r s) ≡ (if make_key u t =ˢ make_key u' t' then some r else get u' t' s)
  unfolding get set
  get-set u t u' t' r s = lookup-insert (make_key u t) (make_key u' t') r s

  -- The key does not tell a colon in an id from the separator: what is stored for the user `a` and
  -- the training `b:c` is what the user `a:b` finds for the training `c`.
  pub get-set_collision :
      (a b c : String) (r : V) (s : Dict V)
      → get (a ++ ":" ++ b) c (set a (b ++ ":" ++ c) r s) ≡ some r
  unfolding get set make_key
  get-set_collision a b c r s = rw lookup-insert (simp (append_assoc, eq_refl))
