-- ===== src/ErrGroup/Example.antt =====
-- A group that keeps its first error, as an instance of the interface.
use servekit.Prelude.{◌≡◌, refl, Bool, true, false, Option, none, some}
use servekit.ErrGroup.{ErrGroup, first_error}

abbrev is_some : {E : Type 0} → Option E → Bool
is_some none = false
is_some (some e) = true

abbrev note : {E : Type 0} → Option E → Option E → Option E
note none g = g
note (some e) g = first_error g e

pub canceled_by_error : {E : Type 0} (g : Option E) (e : E) → is_some (first_error g e) ≡ true
canceled_by_error none e = refl
canceled_by_error (some d) e = refl

unfoldable pub first_error_group : (E : Type 0) → ErrGroup E
first_error_group E = record {
  Group = Option E;
  with_context = none;
  returned = note;
  canceled = is_some;
  wait = λ g. g;
  canceled-with_context = refl;
  wait-with_context = refl;
  canceled-returned_none = λ g. refl;
  wait-returned_none = λ g. refl;
  canceled-returned_some = canceled_by_error;
  wait-returned_some = λ g e. refl;
}
