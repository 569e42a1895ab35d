-- ===== src/Client/Options/Laws.antt =====
-- Options run in order, so that a later one has the last word.
use helm_operator_plugins.Client.{OptionFor, apply_options}
use helm_operator_plugins.Prelude.{
  Result, ok, err, Result-cases, ◌≡◌, refl, inl, inr, List, [], ◌∷◌, ◌++◌,
}

abbrev pub bind : {A : Type 0} → Result A → (A → Result A) → Result A
bind (ok a) f = f a
bind (err e) f = err e

pub apply_options-append :
    {A : Type 0} (os ps : List (OptionFor A)) (a : A)
    → apply_options (os ++ ps) a ≡ bind (apply_options os a) (apply_options ps)
unfolding apply_options
apply_options-append [] ps a = refl
apply_options-append (o ∷ os) ps a = elim (Result-cases (o a)) [
  | inl (b, e) ↦ rw (e, apply_options) (apply_options-append os ps b)
  | inr (e', e) ↦ rw (e, apply_options)
]
