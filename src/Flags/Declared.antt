-- ===== src/Flags/Declared.antt =====
-- The flags that are asked for are declared.
use helm_operator_plugins.Flags.{Flags, changed, to_manager_options, FlagSetLib, declare_flags}
use helm_operator_plugins.Run.{with_operator_name, manager_options}
use helm_operator_plugins.Prelude.{
  All, ℕ, String, ◌≡◌, refl, Bool, false, Option, none, some, List, [], ◌∷◌, ◌++◌,
}

-- A set of flags that keeps the names in the order of their declarations.
abbrev pub recorder : FlagSetLib
recorder = record {
  FlagSet = List String;
  string_var = λ name value usage names. names ++ (name ∷ []);
  duration_var = λ name value usage names. names ++ (name ∷ []);
  int_var = λ name value usage names. names ++ (name ∷ []);
  bool_var = λ name value usage names. names ++ (name ∷ []);
  mark_deprecated = λ name message names. names;
  changed = λ names name. false;
}

abbrev pub with_changed : Flags → (String → Bool) → Flags
with_changed f is_changed = record f { flag_set = some is_changed }

-- The options of the manager depend on which flags were changed only through the flags that AddTo
-- declares: for two command lines that agree on these, the run command computes the same options,
-- or rejects both in the same way.
pub manager_options-declared :
    (f : Flags) (given again : String → Bool) (num_cpu : ℕ) (operator_name : Option String)
    (namespaces : String)
    → All (λ name. given name ≡ again name) (declare_flags recorder num_cpu [])
    → manager_options (with_changed f given) operator_name namespaces
      ≡ manager_options (with_changed f again) operator_name namespaces
unfolding declare_flags manager_options with_operator_name to_manager_options changed
manager_options-declared f given again num_cpu none namespaces
      (_, (_, (_, (addr, (bind, (probe, (enable, (elect, (id, (ns, _)))))))))) =
    rw addr (rw bind (rw probe (rw enable (rw elect (rw id (rw ns refl))))))
manager_options-declared f given again num_cpu (some operator_name) namespaces
      (_, (_, (_, (addr, (bind, (probe, (enable, (elect, (id, (ns, _)))))))))) =
    rw addr (rw bind (rw probe (rw enable (rw elect (rw id (rw ns refl))))))
