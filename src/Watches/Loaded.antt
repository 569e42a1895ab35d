-- ===== src/Watches/Loaded.antt =====
-- What the entries that Load returns can be relied on for.
use helm_operator_plugins.Object.{Chart, GroupVersionKind}
use helm_operator_plugins.Hook.{is_watched}
use helm_operator_plugins.Watches.{
  Watch, WatchesLib, expand_override_values, completed, load_watch, load_watches, load_reader, load,
}
use helm_operator_plugins.Prelude.{
  is_some, ok, Result-cases, String, ◌≡◌, refl, sym, subst, inl, inr, true, false, none, some, List,
  [], ◌∷◌, arith, ◌==◌,
}

module _ {Selector : Type 0} (lib : WatchesLib Selector) where
  -- The entry `w` that was made of the entry `raw` of the file.
  pub record Loaded (raw w : Watch Selector) : Type 0 where
    pub same_gvk : w.gvk ≡ raw.gvk
    pub version_set : (w.gvk.version == "") ≡ false
    pub kind_set : (w.gvk.kind == "") ≡ false
    pub chart_loaded : (cl : Chart) × (lib.load_chart raw.chart_path ≡ ok cl) × (w.chart ≡ some cl)
    pub dependents :
        w.watch_dependent_resources
        ≡ some (elim raw.watch_dependent_resources [ none ↦ true | some b ↦ b ])
    pub selected : is_some w.selector ≡ true

  abbrev pub AllLoaded : List (Watch Selector) → List (Watch Selector) → Type 0
  AllLoaded [] [] = Unit
  AllLoaded [] (w ∷ ws) = ⊥
  AllLoaded (raw ∷ raws) [] = ⊥
  AllLoaded (raw ∷ raws) (w ∷ ws) = Loaded raw w × AllLoaded raws ws

  -- No kind stands in the list twice, or in the kinds that were seen.
  abbrev pub FreshKinds : List GroupVersionKind → List (Watch Selector) → Type 0
  FreshKinds seen [] = Unit
  FreshKinds seen (w ∷ ws) = (is_watched w.gvk seen ≡ false) × FreshKinds (w.gvk ∷ seen) ws

  load_watch-Loaded :
      (seen : List GroupVersionKind) (raw w : Watch Selector)
      → load_watch lib seen raw ≡ ok w
      → Loaded raw w × (is_watched w.gvk seen ≡ false)
  unfolding load_watch
  load_watch-Loaded seen raw w h = elim (Result-cases (lib.load_chart raw.chart_path)) [
    | inr (x, e) ↦ ground (arith, e, h)
    | inl (cl, e) ↦ elim (Result-cases (expand_override_values lib raw.override_values)) [
      | inr (x, v) ↦ ground (arith, e, v, h)
      | inl (values, v) ↦
          let same : completed lib raw cl values ≡ w = ground (arith, e, v, h) in
          let checked : ((raw.gvk.version == "") ≡ false)
              × ((raw.gvk.kind == "") ≡ false)
              × (is_watched raw.gvk seen ≡ false) =
            ground (arith, e, v, h) in
          subst (λ x. Loaded raw x × (is_watched x.gvk seen ≡ false)) same
            (
              record {
                same_gvk = refl;
                version_set = checked.0;
                kind_set = checked.1;
                chart_loaded = (cl, e, refl);
                dependents = refl;
                selected = refl;
              },
              checked.2,
            )
    ]
  ]

  load_watches-AllLoaded :
      (seen : List GroupVersionKind) (raws ws : List (Watch Selector))
      → load_watches lib seen raws ≡ ok ws
      → AllLoaded raws ws × FreshKinds seen ws
  unfolding load_watches
  load_watches-AllLoaded seen [] [] h = (tt, tt)
  load_watches-AllLoaded seen [] (w ∷ ws) h = ground (arith, h)
  load_watches-AllLoaded seen (raw ∷ raws) ws h = elim (Result-cases (load_watch lib seen raw)) [
    | inr (x, e) ↦ ground (arith, e, h)
    | inl (w, e) ↦ elim (Result-cases (load_watches lib (raw.gvk ∷ seen) raws)) [
      | inr (x, r) ↦ ground (arith, e, r, h)
      | inl (rest, r) ↦
          let same : w ∷ rest ≡ ws = ground (arith, e, r, h) in
          let (loaded, fresh) = load_watch-Loaded seen raw w e in
          let (all, kinds) = load_watches-AllLoaded (raw.gvk ∷ seen) raws rest r in
          subst (λ l. AllLoaded (raw ∷ raws) l × FreshKinds seen l) same
            (
              (loaded, all),
              (fresh, subst (λ g. FreshKinds (g ∷ seen) rest) (sym loaded.same_gvk) kinds),
            )
    ]
  ]

  -- If Load succeeds, it returns the entries of the file, in order, each with a kind that has a
  -- version and a name, the chart of its path, a selector, and dependent resources watched unless
  -- the file says no; and no two entries have the same kind.
  pub load-AllLoaded :
      (raws ws : List (Watch Selector)) (b : String)
      → lib.unmarshal b ≡ ok raws
      → load lib (ok (ok b)) none ≡ ok ws
      → AllLoaded raws ws × FreshKinds [] ws
  unfolding load load_reader
  load-AllLoaded raws ws b parsed h = load_watches-AllLoaded [] raws ws (ground (arith, parsed, h))
