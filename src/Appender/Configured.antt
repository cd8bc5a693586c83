-- ===== src/Appender/Configured.antt =====
-- src/appender.cxx: the threshold, the filters and the flags that an appender takes from its
-- properties.
--
-- `create` makes a filter by the name of its factory, from the filter's properties; it gives `none`
-- where there is no such factory or the factory fails, which throws. The loop over the filters runs
-- on fuel.
use mathlib.Core.List.{append_assoc, append-nil}
use log4cplus.Common.{
  ℕ, zero, suc, ◌<◌, ◌≡◌, refl, sym, ap, ◌∙◌, true, false, Option, none, some, List, [], ◌∷◌, ◌++◌,
  Text, codes, length, ℤ, pos, if◌then◌else◌, arith,
}
use log4cplus.Common.Map.{find}
use log4cplus.StringHelper.{convert_integer_to_string, transform}
use log4cplus.Property.{Properties, exists, get_property, get_property_subset}
use log4cplus.Property.Entries.{find-get_property_subset}
use log4cplus.Filter.{Filter}
use log4cplus.Filter.Chain.{append_filter-eq-append}
use log4cplus.Appender.{Appender, add_filter}

pub data Built : Type 0 where
  built : Appender → Built
  thrown stuck : Built

abbrev pub filter_name : ℕ → Text
filter_name count = convert_integer_to_string 32 (pos count)

unfoldable pub configure_threshold : (ℕ → ℕ) → (Text → ℤ) → Properties → Appender → Appender
unfolding exists get_property
configure_threshold upper from_string props a =
    if exists (codes "Threshold") props
    then record a {
      threshold = from_string (transform upper (get_property (codes "Threshold") props));
    }
    else a

add_filter-append :
    (fs : List Filter) (a : Appender) → add_filter fs a ≡ record a { filter = a.filter ++ fs }
unfolding add_filter
add_filter-append fs a = go a.filter refl
  where
    go : (l : List Filter) → a.filter ≡ l → add_filter fs a ≡ record a { filter = a.filter ++ fs }
    go [] e = ground (arith, e)
    go (g ∷ next) e = ground (arith, e, append_filter-eq-append g next fs)

module _ (create : Text → Properties → Option Filter) where
  unfoldable pub filters_loop : ℕ → ℕ → Properties → Appender → Built
  unfolding exists get_property add_filter
  filters_loop zero count filter_props a = stuck
  filters_loop (suc fuel) count filter_props a =
      let name = filter_name (suc count) in
      elim (exists name filter_props) [
        | false ↦ built a
        | true ↦
            elim (create (get_property name filter_props)
              (get_property_subset (name ++ codes ".") filter_props)) [
                | none ↦ thrown
                | some filter ↦
                    filters_loop fuel (suc count) filter_props (add_filter (filter ∷ []) a)
              ]
      ]

  unfoldable pub configure_filters : ℕ → Properties → Appender → Built
  unfolding filters_loop
  configure_filters fuel props a =
      filters_loop fuel 0 (get_property_subset (codes "filters.") props) a

  -- The filters that the properties number from count + 1 on, without a gap: each by the name of its
  -- factory, and with the properties below its number.
  abbrev pub IsNumbered : Properties → ℕ → List Filter → Type 0
  IsNumbered props count [] = find (codes "filters." ++ filter_name (suc count)) props ≡ none
  IsNumbered props count (filter ∷ rest) =
      ((factory : Text) × (find (codes "filters." ++ filter_name (suc count)) props ≡ some factory)
        × (create factory (
              get_property_subset (filter_name (suc count) ++ codes ".")
                (get_property_subset (codes "filters.") props))
            ≡ some filter))
      × IsNumbered props (suc count) rest

  loop-end :
      (fuel count : ℕ) (filter_props : Properties) (a : Appender)
      → find (filter_name (suc count)) filter_props ≡ none
      → filters_loop (suc fuel) count filter_props a ≡ built a
  unfolding filters_loop
  loop-end fuel count filter_props a e =
      let absent : exists (filter_name (suc count)) filter_props ≡ false =
        unfold exists in ground (arith, e) in
      rw (absent, filters_loop) refl

  loop-next :
      (fuel count : ℕ) (filter_props : Properties) (a : Appender) (factory : Text) (filter : Filter)
      → find (filter_name (suc count)) filter_props ≡ some factory
      → create factory (get_property_subset (filter_name (suc count) ++ codes ".") filter_props)
        ≡ some filter
      → filters_loop (suc fuel) count filter_props a
        ≡ filters_loop fuel
            (suc count)
            filter_props
            (record a { filter = a.filter ++ (filter ∷ []) })
  unfolding filters_loop
  loop-next fuel count filter_props a factory filter e made =
      let present : exists (filter_name (suc count)) filter_props ≡ true =
        unfold exists in ground (arith, e) in
      let value : get_property (filter_name (suc count)) filter_props ≡ factory =
        unfold get_property in ground (arith, e) in
      rw (present, value, made, filters_loop)
        (ap (filters_loop fuel (suc count) filter_props) (add_filter-append (filter ∷ []) a))

  filters_loop-numbered :
      (fuel count : ℕ) (props : Properties) (filters : List Filter) (a : Appender)
      → length filters < fuel
      → IsNumbered props count filters
      → filters_loop fuel count (get_property_subset (codes "filters.") props) a
        ≡ built (record a { filter = a.filter ++ filters })
  filters_loop-numbered zero count props filters a f h = absurd (omega (arith, f))
  filters_loop-numbered (suc fuel) count props [] a f h =
      let absent =
        find-get_property_subset (codes "filters.") props (filter_name (suc count)) ∙ h in
      loop-end fuel count (get_property_subset (codes "filters.") props) a absent
      ∙ ap (λ fs. built (record a { filter = fs })) (sym (append-nil a.filter))
  filters_loop-numbered (suc fuel) count props (filter ∷ rest) a f ((factory, e, made), h) =
      let subset = get_property_subset (codes "filters.") props in
      let found = find-get_property_subset (codes "filters.") props (filter_name (suc count)) ∙ e in
      let a' = record a { filter = a.filter ++ (filter ∷ []) } in
      loop-next fuel count subset a factory filter found made
      ∙ (filters_loop-numbered fuel (suc count) props rest a' (omega (arith, f)) h
          ∙ ap (λ fs. built (record a { filter = fs })) (append_assoc a.filter (filter ∷ []) rest))

  -- Where the properties number filters from 1 on without a gap, and every one of them can be made,
  -- the appender is built with those filters at the end of its chain, in the order of their numbers,
  -- whatever the order in the file; a filter behind a gap is left out.
  pub configure_filters-numbered :
      (fuel : ℕ) (props : Properties) (filters : List Filter) (a : Appender)
      → length filters < fuel
      → IsNumbered props 0 filters
      → configure_filters fuel props a ≡ built (record a { filter = a.filter ++ filters })
  unfolding configure_filters
  configure_filters-numbered fuel props filters a f h =
      filters_loop-numbered fuel 0 props filters a f h
