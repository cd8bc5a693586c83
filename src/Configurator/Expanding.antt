-- ===== src/Configurator/Expanding.antt =====
-- The replacement of variables ends when it is not recursive.
use log4cplus.Common.{
  ℕ, suc, ◌<◌, ◌≡◌, refl, Bool, true, false, ◌&&◌, ◌||◌, Option, some, List, [], ◌∷◌, Text, codes,
  length, if◌then◌else◌, arith,
}
use log4cplus.Configurator.{replace_key, replace_keys, replace_environ_variables, init}
use log4cplus.Property.Substitution.{subst_loop-ended, ended}
use log4cplus.Property.{
  Properties, Flags, Substituted, result, diverges, subst_vars, get_property, set_property,
  remove_property, property_names, get_property_subset,
}

ended-result : (s : Substituted) → ended s ≡ true → (t : Text) × ((b : Bool) × (s ≡ result t b))
ended-result (result t b) h = (t, (b, refl))
ended-result diverges h = cc

module _ (env : Text → Option Text) (flags : Flags) (fuel : Text → ℕ) (once : flags.rec_exp ≡ false)
    (enough : (t : Text) → length t < fuel t) where
  subst_vars-result :
      (props : Properties) (t : Text)
      → (u : Text) × ((b : Bool) × (subst_vars env props flags (fuel t) t ≡ result u b))
  unfolding subst_vars
  subst_vars-result props t =
      ended-result (subst_vars env props flags (fuel t) t)
        (subst_loop-ended env props flags t (fuel t) [] t false once (enough t))

  replace_key-result :
      (key : Text) (props : Properties) (u v : Text) (b c : Bool)
      → subst_vars env props flags (fuel key) key ≡ result u b
      → subst_vars env
          (if b then set_property u (get_property key props) (remove_property key props) else props)
          flags
          (fuel (get_property key props))
          (get_property key props)
        ≡ result v c
      → (r : Properties × Bool) × (replace_key env flags fuel key props ≡ some r)
  unfolding replace_key
  replace_key-result key props u v b c e f =
      let props' : Properties =
        if b then set_property u (get_property key props) (remove_property key props) else props in
      ((if c then set_property u v props' else props', b || c), rw (replace_key, e, f) refl)

  replace_key-some :
      (key : Text) (props : Properties)
      → (r : Properties × Bool) × (replace_key env flags fuel key props ≡ some r)
  replace_key-some key props =
      let (u, (b, e)) = subst_vars-result props key in
      let (v, (c, f)) =
        subst_vars-result
          (if b then set_property u (get_property key props) (remove_property key props) else props)
          (get_property key props) in
      replace_key-result key props u v b c e f

  replace_keys-cons :
      (key : Text) (keys : List Text) (props props' : Properties) (changed changed' : Bool)
      (r : Properties × Bool)
      → replace_key env flags fuel key props ≡ some (props', changed')
      → replace_keys env flags fuel keys (props', changed || changed') ≡ some r
      → replace_keys env flags fuel (key ∷ keys) (props, changed) ≡ some r
  unfolding replace_keys
  replace_keys-cons key keys props props' changed changed' r e f = rw (replace_keys, e) f

  replace_keys-some :
      (keys : List Text) (s : Properties × Bool)
      → (r : Properties × Bool) × (replace_keys env flags fuel keys s ≡ some r)
  replace_keys-some [] s = (s, unfold replace_keys in refl)
  replace_keys-some (key ∷ keys) (props, changed) =
      let ((props', changed'), e) = replace_key-some key props in
      let (r, f) = replace_keys-some keys (props', changed || changed') in
      (r, replace_keys-cons key keys props props' changed changed' r e f)

  init-result :
      (rounds : ℕ) (props props' : Properties) (changed : Bool)
      → replace_keys env flags fuel (property_names props) (props, false) ≡ some (props', changed)
      → init env flags fuel (suc rounds) props
        ≡ some (get_property_subset (codes "log4cplus.") props')
  unfolding init replace_environ_variables
  init-result rounds props props' changed e =
      let last : (changed && flags.rec_exp) ≡ false = ground (arith, once) in
      rw (init, replace_environ_variables, e, last) refl

  -- Without recursive expansion, with more fuel for each text than it has characters, `init` ends.
  pub init-some :
      (rounds : ℕ) (props : Properties)
      → (r : Properties) × (init env flags fuel (suc rounds) props ≡ some r)
  init-some rounds props =
      let ((props', changed), e) = replace_keys-some (property_names props) (props, false) in
      (get_property_subset (codes "log4cplus.") props', init-result rounds props props' changed e)
