-- ===== src/Cluster/Written.antt =====
-- rawfile/orchestrator/k8s.py: what a write to a config map leaves, and what the next read gives.
use rawfile_localpv.Prelude.{
  ◌≡◌, refl, ◌∙◌, Bool, true, false, ◌||◌, ◌&&◌, not, Option, none, some, [], ◌∷◌, String, Dict,
  lookup, contains, if◌then◌else◌, str_eq, eq_refl, lookup-insert, Bool-cases, inl, inr,
}
use rawfile_localpv.Errors.{Exception, Result, ok, err, api_error}
use rawfile_localpv.Exec.{Exec, ◌>>=◌, or_raise, pure, proceed, proceed-keeps}
use rawfile_localpv.Cluster.ConfigMaps.{
  Api, or_empty, request, request-elim, get_config_map, set_config_map, replace_config_map,
  create_config_map, unless_missing, is_not_found, update_config_map, write_config_map,
  read_config_map, data_at, data_of,
}

and_true : {A : Type 0} (b : Bool) (x y : A) → (if b then x else y) ≡ (if b && true then x else y)
and_true true x y = refl
and_true false x y = refl

and_false : {A : Type 0} (b : Bool) (x y : A) → y ≡ (if b && false then x else y)
and_false true x y = refl
and_false false x y = refl

no_data :
    (o : Option (Option (Dict String)))
    → elim o [ none ↦ false | some _ ↦ true ] ≡ false
    → data_at o ≡ []
no_data none e = refl
no_data (some d) e = cc

module _ (name key value : String) (overwrite : Bool) (a : Api) where
  -- What a write leaves: the key has the value, unless it had one that is kept, and nothing else has
  -- changed; a write that fails changes nothing.
  abbrev pub IsWritten : Result Unit × Api → Type 0
  IsWritten (ok _, b) =
      ((k : String)
        → lookup k (data_of name b) ≡ (
            if str_eq key k && (not (contains key (data_of name a)) || overwrite)
            then some value
            else lookup k (data_of name a)))
      × ((n : String) → str_eq name n ≡ false → lookup n b.config_maps ≡ lookup n a.config_maps)
  IsWritten (err e, b) = b.config_maps ≡ a.config_maps

  set_config_map-IsWritten :
      (entries : Dict String) (b : Api)
      → b.config_maps ≡ a.config_maps
      → not (contains key (data_of name a)) || overwrite ≡ true
      → ((k : String)
          → lookup k entries ≡ (if str_eq key k then some value else lookup k (data_of name a)))
      → IsWritten (set_config_map name entries b)
  set_config_map-IsWritten entries b same h g = (
    λ k. rw (lookup-insert, eq_refl, h) (rw (g k) (and_true (str_eq key k) _ _)),
    λ n ne. rw (lookup-insert, ne, same),
  )

  replace_config_map-IsWritten :
      (entries : Dict String) (b : Api)
      → b.config_maps ≡ a.config_maps
      → not (contains key (data_of name a)) || overwrite ≡ true
      → ((k : String)
          → lookup k entries ≡ (if str_eq key k then some value else lookup k (data_of name a)))
      → IsWritten (replace_config_map name entries b)
  replace_config_map-IsWritten entries b same h g =
      request-elim IsWritten _ b
        (λ c e. elim (Bool-cases (contains name c.config_maps)) [
          | inl y ↦ rw y (set_config_map-IsWritten entries c (e ∙ same) h g)
          | inr y ↦ rw y (e ∙ same)
        ])
        (λ x c n e. e ∙ same)

  update_config_map-IsWritten :
      (found : Option (Dict String)) (b : Api)
      → b.config_maps ≡ a.config_maps
      → data_of name a ≡ or_empty found
      → IsWritten (update_config_map name key value overwrite found b)
  update_config_map-IsWritten found b same e =
      elim (Bool-cases (not (contains key (or_empty found)) || overwrite)) [
        | inl y ↦ rw y (replace_config_map-IsWritten _ b same (rw e y) (λ k. rw (e, lookup-insert)))
        | inr y ↦ rw y (λ k. rw (same, e, y) (and_false (str_eq key k) _ _), λ n ne. rw same)
      ]

  found-IsWritten :
      (o : Option (Option (Dict String))) (b : Api)
      → b.config_maps ≡ a.config_maps
      → lookup name b.config_maps ≡ o
      → IsWritten
          (proceed (update_config_map name key value overwrite) (or_raise o (api_error 404) b))
  found-IsWritten none b same e = same
  found-IsWritten (some found) b same e =
      update_config_map-IsWritten found b same (rw (← same, e) refl)

  get_config_map-IsWritten :
      IsWritten ((get_config_map name >>= update_config_map name key value overwrite) a)
  get_config_map-IsWritten =
      request-elim (λ r. IsWritten (proceed (update_config_map name key value overwrite) r)) _ a
        (λ b e. found-IsWritten _ b e refl) (λ x b n e. e)

  missing :
      (b : Api)
      → b.config_maps ≡ a.config_maps
      → contains name b.config_maps ≡ false
      → data_of name a ≡ []
  missing b same e = rw (← same) (no_data (lookup name b.config_maps) e)

  created-IsWritten :
      (b : Api)
      → b.config_maps ≡ a.config_maps
      → IsWritten (create_config_map name ((key, value) ∷ []) b)
  unfolding lookup
  created-IsWritten b same =
      request-elim IsWritten _ b
        (λ c e. elim (Bool-cases (contains name c.config_maps)) [
          | inl y ↦ rw y (e ∙ same)
          | inr y ↦ rw y (
              set_config_map-IsWritten _ c (e ∙ same) (rw (missing c (e ∙ same) y) refl)
                (λ k. rw (missing c (e ∙ same) y) refl))
        ])
        (λ x c n e. e ∙ same)

  unless_missing-IsWritten :
      (r : Result Unit × Api)
      → IsWritten r
      → IsWritten (unless_missing (create_config_map name ((key, value) ∷ [])) r)
  unless_missing-IsWritten (ok x, b) h = h
  unless_missing-IsWritten (err e, b) h = elim (Bool-cases (is_not_found e)) [
    | inl y ↦ rw y (created-IsWritten b h)
    | inr y ↦ rw y h
  ]

  -- After a write the key has the value, unless it had one and was not to be overwritten; every other
  -- key of the config map and every other config map is as before. A write that fails, for whatever
  -- requests fail, leaves every config map as it was.
  pub write_config_map-IsWritten : IsWritten (write_config_map name key value overwrite a)
  unfolding write_config_map
  write_config_map-IsWritten = unless_missing-IsWritten _ get_config_map-IsWritten

-- A call that only reads leaves the config maps as they are.
abbrev pub IsSame : {A : Type 0} → Api → Result A × Api → Type 0
IsSame a r = r.1.config_maps ≡ a.config_maps

-- A call that only reads.
abbrev pub IsReader : {A : Type 0} → Exec Api A → Type 0
IsReader m = (a : Api) → IsSame a (m a)

module _ {A B : Type 0} where
  pub bind-IsReader :
      (m : Exec Api A) (f : A → Exec Api B)
      → IsReader m
      → ((x : A) → IsReader (f x))
      → IsReader (m >>= f)
  bind-IsReader m f h g a =
      proceed-keeps (λ b. b.config_maps ≡ a.config_maps) f (m a) (h a) (λ x b e. g x b ∙ e)

pub request-IsReader :
    {B : Type 0} (f : Unit → Exec Api B) → IsReader (f tt) → IsReader (request >>= f)
request-IsReader f h a = request-elim (IsSame a) f a (λ b e. h b ∙ e) (λ x b n e. e)

pub or_raise-IsReader : {B : Type 0} (o : Option B) (e : Exception) → IsReader (or_raise o e)
or_raise-IsReader none e a = refl
or_raise-IsReader (some b) e a = refl

-- A read gives what the config map holds, unless it fails.
abbrev pub IsRead : String → Api → Result (Dict String) × Api → Type 0
IsRead name a (ok d, b) = (d ≡ data_of name a) × (b.config_maps ≡ a.config_maps)
IsRead name a (err e, b) = b.config_maps ≡ a.config_maps

found-IsRead :
    (name : String) (a : Api) (o : Option (Option (Dict String))) (b : Api)
    → b.config_maps ≡ a.config_maps
    → lookup name b.config_maps ≡ o
    → IsRead name a (
        unless_missing
          (pure [])
          (proceed (λ found. pure (or_empty found)) (or_raise o (api_error 404) b)))
found-IsRead name a none b same e = (rw (← same, e) refl, same)
found-IsRead name a (some found) b same e = (rw (← same, e) refl, same)

pub read_config_map-IsRead : (name : String) (a : Api) → IsRead name a (read_config_map name a)
unfolding read_config_map
read_config_map-IsRead name a =
    request-elim
      (λ r. IsRead name a (unless_missing (pure []) (proceed (λ found. pure (or_empty found)) r))) _
      a (λ b e. found-IsRead name a _ b e refl) (λ x b n e. rw n e)
