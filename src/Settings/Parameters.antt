-- ===== src/Settings/Parameters.antt =====
-- rawfile/utils/units.py: the parameters of a request. `strip` and `lower` are Python's.
use mathlib.Core.List.{append_assoc, append-nil}
use rawfile_localpv.Prelude.{
  ◌≡◌, refl, sym, ap, ◌∙◌, subst, arith, Bool, true, false, ◌||◌, Option, none, some, List, [], ◌∷◌,
  ◌++◌, String, Dict, lookup, insert, if◌then◌else◌, str_eq, eq_iff, IsUnique, insert-IsUnique,
  Bool-cases, inl, inr,
}

abbrev one_of : String → List String → Bool
one_of s [] = false
one_of s (t ∷ ts) = str_eq s t || one_of s ts

module _ (strip lower : String → String) where
  -- `str_to_bool`
  unfoldable pub str_to_bool : Option String → Bool
  str_to_bool none = false
  str_to_bool (some s) = one_of (strip (lower s)) ("1" ∷ "t" ∷ "true" ∷ "yes" ∷ "y" ∷ "on" ∷ [])

  abbrev pub is_nothing : String → Bool
  is_nothing s = str_eq s "" || one_of (lower s) ("none" ∷ "null" ∷ "nil" ∷ [])

  -- `normalize_value`
  unfoldable pub normalize_value : String → Option String
  normalize_value v = if is_nothing (strip v) then none else some (strip (strip v))

  abbrev pub put_normal : String → Option String → Dict String → Dict String
  put_normal k none normalized = normalized
  put_normal k (some v) normalized = insert (lower k) v normalized

  unfoldable pub normalize_into : Dict String → Dict String → Dict String
  normalize_into normalized [] = normalized
  normalize_into normalized ((k, v) ∷ d) =
      normalize_into (put_normal k (normalize_value v) normalized) d

  -- `normalize_parameters`
  unfoldable pub normalize_parameters : Dict String → Dict String
  normalize_parameters d = normalize_into [] d

  -- Every key and every value is as the normalisation leaves it.
  abbrev pub AllNormal : Dict String → Type 0
  AllNormal [] = Unit
  AllNormal ((k, v) ∷ d) = (lower k ≡ k) × (normalize_value v ≡ some v) × AllNormal d

  insert-AllNormal :
      (k v : String) (d : Dict String)
      → lower k ≡ k
      → normalize_value v ≡ some v
      → AllNormal d
      → AllNormal (insert k v d)
  unfolding insert
  insert-AllNormal k v [] e f h = (e, f, tt)
  insert-AllNormal k v ((j, x) ∷ d) e f h = elim (Bool-cases (str_eq j k)) [
    | inl t ↦ rw t (e, f, h.2)
    | inr t ↦ rw t (h.0, h.1, insert-AllNormal k v d e f h.2)
  ]

  module _ (strip_again : (s : String) → strip (strip s) ≡ strip s)
      (lower_again : (s : String) → lower (lower s) ≡ lower s) where
    normal_value : (v w : String) → normalize_value v ≡ some w → normalize_value w ≡ some w
    unfolding normalize_value
    normal_value v w e = by_test (is_nothing (strip v)) refl e
      where
        by_test :
            (b : Bool)
            → is_nothing (strip v) ≡ b
            → (if b then none else some (strip (strip v))) ≡ some w
            → normalize_value w ≡ some w
        by_test true t h = ground (arith, h)
        by_test false t h =
            let p : strip v ≡ w =
              sym (strip_again v) ∙ ap (λ o. elim o [ none ↦ w | some x ↦ x ]) h in
            subst (λ x. normalize_value x ≡ some x) p (rw strip_again (rw strip_again (rw t refl)))

    put-AllNormal :
        (k : String) (o : Option String) (v : String) (d : Dict String)
        → normalize_value v ≡ o
        → AllNormal d
        → AllNormal (put_normal k o d)
    put-AllNormal k none v d e h = h
    put-AllNormal k (some w) v d e h =
        insert-AllNormal (lower k) w d (lower_again k) (normal_value v w e) h

    normalize_into-AllNormal :
        (acc d : Dict String) → AllNormal acc → AllNormal (normalize_into acc d)
    unfolding normalize_into
    normalize_into-AllNormal acc [] h = h
    normalize_into-AllNormal acc ((k, v) ∷ d) h =
        normalize_into-AllNormal (put_normal k (normalize_value v) acc) d
          (put-AllNormal k (normalize_value v) v acc refl h)

  put-IsUnique :
      (k : String) (o : Option String) (d : Dict String) → IsUnique d → IsUnique (put_normal k o d)
  put-IsUnique k none d u = u
  put-IsUnique k (some v) d u = insert-IsUnique (lower k) v d u

  normalize_into-IsUnique : (acc d : Dict String) → IsUnique acc → IsUnique (normalize_into acc d)
  unfolding normalize_into
  normalize_into-IsUnique acc [] u = u
  normalize_into-IsUnique acc ((k, v) ∷ d) u =
      normalize_into-IsUnique (put_normal k (normalize_value v) acc) d
        (put-IsUnique k (normalize_value v) acc u)

  not_key :
      (j k v : String) (a d : Dict String)
      → lookup j (a ++ ((k, v) ∷ d)) ≡ none
      → str_eq j k ≡ false
  unfolding lookup
  not_key j k v [] d e = ground (arith, e, eq_iff j k, eq_iff k j)
  not_key j k v ((i, y) ∷ a) d e = elim (Bool-cases (str_eq i j)) [
    | inl t ↦ ground (arith, t, e)
    | inr t ↦ not_key j k v a d (ground (arith, t, e))
  ]

  -- A key that stands after the others of a dict is not among them.
  lookup-before :
      (k v : String) (a d : Dict String) → IsUnique (a ++ ((k, v) ∷ d)) → lookup k a ≡ none
  unfolding lookup
  lookup-before k v [] d u = refl
  lookup-before k v ((j, x) ∷ a) d u =
      let n = not_key j k v a d u.0 in let m = lookup-before k v a d u.1 in rw n m

  insert-new :
      (k v : String) (a : Dict String) → lookup k a ≡ none → insert k v a ≡ a ++ ((k, v) ∷ [])
  unfolding lookup insert
  insert-new k v [] e = refl
  insert-new k v ((j, x) ∷ a) e = elim (Bool-cases (str_eq j k)) [
    | inl t ↦ ground (arith, t, e)
    | inr t ↦ rw t (ap (λ (l : Dict String). (j, x) ∷ l) (insert-new k v a (ground (arith, t, e))))
  ]

  normalize_into-normal :
      (a d : Dict String) → IsUnique (a ++ d) → AllNormal d → normalize_into a d ≡ a ++ d
  unfolding normalize_into
  normalize_into-normal a [] u h = sym (append-nil a)
  normalize_into-normal a ((k, v) ∷ d) u h =
      let g = append_assoc a ((k, v) ∷ []) d in
      rw h.1 (
        rw h.0 (
          rw (insert-new k v a (lookup-before k v a d u))
            (normalize_into-normal (a ++ ((k, v) ∷ [])) d (subst IsUnique (sym g) u) h.2 ∙ g)))

  -- Parameters that have been normalised are left as they are when they are normalised again.
  pub normalize_parameters_twice :
      (d : Dict String)
      → ((s : String) → strip (strip s) ≡ strip s)
      → ((s : String) → lower (lower s) ≡ lower s)
      → normalize_parameters (normalize_parameters d) ≡ normalize_parameters d
  unfolding normalize_parameters
  normalize_parameters_twice d s l =
      normalize_into-normal [] (normalize_into [] d) (normalize_into-IsUnique [] d tt)
        (normalize_into-AllNormal s l [] d tt)
