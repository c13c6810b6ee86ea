-- ===== src/Prelude/Dicts.antt =====
-- Python's `dict` with text keys, as an association list in which the first entry of a key counts.
use Prim.Native.String.{String}
use mathlib.Core.Path.{◌≡◌, refl, subst}
use mathlib.Core.Logic.{inl, inr}
use mathlib.Core.Bool.{Bool, true, false}
use mathlib.Core.Option.{Option, none, some}
use mathlib.Core.List.{List, [], ◌∷◌}
use native.Mathlib.Omega.{arith}
use text.Mathlib.Text.{◌==◌}
use text.Mathlib.TextEquality.{eq_iff}
use text.Mathlib.TextPositions.{eq_refl}
use rawfile_localpv.Prelude.Tests.{if◌then◌else◌, Bool-cases}
use rawfile_localpv.Prelude.Lists.{All}

abbrev pub Dict {ℓ} : Type ℓ → Type ℓ
Dict V = List (String × V)

module _ {ℓ} {V : Type ℓ} where
  -- d.get(k)
  unfoldable pub lookup : String → Dict V → Option V
  lookup k [] = none
  lookup k ((j, v) ∷ d) = if j == k then some v else lookup k d

  -- k in d
  abbrev pub contains : String → Dict V → Bool
  contains k d = elim (lookup k d) [ none ↦ false | some _ ↦ true ]

  -- d[k] = v
  unfoldable pub insert : String → V → Dict V → Dict V
  insert k v [] = (k, v) ∷ []
  insert k v ((j, w) ∷ d) = if j == k then (k, v) ∷ d else (j, w) ∷ insert k v d

  -- d.pop(k, None)
  unfoldable pub erase : String → Dict V → Dict V
  erase k [] = []
  erase k ((j, v) ∷ d) = let rest = erase k d in if j == k then rest else (j, v) ∷ rest

  -- {k: v for k, v in d.items() if p v}; a key that is left out is left out altogether
  unfoldable pub filter : (V → Bool) → Dict V → Dict V
  unfolding erase
  filter p [] = []
  filter p ((j, v) ∷ d) = let rest = filter p d in if p v then (j, v) ∷ rest else erase j rest

  -- {**d, **e}
  unfoldable pub merge : Dict V → Dict V → Dict V
  unfolding insert
  merge d [] = d
  merge d ((k, v) ∷ e) = merge (insert k v d) e

  pub lookup-insert :
      (k j : String) (v : V) (d : Dict V)
      → lookup j (insert k v d) ≡ (if k == j then some v else lookup j d)
  unfolding lookup insert
  lookup-insert k j v [] = refl
  lookup-insert k j v ((i, w) ∷ d) =
      ground (arith, eq_iff k j, eq_iff i k, eq_iff i j, lookup-insert k j v d)

  pub lookup-erase :
      (k j : String) (d : Dict V) → lookup j (erase k d) ≡ (if k == j then none else lookup j d)
  unfolding lookup erase
  lookup-erase k j [] = ground arith
  lookup-erase k j ((i, v) ∷ d) =
      ground (arith, lookup-erase k j d, eq_iff i k, eq_iff i j, eq_iff k j)

  abbrev pub keep : (V → Bool) → Option V → Option V
  keep p none = none
  keep p (some v) = if p v then some v else none

  pub lookup-filter :
      (p : V → Bool) (j : String) (d : Dict V) → lookup j (filter p d) ≡ keep p (lookup j d)
  unfolding lookup filter
  lookup-filter p j [] = refl
  lookup-filter p j ((i, v) ∷ d) =
      ground (arith, lookup-filter p j d, lookup-erase i j (filter p d), eq_iff i j)

  pub lookup-insert_self : (k : String) (v : V) (d : Dict V) → lookup k (insert k v d) ≡ some v
  lookup-insert_self k v d = simp (lookup-insert, eq_refl)

  -- A property of every item of a dict, shadowed ones included.
  abbrev pub AllItems {κ} : (String → V → Type κ) → Dict V → Type κ
  AllItems P = All (λ e. P e.0 e.1)

  pub AllItems-insert {κ} :
      (P : String → V → Type κ) (k : String) (v : V) (d : Dict V)
      → P k v
      → AllItems P d
      → AllItems P (insert k v d)
  unfolding insert
  AllItems-insert P k v [] h a = (h, tt)
  AllItems-insert P k v ((j, w) ∷ d) h a = elim (Bool-cases (j == k)) [
    | inl e ↦ rw e (h, a.1)
    | inr e ↦ rw e (a.0, AllItems-insert P k v d h a.1)
  ]

  pub AllItems-erase {κ} :
      (P : String → V → Type κ) (k : String) (d : Dict V) → AllItems P d → AllItems P (erase k d)
  unfolding erase
  AllItems-erase P k [] a = tt
  AllItems-erase P k ((j, w) ∷ d) a = elim (Bool-cases (j == k)) [
    | inl e ↦ rw e (AllItems-erase P k d a.1)
    | inr e ↦ rw e (a.0, AllItems-erase P k d a.1)
  ]

  -- What is left by a filter has the property still, and passes the test.
  pub AllItems-filter {κ} :
      (P : String → V → Type κ) (p : V → Bool) (d : Dict V)
      → AllItems P d
      → AllItems (λ k v. P k v × (p v ≡ true)) (filter p d)
  unfolding filter
  AllItems-filter P p [] a = tt
  AllItems-filter P p ((j, w) ∷ d) a = elim (Bool-cases (p w)) [
    | inl e ↦ rw e ((a.0, e), AllItems-filter P p d a.1)
    | inr e ↦ rw e (AllItems-erase _ j (filter p d) (AllItems-filter P p d a.1))
  ]

  pub AllItems-lookup {κ} :
      (P : String → V → Type κ) (k : String) (v : V) (d : Dict V)
      → AllItems P d
      → lookup k d ≡ some v
      → P k v
  unfolding lookup
  AllItems-lookup P k v [] a e = cc
  AllItems-lookup P k v ((j, w) ∷ d) a e = elim (Bool-cases (j == k)) [
    | inl q ↦
        let same : w ≡ v = cc (rw q at e) in
        subst (λ x. P k x) same (subst (λ x. P x w) ((eq_iff j k).0 q) a.0)
    | inr q ↦ AllItems-lookup P k v d a.1 (rw q at e)
  ]

-- No key stands twice, as in every Python dict.
abbrev pub IsUnique {ℓ} : {V : Type ℓ} → Dict V → Type ℓ
IsUnique [] = Unit
IsUnique ((k, v) ∷ d) = (lookup k d ≡ none) × IsUnique d

module _ {ℓ} {V : Type ℓ} where
  pub insert-IsUnique : (k : String) (v : V) (d : Dict V) → IsUnique d → IsUnique (insert k v d)
  unfolding insert lookup
  insert-IsUnique k v [] u = (refl, tt)
  insert-IsUnique k v ((j, w) ∷ d) u = elim (Bool-cases (j == k)) [
    | inl e ↦ rw e (subst (λ x. lookup x d ≡ none) ((eq_iff j k).0 e) u.0, u.1)
    | inr e ↦ rw e (
      ground (arith, lookup-insert k j v d, eq_iff j k, eq_iff k j, u.0),
      insert-IsUnique k v d u.1,
    )
  ]

  pub erase-IsUnique : (k : String) (d : Dict V) → IsUnique d → IsUnique (erase k d)
  unfolding erase
  erase-IsUnique k [] u = tt
  erase-IsUnique k ((j, w) ∷ d) u = elim (Bool-cases (j == k)) [
    | inl e ↦ rw e (erase-IsUnique k d u.1)
    | inr e ↦ rw e (ground (arith, lookup-erase k j d, u.0), erase-IsUnique k d u.1)
  ]

  lookup-filter-none :
      (p : V → Bool) (k : String) (d : Dict V) → lookup k d ≡ none → lookup k (filter p d) ≡ none
  lookup-filter-none p k d h = rw lookup-filter (rw h)

  pub filter-IsUnique : (p : V → Bool) (d : Dict V) → IsUnique d → IsUnique (filter p d)
  unfolding filter
  filter-IsUnique p [] u = tt
  filter-IsUnique p ((j, w) ∷ d) u = elim (Bool-cases (p w)) [
    | inl e ↦ rw e (lookup-filter-none p j d u.0, filter-IsUnique p d u.1)
    | inr e ↦ rw e (erase-IsUnique j (filter p d) (filter-IsUnique p d u.1))
  ]

  -- Adding an entry of another key changes no look-up of the items.
  All-lookup-cons :
      (k : String) (v : V) (d e : Dict V)
      → lookup k e ≡ none
      → All (λ i. lookup i.0 d ≡ some i.1) e
      → All (λ i. lookup i.0 ((k, v) ∷ d) ≡ some i.1) e
  unfolding lookup
  All-lookup-cons k v d [] fresh a = tt
  All-lookup-cons k v d ((j, w) ∷ e) fresh a = elim (Bool-cases (j == k)) [
    | inl q ↦ cc (rw q at fresh)
    | inr q ↦
        (ground (arith, eq_iff j k, eq_iff k j, a.0), All-lookup-cons k v d e (rw q at fresh) a.1)
  ]

  -- Every item of a dict is what its key finds.
  pub All-items_lookup : (d : Dict V) → IsUnique d → All (λ i. lookup i.0 d ≡ some i.1) d
  unfolding lookup
  All-items_lookup [] u = tt
  All-items_lookup ((k, v) ∷ d) u =
      (rw (eq_refl k), All-lookup-cons k v d d u.0 (All-items_lookup d u.1))

  -- A write at a key that is not among the items changes no look-up of them.
  pub All-lookup-insert :
      (k : String) (v : V) (d e : Dict V)
      → lookup k e ≡ none
      → All (λ i. lookup i.0 d ≡ some i.1) e
      → All (λ i. lookup i.0 (insert k v d) ≡ some i.1) e
  unfolding lookup
  All-lookup-insert k v d [] fresh a = tt
  All-lookup-insert k v d ((j, w) ∷ e) fresh a = elim (Bool-cases (j == k)) [
    | inl q ↦ cc (rw q at fresh)
    | inr q ↦ (
      ground (arith, lookup-insert k j v d, eq_iff j k, eq_iff k j, a.0),
      All-lookup-insert k v d e (rw q at fresh) a.1,
    )
  ]

pub ruleset dict_laws = (lookup-insert, lookup-erase, lookup-filter, eq_refl)
