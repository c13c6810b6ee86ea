-- ===== src/Cluster/Affinity.antt =====
-- rawfile/orchestrator/k8s.py: the node that a volume is bound to, from the affinity of its
-- persistent volume. The records are those of the Kubernetes API, as far as they are read or compared.
use rawfile_localpv.Prelude.{
  ◌≡◌, ◌↔◌, eq_iff, str_eq, refl, ap, ◌∙◌, Bool, true, false, Option, none, some, List, [], ◌∷◌,
  String,
}
use rawfile_localpv.Errors.{
  Result, ok, err, attribute_error, type_error, index_error, assertion_error,
}

pub record NodeSelectorRequirement : Type 0 where
  pub key : String
  pub operator : String
  pub values : Option (List String)

pub record NodeSelectorTerm : Type 0 where
  pub match_expressions : Option (List NodeSelectorRequirement)
  pub match_fields : Option (List NodeSelectorRequirement)

pub record VolumeNodeAffinity : Type 0 where
  pub required : Option (List NodeSelectorTerm)

decided : {A : Type 0} (b : Bool) → (b ≡ true) ↔ A → Dec A
decided true h = yes (h.0 refl)
decided false h = no (λ a. let e : false ≡ true = h.1 a in cc)

string_discrete : Discrete String
string_discrete = λ a b. decided (str_eq a b) (eq_iff a b)

requirement_discrete : Discrete NodeSelectorRequirement
requirement_discrete = hlevel string_discrete

term_discrete : Discrete NodeSelectorTerm
term_discrete = hlevel requirement_discrete

pub affinity_discrete : Discrete VolumeNodeAffinity
affinity_discrete = hlevel term_discrete

-- An affinity to the one node `node_name`.
unfoldable pub node_affinity : String → VolumeNodeAffinity
node_affinity node_name = record {
  required = some (
      record {
        match_expressions =
            some
              (record { key = "hostname"; operator = "In"; values = some (node_name ∷ []) } ∷ []);
        match_fields = none;
      }
      ∷ []);
}

-- `xs[0]`, where `xs` may be missing.
unfoldable pub first : {A : Type 0} → Option (List A) → Result A
first none = err type_error
first (some []) = err index_error
first (some (x ∷ xs)) = ok x

-- `required.nodeSelectorTerms[0]`, where `required` may be missing.
unfoldable pub first_term : VolumeNodeAffinity → Result NodeSelectorTerm
first_term a = elim a.required [ none ↦ err attribute_error | some terms ↦ first (some terms) ]

unfoldable pub first_value : VolumeNodeAffinity → Result String
first_value a = elim (first_term a) [
  | err x ↦ err x
  | ok term ↦ elim (first term.match_expressions) [ err x ↦ err x | ok e ↦ first e.values ]
]

-- The `assert` on the affinity that is expected.
abbrev pub asserted : {A : Type 0} → Dec A → String → Result String
asserted (yes _) node_name = ok node_name
asserted (no _) node_name = err assertion_error

unfoldable pub as_expected : VolumeNodeAffinity → String → Result String
as_expected a node_name = asserted (affinity_discrete a (node_affinity node_name)) node_name

-- What `volume_to_node` makes of the affinity of the volume, which may be missing.
unfoldable pub node_of : Option VolumeNodeAffinity → Result String
node_of none = err attribute_error
node_of (some a) = elim (first_value a) [ err x ↦ err x | ok node_name ↦ as_expected a node_name ]

asserted_iff : {A : Type 0} (d : Dec A) (m n : String) → (asserted d m ≡ ok n) ↔ (A × (m ≡ n))
asserted_iff (yes e) m n = (λ h. (e, cc), λ h. ap ok h.1)
asserted_iff (no d) m n = (λ h. cc, λ h. absurd (d h.0))

as_expected_iff :
    (a : VolumeNodeAffinity) (m n : String)
    → (as_expected a m ≡ ok n) ↔ ((a ≡ node_affinity m) × (m ≡ n))
unfolding as_expected
as_expected_iff a m n = asserted_iff (affinity_discrete a (node_affinity m)) m n

node_of-affinity : (n : String) → node_of (some (node_affinity n)) ≡ ok n
unfolding node_of first_value first_term first node_affinity
node_of-affinity n = (as_expected_iff (node_affinity n) n n).1 (refl, refl)

-- What is known of the answer once a value was found.
checked_sound :
    (a : VolumeNodeAffinity) (r : Result String) (n : String)
    → elim r [ err x ↦ err x | ok m ↦ as_expected a m ] ≡ ok n
    → a ≡ node_affinity n
checked_sound a (err x) n h = cc
checked_sound a (ok m) n h =
    let both = (as_expected_iff a m n).0 h in both.0 ∙ ap node_affinity both.1

-- The answer is a node exactly when the volume has the affinity to that node and no other, with no
-- further term, expression, value or field: of every other affinity an exception is raised.
pub node_of_iff :
    (a : Option VolumeNodeAffinity) (n : String) → (node_of a ≡ ok n) ↔ (a ≡ some (node_affinity n))
unfolding node_of
node_of_iff none n = (λ h. cc, λ h. cc)
node_of_iff (some a) n =
    (λ h. ap some (checked_sound a (first_value a) n h), λ e. ap node_of e ∙ node_of-affinity n)
