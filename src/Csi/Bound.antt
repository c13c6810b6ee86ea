-- ===== src/Csi/Bound.antt =====
-- rawfile/rawfile_servicer.py: which node ControllerExpandVolume asks, over the API of Cluster/ and
-- a state of the nodes, which the call of ExpandRawFile changes.
use rawfile_localpv.Prelude.{
  ◌≡◌, refl, ap, ◌∙◌, Bool, true, false, Option, some, ℕ, String, Dict, lookup, if◌then◌else◌,
}
use rawfile_localpv.Errors.{Exception, Result, ok, err, aborted, resource_exhausted, api_error}
use rawfile_localpv.Exec.{Exec, ◌>>=◌, ◌>>◌, pure, raise_if, lift, or_raise, proceed, >>=-eq_of_ok}
use rawfile_localpv.Cluster.Affinity.{VolumeNodeAffinity, node_affinity, node_of, node_of_iff}
use rawfile_localpv.Cluster.ConfigMaps.{Api, request, volume_to_node}
use rawfile_localpv.Cluster.Pods.{get_node_ip}
use rawfile_localpv.Internal.Expand.{ExpandResponse}
use rawfile_localpv.Csi.Expansion.{
  ExpandVolumeRequest, ControllerExpandResponse, is_exhausted, needs_node, controller_expand_volume,
}

-- What the service makes of the answer of the node.
unfoldable pub reply : ExpandVolumeRequest → Result ExpandResponse → Result ControllerExpandResponse
reply r (err x) = err x
reply r (ok response) =
    if is_exhausted response.status
    then err (aborted resource_exhausted "Not enough disk space")
    else ok (record {
      capacity_bytes = r.required_bytes;
      node_expansion_required = needs_node r.access_type response;
    })

abbrev pub is_error : {A : Type 0} → Result A → Bool
is_error (ok a) = false
is_error (err x) = true

volume_to_node-eq :
    (v : String) (x : Option VolumeNodeAffinity) (a b : Api)
    → request a ≡ (ok tt, b)
    → lookup v b.volumes ≡ some x
    → volume_to_node v a ≡ (node_of x, b)
unfolding volume_to_node
volume_to_node-eq v x a b q l =
    >>=-eq_of_ok request
      (λ _ c. (or_raise (lookup v c.volumes) (api_error 404) >>= λ y. lift (node_of y)) c) q
    ∙ ap (λ o. (or_raise o (api_error 404) >>= λ y. lift (node_of y)) b) l

finished :
    {S A : Type 0} (c : Bool) (x : Exception) (a : A) (s : S)
    → (raise_if c x >> pure a) s ≡ (if c then err x else ok a, s)
finished true x a s = refl
finished false x a s = refl

module _ {N : Type 0} where
  abbrev pub beside : {A : Type 0} → N → Result A × Api → Result A × (Api × N)
  beside n (r, a) = (r, (a, n))

  abbrev pub on_api : {A : Type 0} → Exec Api A → Exec (Api × N) A
  on_api m s = beside s.1 (m s.0)

  abbrev pub after : {A : Type 0} → Api → Result A × N → Result A × (Api × N)
  after a (r, n) = (r, (a, n))

  abbrev pub on_nodes : {A : Type 0} → Exec N A → Exec (Api × N) A
  on_nodes m s = after s.0 (m s.1)

  module _ (mapping : Dict String) (expand : String → String → ℕ → Exec N ExpandResponse) where
    -- `ControllerExpandVolume` of a driver that may resize volumes.
    abbrev pub expand_volume : ExpandVolumeRequest → Exec (Api × N) ControllerExpandResponse
    expand_volume =
        controller_expand_volume true mapping (λ v. on_api (volume_to_node v))
          (λ ip v size. on_nodes (expand ip v size))

    abbrev conclude : ExpandVolumeRequest → ExpandResponse → Exec (Api × N) ControllerExpandResponse
    conclude r response =
        raise_if (is_exhausted response.status) (aborted resource_exhausted "Not enough disk space")
        >> pure (record {
          capacity_bytes = r.required_bytes;
          node_expansion_required = needs_node r.access_type response;
        })

    abbrev ask : ExpandVolumeRequest → String → Exec (Api × N) ControllerExpandResponse
    ask r ip = on_nodes (expand ip r.volume_id r.required_bytes) >>= conclude r

    abbrev ask_node : ExpandVolumeRequest → String → Exec (Api × N) ControllerExpandResponse
    ask_node r node_name = lift (get_node_ip node_name mapping) >>= ask r

    conclude-reply :
        (r : ExpandVolumeRequest) (b : Api) (answer : Result ExpandResponse) (m : N)
        → proceed (conclude r) (after b (answer, m)) ≡ (reply r answer, (b, m))
    unfolding reply
    conclude-reply r b (err x) m = refl
    conclude-reply r b (ok response) m = finished (is_exhausted response.status) _ _ (b, m)

    -- The node's name is known, and its address may be.
    expand_volume-named :
        (r : ExpandVolumeRequest) (x : Option VolumeNodeAffinity) (a b : Api) (n : N)
        {answer : Result String}
        → request a ≡ (ok tt, b)
        → lookup r.volume_id b.volumes ≡ some x
        → node_of x ≡ answer
        → expand_volume r (a, n) ≡ proceed (ask_node r) (answer, (b, n))
    unfolding controller_expand_volume
    expand_volume-named r x a b n q l e =
        ap (λ z. proceed (ask_node r) (beside n z))
          (volume_to_node-eq r.volume_id x a b q l ∙ ap (λ z. (z, b)) e)

    -- Without the name of a node, nothing is asked.
    refused :
        (r : ExpandVolumeRequest) (a b : Api) (n : N) (answer : Result String)
        → ((node : String) → ¬ (answer ≡ ok node))
        → expand_volume r (a, n) ≡ proceed (ask_node r) (answer, (b, n))
        → (is_error (expand_volume r (a, n)).0 ≡ true) × ((expand_volume r (a, n)).1 ≡ (b, n))
    refused r a b n (ok node) d e = absurd (d node refl)
    refused r a b n (err x) d e = (ap (λ z. is_error z.0) e, ap (λ z. z.1) e)

    abbrev pub answered :
        ExpandVolumeRequest → Result ExpandResponse × N → Result ControllerExpandResponse × N
    answered r (answer, m) = (reply r answer, m)

    -- A volume is expanded on the one node that its persistent volume is bound to.
    -- When the API answers and has the volume: if its affinity is the one to a node, and the node's
    -- address is known, the outcome is the node's answer, with a full disk turned into an error, and the
    -- nodes are left as that one call leaves them. If its affinity is missing or is any other, an
    -- exception is raised and no node is asked.
    pub expand_volume-asks_one :
        (r : ExpandVolumeRequest) (x : Option VolumeNodeAffinity) (a b : Api) (n : N)
        → request a ≡ (ok tt, b)
        → lookup r.volume_id b.volumes ≡ some x
        → ((node ip : String)
            → x ≡ some (node_affinity node)
            → get_node_ip node mapping ≡ ok ip
            → expand_volume r (a, n)
              ≡ after b (answered r (expand ip r.volume_id r.required_bytes n)))
          × (((node : String) → ¬ (x ≡ some (node_affinity node)))
              → (is_error (expand_volume r (a, n)).0 ≡ true)
                × ((expand_volume r (a, n)).1 ≡ (b, n)))
    expand_volume-asks_one r x a b n q l = (
      λ node ip e f.
          expand_volume-named r x a b n q l ((node_of_iff x node).1 e)
          ∙ ap (λ z. proceed (ask r) (z, (b, n))) f
          ∙ conclude-reply r b (expand ip r.volume_id r.required_bytes n).0
              (expand ip r.volume_id r.required_bytes n).1,
      λ d.
          refused r a b n (node_of x) (λ node e. d node ((node_of_iff x node).0 e))
            (expand_volume-named r x a b n q l refl),
    )
