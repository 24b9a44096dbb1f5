-- ===== src/ClusterController/Endpoint/Fallback.antt =====
-- The endpoint that is taken from a machine pool entry where there is no free IP.
use cluster_api_provider_hyp.Base.{
  codes, ◌≡◌, refl, ◌∙◌, ◌⊎◌, List, [], ◌∷◌, Option, none, some, done, panicked, Scoped,
  Option-cases, inl, inr, get_elem?, must, ◌>>=◌,
}
use cluster_api_provider_hyp.Base.Split.{split}
use cluster_api_provider_hyp.Base.Sequencing.{>>=_same, must_same}
use cluster_api_provider_hyp.Api.{
  value_or, Key, Labels, HyperCluster, HyperMachinePool, stored_label, insert, lookup-insert,
  label_cluster_name, IsConsistent, patch_same_label, pool_with_labels, label_cluster_role_master,
}
use cluster_api_provider_hyp.Scope.{ClusterScope}
use cluster_api_provider_hyp.ClusterController.Endpoint.{valid_selector, get_api_endpoint_from_hmp}

module _ {World : Type 0} (scope : ClusterScope World) where
  -- The entry as it is sent to be set aside for the control plane.
  abbrev pub set_aside : HyperMachinePool → Labels → HyperMachinePool
  set_aside p m = pool_with_labels p (insert label_cluster_role_master [] m)

  from_hmp-nil :
      (s : Scoped World HyperCluster)
      → value_or (scope.client.pools.list s.world valid_selector) [] ≡ []
      → get_api_endpoint_from_hmp scope s ≡ (done [], s)
  unfolding get_api_endpoint_from_hmp
  from_hmp-nil s e = simp e

  from_hmp-panics :
      (s : Scoped World HyperCluster) (p : HyperMachinePool) (rest : List HyperMachinePool)
      → value_or (scope.client.pools.list s.world valid_selector) [] ≡ p ∷ rest
      → p.meta.labels ≡ none
      → get_api_endpoint_from_hmp scope s ≡ (panicked, s)
  unfolding get_api_endpoint_from_hmp
  from_hmp-panics s p rest e l = simp (e, l)

  from_hmp-some :
      (s : Scoped World HyperCluster) (p : HyperMachinePool) (rest : List HyperMachinePool)
      (m : Labels)
      → value_or (scope.client.pools.list s.world valid_selector) [] ≡ p ∷ rest
      → p.meta.labels ≡ some m
      → get_api_endpoint_from_hmp scope s
        ≡ (must p.spec.ssh >>= λ info. must (get_elem? (split info.address (codes ":")) 0))
            (record s { world = (scope.client.pools.patch s.world p (set_aside p m)).1 })
  unfolding get_api_endpoint_from_hmp
  from_hmp-some s p rest m e l = simp (e, l)

List-cases : {A : Type 0} (l : List A) → (l ≡ []) ⊎ ((x : A) × (r : List A) × (l ≡ x ∷ r))
List-cases [] = inl refl
List-cases (x ∷ r) = inr (x, r, refl)

module _ {World : Type 0} (scope : ClusterScope World)
    (stored : World → Key → Option HyperMachinePool)
    (consistent : IsConsistent (λ (p : HyperMachinePool). p.meta) scope.client.pools stored) where
  -- The name of the cluster that holds an entry is not touched, for any entry.
  pub get_api_endpoint_from_hmp_label :
      (s : Scoped World HyperCluster) (k : Key)
      → stored_label
          (λ (p : HyperMachinePool). p.meta)
          (stored (get_api_endpoint_from_hmp scope s).1.world k)
          label_cluster_name
        ≡ stored_label (λ (p : HyperMachinePool). p.meta) (stored s.world k) label_cluster_name
  get_api_endpoint_from_hmp_label s k =
      elim (List-cases (value_or (scope.client.pools.list s.world valid_selector) [])) [
        | inl e ↦ rw (from_hmp-nil scope s e) refl
        | inr (p, rest, e) ↦ elim (Option-cases p.meta.labels) [
          | inl nil ↦ rw (from_hmp-panics scope s p rest e nil) refl
          | inr (m, labels) ↦
              let at_k = λ (t : Scoped World HyperCluster).
                stored_label (λ (x : HyperMachinePool). x.meta) (stored t.world k)
                  label_cluster_name in
              let patched = (scope.client.pools.patch s.world p (set_aside scope p m)).1 in
              rw (from_hmp-some scope s p rest m e labels) (
                >>=_same at_k (must p.spec.ssh)
                  (λ info. must (get_elem? (split info.address (codes ":")) 0))
                  (record s { world = patched })
                  (must_same at_k p.spec.ssh (record s { world = patched }))
                  (λ info t. must_same at_k (get_elem? (split info.address (codes ":")) 0) t)
                ∙ patch_same_label (λ (x : HyperMachinePool). x.meta) scope.client.pools stored
                    consistent s.world p (set_aside scope p m) label_cluster_name k
                    (rw labels (lookup-insert label_cluster_name label_cluster_role_master [] m)))
        ]
      ]
