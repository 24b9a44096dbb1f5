-- ===== src/PoolController/Ips/Labelled.antt =====
-- The counter label of an IP pool entry.
use cluster_api_provider_hyp.Base.{Bytes, ◌≡◌, refl, ap, ◌∙◌, [], ◌∷◌, some, Option-cases, inl, inr}
use cluster_api_provider_hyp.Api.{
  HyperIpPool, Labels, label?, lookup, insert, lookup-insert_self, text_or_empty,
  label_hyper_ip_pool,
}
use cluster_api_provider_hyp.PoolController.Ips.{init_ip_pool}

init_labelled :
    (hip : HyperIpPool) (m : Labels) {v : Bytes}
    → hip.meta.labels ≡ some m
    → lookup label_hyper_ip_pool m ≡ some v
    → init_ip_pool hip ≡ hip
unfolding init_ip_pool
init_labelled hip m e h = simp (e, h, init_ip_pool)

labelled :
    (hip : HyperIpPool)
    → (m : Labels) × ((init_ip_pool hip).meta.labels ≡ some m)
      × (lookup label_hyper_ip_pool m
          ≡ some (text_or_empty (label? label_hyper_ip_pool hip.meta.labels)))
unfolding init_ip_pool
labelled hip = elim (Option-cases hip.meta.labels) [
  | inl nil ↦
      ((label_hyper_ip_pool, []) ∷ [], simp (nil, init_ip_pool), rw nil (unfold lookup in refl))
  | inr (m, e) ↦ elim (Option-cases (lookup label_hyper_ip_pool m)) [
    | inl missing ↦ (
      insert label_hyper_ip_pool [] m,
      simp (e, missing, init_ip_pool),
      rw (e, missing) (lookup-insert_self label_hyper_ip_pool [] m),
    )
    | inr (v, has) ↦ (m, simp (e, has, init_ip_pool), simp (e, has))
  ]
]

-- After its initialisation an IP pool entry has the counter label, with the value that it had, or
-- empty if it had none; a second initialisation changes nothing.
pub init_ip_pool-IsIdempotent :
    (hip : HyperIpPool)
    → (label? label_hyper_ip_pool (init_ip_pool hip).meta.labels
        ≡ some (text_or_empty (label? label_hyper_ip_pool hip.meta.labels)))
      × (init_ip_pool (init_ip_pool hip) ≡ init_ip_pool hip)
init_ip_pool-IsIdempotent hip =
    let (m, labels, has) = labelled hip in
    (ap (label? label_hyper_ip_pool) labels ∙ has, init_labelled (init_ip_pool hip) m labels has)
