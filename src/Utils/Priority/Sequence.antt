-- ===== src/Utils/Priority/Sequence.antt =====
-- The priorities of all control-plane machines of a cluster.
use cluster_api_provider_hyp.Base.{
  ℕ, zero, suc, ◌+◌, ◌-◌, ◌≤◌, ◌<◌, Bytes, codes, ◌≡◌, ◌≢◌, refl, ap, ◌∙◌, List, [], ◌∷◌, All,
  Option, none, some, arith, M, pure, done, ◌>>=◌, Option-cases, inl, inr,
}
use cluster_api_provider_hyp.Base.Decimal.{pos, itoa}
use cluster_api_provider_hyp.Base.Distinct.{Distinct}
use cluster_api_provider_hyp.Api.{
  Client, value, Key, Labels, label?, Cluster, HyperCluster, HyperIpPool, IsConsistent,
  stored_label, key_of, lookup, label_hyper_ip_pool, label_hyper_ip_pool_name,
}
use cluster_api_provider_hyp.Utils.Priority.{hip_num2_pri}
use cluster_api_provider_hyp.Utils.Priority.Order.{counted, itoa-injective, hip_num2_pri-IsNext}

-- The priorities of `k` machines from a counter at `n` on.
abbrev pub descending : ℕ → ℕ → List Bytes
descending n zero = []
descending n (suc k) = itoa (pos (100 - n)) ∷ descending (n + 1) k

zero_text : codes "0" ≡ itoa (pos 0)
unfolding codes itoa
zero_text = refl

-- A priority above the first of the list is not in the list.
above :
    (k a n : ℕ) → 100 < a + n → a ≤ 100 → n + k ≤ 101 → All (λ q. itoa (pos a) ≢ q) (descending n k)
above zero a n big small fits = tt
above (suc k) a n big small fits = (
  λ e. absurd (omega (arith, itoa-injective a (100 - n) (omega arith) (omega arith) e)),
  above k a (n + 1) (omega arith) small (omega arith),
)

descending-Distinct : (k n : ℕ) → n + k ≤ 101 → Distinct (descending n k)
descending-Distinct zero n fits = tt
descending-Distinct (suc k) n fits = (
  above k (100 - n) (n + 1) (omega arith) (omega arith) (omega arith),
  descending-Distinct k (n + 1) (omega arith),
)

-- An object that has a label is stored, with a label map.
labelled :
    (o : Option HyperIpPool) (v : Bytes)
    → stored_label (λ (x : HyperIpPool). x.meta) o label_hyper_ip_pool ≡ some v
    → (hip : HyperIpPool) × (m : Labels) × (o ≡ some hip)
      × (hip.meta.labels ≡ some m)
      × (lookup label_hyper_ip_pool m ≡ some v)
labelled none v e = absurd (ground arith)
labelled (some hip) v e = elim (Option-cases hip.meta.labels) [
  | inl nil ↦ absurd (ground arith)
  | inr (m, has) ↦ (hip, m, refl, has, rw has at e)
]

module _ {World : Type 0} (client : Client World) (cluster : Cluster) (hc : HyperCluster) where
  -- As many control-plane machines as wanted ask for a priority, one after another.
  pub ask_all : ℕ → M World (List Bytes)
  ask_all zero = pure []
  ask_all (suc k) = do
    priority ← hip_num2_pri client cluster hc
    rest ← ask_all k
    pure (priority ∷ rest)

  ask_all-suc :
      (k : ℕ) (w w1 w2 : World) (p : Bytes) (ps : List Bytes)
      → hip_num2_pri client cluster hc w ≡ (done p, w1)
      → ask_all k w1 ≡ (done ps, w2)
      → ask_all (suc k) w ≡ (done (p ∷ ps), w2)
  unfolding ask_all
  ask_all-suc k w w1 w2 p ps first rest = rw first (rw rest refl)

module _ {World : Type 0} (client : Client World) (cluster : Cluster) (hc : HyperCluster)
    (stored : World → Key → Option HyperIpPool)
    (consistent : IsConsistent (λ (x : HyperIpPool). x.meta) client.ip_pools stored) where
  abbrev pub counter_at : Bytes → World → Option Bytes
  counter_at val w =
      stored_label (λ (x : HyperIpPool). x.meta)
        (stored w (record { namespace = cluster.meta.namespace; name = val })) label_hyper_ip_pool

  sequence :
      (k n : ℕ) (w : World) (val : Bytes)
      → label? label_hyper_ip_pool_name hc.meta.labels ≡ some val
      → ((w : World) (old new : HyperIpPool)
          → stored w (key_of new.meta) ≡ some old
          → (r : HyperIpPool) × (w' : World) × (client.ip_pools.patch w old new ≡ (value r, w')))
      → counter_at val w ≡ some (itoa (pos n))
      → n + k ≤ 101
      → (w' : World) × (ask_all client cluster hc k w ≡ (done (descending n k), w'))
        × (counter_at val w' ≡ some (itoa (pos (n + k))))
  unfolding ask_all
  sequence zero n w val named accepts at_n fits =
      (w, refl, at_n ∙ ap (λ j. some (itoa (pos j))) (omega arith))
  sequence (suc k) n w val named accepts at_n fits =
      let key : Key = record { namespace = cluster.meta.namespace; name = val } in
      let (hip, m, here, labels, number) = labelled (stored w key) (itoa (pos n)) at_n in
      let at_key : key_of hip.meta ≡ key = consistent.stored_key w key here in
      let stored_here : stored w (key_of hip.meta) ≡ some hip = (rw at_key here) in
      let (r, w1, patched) = accepts w hip (counted client cluster hc hip m n) stored_here in
      let (ran, first, next_number) =
        hip_num2_pri-IsNext client cluster hc stored consistent w n val {m = m} named at_key
          stored_here labels number (omega arith) patched in
      let (w2, rest, last) =
        sequence k (n + 1) w1 val named accepts (rw at_key at next_number) (omega arith) in
      (
        w2,
        ask_all-suc client cluster hc k w w1 w2 _ _ ran rest,
        last ∙ ap (λ j. some (itoa (pos j))) (omega arith),
      )

  -- Of a cluster whose IP was just claimed, with the counter "0", the first k control-plane machines,
  -- at most 101, get the priorities 100, 99 and so on, where the server accepts every patch of a
  -- stored IP; no two of them get the same, and the counter ends at k.
  pub ask_all-Distinct :
      (k : ℕ) (w : World) (val : Bytes)
      → label? label_hyper_ip_pool_name hc.meta.labels ≡ some val
      → ((w : World) (old new : HyperIpPool)
          → stored w (key_of new.meta) ≡ some old
          → (r : HyperIpPool) × (w' : World) × (client.ip_pools.patch w old new ≡ (value r, w')))
      → counter_at val w ≡ some (codes "0")
      → k ≤ 101
      → Distinct (descending 0 k)
        × ((w' : World) × (ask_all client cluster hc k w ≡ (done (descending 0 k), w'))
            × (counter_at val w' ≡ some (itoa (pos k))))
  ask_all-Distinct k w val named accepts at_zero fits =
      let (w', ran, last) =
        sequence k 0 w val named accepts (at_zero ∙ ap some zero_text) (omega arith) in
      (
        descending-Distinct k 0 (omega arith),
        (w', ran, last ∙ ap (λ j. some (itoa (pos j))) (omega arith)),
      )
