-- ===== src/MachineController/Acquire/Free.antt =====
-- Which pool entry `getHyperMachinePool` chooses.
use cluster_api_provider_hyp.Base.{
  codes, ◌≡◌, ◌≢◌, refl, true, List, [], ◌∷◌, Option, none, some, arith,
}
use cluster_api_provider_hyp.Api.{
  Client, Result, value, fault, Key, Labels, HyperMachinePool, label?, matches, matches-cons,
  matches-nil, IsConsistent, key_of, label_hyper_machine_pool_valid, label_cluster_role_master,
  label_cluster_name,
}
use cluster_api_provider_hyp.MachineController.Acquire.{
  free_master_selector, free_selector, choose_pool,
}

-- An entry whose SSH data is valid and that no cluster has adopted.
abbrev pub IsFree : HyperMachinePool → Type 0
IsFree p =
    (label? label_hyper_machine_pool_valid p.meta.labels ≡ some (codes "true"))
    × (label? label_cluster_name p.meta.labels ≡ some [])

-- An entry that `getAPIEndpointfromHmp` or a user set aside for the control plane.
abbrev pub IsMaster : HyperMachinePool → Type 0
IsMaster p = label? label_cluster_role_master p.meta.labels ≡ some []

matches-IsFree : (p : HyperMachinePool) → matches free_selector p.meta.labels ≡ true → IsFree p
matches-IsFree p h =
    let (valid, rest) = (matches-cons _ _ _ p.meta.labels).0 h in
    (valid, ((matches-cons _ _ _ p.meta.labels).0 rest).0)

free_matches : (p : HyperMachinePool) → IsFree p → matches free_selector p.meta.labels ≡ true
free_matches p (valid, unused) =
    (matches-cons _ _ _ p.meta.labels).1
      (valid, (matches-cons _ _ _ p.meta.labels).1 (unused, matches-nil _))

matches-IsFree-IsMaster :
    (p : HyperMachinePool)
    → matches free_master_selector p.meta.labels ≡ true
    → IsFree p × IsMaster p
matches-IsFree-IsMaster p h =
    let (valid, rest) = (matches-cons _ _ _ p.meta.labels).0 h in
    let (master, last) = (matches-cons _ _ _ p.meta.labels).0 rest in
    ((valid, ((matches-cons _ _ _ p.meta.labels).0 last).0), master)

free_master_matches :
    (p : HyperMachinePool)
    → IsFree p
    → IsMaster p
    → matches free_master_selector p.meta.labels ≡ true
free_master_matches p (valid, unused) master = (matches-cons _ _ _ p.meta.labels).1 (
  valid,
  (matches-cons _ _ _ p.meta.labels).1
      (master, (matches-cons _ _ _ p.meta.labels).1 (unused, matches-nil _)),
)

module _ {World : Type 0} (client : Client World) (stored : World → Key → Option HyperMachinePool)
    (consistent : IsConsistent (λ (p : HyperMachinePool). p.meta) client.pools stored) where
  -- What the first element of a list is, by the law on lists.
  listed :
      (w : World) (sel : Labels) (p : HyperMachinePool) (rest : List HyperMachinePool)
      → client.pools.list w sel ≡ value (p ∷ rest)
      → (stored w (key_of p.meta) ≡ some p) × (matches sel p.meta.labels ≡ true)
  listed w sel p rest e = (consistent.list_sound w sel e).0

  chosen :
      (w : World) (masters others : Result (List HyperMachinePool)) {p : HyperMachinePool}
      → client.pools.list w free_master_selector ≡ masters
      → client.pools.list w free_selector ≡ others
      → choose_pool client w ≡ some p
      → (stored w (key_of p.meta) ≡ some p) × IsFree p
  unfolding choose_pool
  chosen w (value (q ∷ rest)) others em eo h =
      ground (arith, listed w free_master_selector q rest em, matches-IsFree-IsMaster q)
  chosen w (value []) (value (q ∷ rest)) em eo h =
      ground (arith, listed w free_selector q rest eo, matches-IsFree q)
  chosen w (fault e) (value (q ∷ rest)) em eo h =
      ground (arith, listed w free_selector q rest eo, matches-IsFree q)
  chosen w (value []) (value []) em eo h = ground arith
  chosen w (value []) (fault e) em eo h = ground arith
  chosen w (fault e) (value []) em eo h = ground arith
  chosen w (fault e) (fault d) em eo h = ground arith

  -- The entry that is chosen is stored, its SSH data is valid and no cluster has adopted it.
  pub choose_pool-IsFree :
      (w : World) {p : HyperMachinePool}
      → choose_pool client w ≡ some p
      → (stored w (key_of p.meta) ≡ some p) × IsFree p
  choose_pool-IsFree w h = chosen w _ _ refl refl h

  -- Where the list of free entries succeeds, an entry is chosen if a free one is stored.
  pub choose_pool-ne-none :
      (w : World) (k : Key) {p : HyperMachinePool} {found : List HyperMachinePool}
      → client.pools.list w free_selector ≡ value found
      → stored w k ≡ some p
      → IsFree p
      → choose_pool client w ≢ none
  unfolding choose_pool
  choose_pool-ne-none w k {p} {found} e at_k free =
      ground (arith, consistent.list_complete w free_selector k at_k (free_matches p free))

  -- Where the list of free control-plane entries succeeds and such an entry is stored, the entry
  -- that is chosen is one for the control plane.
  pub choose_pool-IsMaster :
      (w : World) (k : Key) {m p : HyperMachinePool} (found : List HyperMachinePool)
      → client.pools.list w free_master_selector ≡ value found
      → stored w k ≡ some m
      → IsFree m
      → IsMaster m
      → choose_pool client w ≡ some p
      → IsMaster p
  unfolding choose_pool
  choose_pool-IsMaster w k {m} [] e at_k free master h =
      absurd (
        consistent.list_complete w free_master_selector k at_k (free_master_matches m free master)
          e)
  choose_pool-IsMaster w k (q ∷ rest) e at_k free master h =
      ground (arith, matches-IsFree-IsMaster q (listed w free_master_selector q rest e).1)
