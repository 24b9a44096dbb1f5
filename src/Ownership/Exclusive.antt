-- ===== src/Ownership/Exclusive.antt =====
-- No entry is held by two machines.
use cluster_api_provider_hyp.Base.{◌≡◌, ◌≢◌, sym, ap, ◌∙◌, List, [], ◌∷◌, Option, some, All, arith}
use cluster_api_provider_hyp.Base.Distinct.{
  Removed, here, later, All-mono, All-zip, Removed-All, Removed-ne, Removed-Distinct,
}
use cluster_api_provider_hyp.Api.{
  Client, value, Key, Labels, HyperMachine, HyperMachinePool, stored_label, key_of,
  label_cluster_name, IsConsistent, patch-stored, lookup-insert_self,
}
use cluster_api_provider_hyp.Scope.{MachineScope}
use cluster_api_provider_hyp.Utils.{Remote}
use cluster_api_provider_hyp.Utils.Ssh.Silent.{IsSilent}
use cluster_api_provider_hyp.MachineController.Acquire.{choose_pool}
use cluster_api_provider_hyp.MachineController.Acquire.Free.{choose_pool-IsFree}
use cluster_api_provider_hyp.MachineController.Acquire.Exclusive.{
  adopted, get_hyper_machine_pool-result,
}
use cluster_api_provider_hyp.MachineController.Release.{do_clean_hyper_machine_pool}
use cluster_api_provider_hyp.MachineController.Release.Freed.{ref_key}
use cluster_api_provider_hyp.MachineController.Release.Silent.{
  do_clean_hyper_machine_pool_elsewhere,
}
use cluster_api_provider_hyp.ClusterController.Endpoint.Fallback.{get_api_endpoint_from_hmp_label}
use cluster_api_provider_hyp.Ownership.{
  System, Holding, entries, cluster_label, Step, acquires, refused, frees, releases, sets_aside,
  other, Reach, start, next, IsTaken, IsOwned,
}

Removed-entries :
    {h : Holding} {l l' : List Holding} → Removed h l l' → Removed h.entry (entries l) (entries l')
Removed-entries (here l) = here (entries l)
Removed-entries (later j r) = later j.entry (Removed-entries r)

All-entries : (P : Key → Type 0) (l : List Holding) → All (λ h. P h.entry) l → All P (entries l)
All-entries P [] h = tt
All-entries P (x ∷ l) (p, ps) = (p, All-entries P l ps)

module _ {World Conn Session : Type 0} (remote : Remote World Conn Session) (client : Client World)
    (stored : World → Key → Option HyperMachinePool)
    (consistent : IsConsistent (λ (x : HyperMachinePool). x.meta) client.pools stored)
    (silent : IsSilent remote stored) where
  IsTaken-same :
      (w w' : World) (k : Key)
      → cluster_label stored w' k ≡ cluster_label stored w k
      → IsTaken stored w k
      → IsTaken stored w' k
  IsTaken-same w w' k same (name, labelled, named) = (name, same ∙ labelled, named)

  -- Where the world keeps the cluster labels, all entries that are held stay so.
  IsOwned-same :
      (s t : System World)
      → ((k : Key) → cluster_label stored t.world k ≡ cluster_label stored s.world k)
      → t.held ≡ s.held
      → IsOwned stored s
      → IsOwned stored t
  IsOwned-same s t same held owned = record {
    distinct = rw held owned.distinct;
    taken = rw held (
        All-mono (IsTaken stored s.world) (IsTaken stored t.world) (entries s.held)
          (λ k. IsTaken-same s.world t.world k (same k)) owned.taken);
  }

  -- An entry that is held is not the free one that is chosen.
  IsTaken-ne-free :
      (w : World) (k : Key) (p : HyperMachinePool)
      → choose_pool client w ≡ some p
      → IsTaken stored w k
      → key_of p.meta ≢ k
  IsTaken-ne-free w k p chosen (name, labelled, named) same =
      let (at_key, (valid, unused)) = choose_pool-IsFree client stored consistent w chosen in
      let at_k : stored w k ≡ some p = rw same at at_key in
      named (ground (arith, rw at_k at labelled, unused))

  -- The keys, as an abbreviation for the acquisition's proof.
  acquired :
      (s t : System World) (scope : MachineScope World) (hm : HyperMachine) (p r : HyperMachinePool)
      (m : Labels)
      → scope.client ≡ client
      → scope.cluster.meta.name ≢ []
      → choose_pool client s.world ≡ some p
      → client.pools.patch s.world p (adopted scope p m) ≡ (value r, t.world)
      → t.held ≡ record { machine = key_of hm.meta; entry = key_of p.meta } ∷ s.held
      → IsOwned stored s
      → IsOwned stored t
  acquired s t scope hm p r m same_client named chosen patched held owned =
      let (at_key, free) = choose_pool-IsFree client stored consistent s.world chosen in
      let elsewhere : (k : Key) → key_of p.meta ≢ k → stored t.world k ≡ stored s.world k = (λ k ne.
        consistent.patch_other s.world p (adopted scope p m) patched k (λ e. ne (sym e))) in
      let apart : All (λ k. key_of p.meta ≢ k) (entries s.held) =
        All-mono (IsTaken stored s.world) (λ k. key_of p.meta ≢ k) (entries s.held)
          (λ k. IsTaken-ne-free s.world k p chosen) owned.taken in
      rw held (record {
        distinct = (apart, owned.distinct);
        taken = (
          (
            scope.cluster.meta.name,
            patch-stored _ client.pools stored consistent s.world p (adopted scope p m)
                  label_cluster_name at_key patched
                ∙ lookup-insert_self label_cluster_name scope.cluster.meta.name m,
            named,
          ),
          All-zip (λ k. key_of p.meta ≢ k) (IsTaken stored s.world) (IsTaken stored t.world)
              (entries s.held)
              (λ k ne. IsTaken-same s.world t.world k (
                ap (λ o. stored_label (λ (x : HyperMachinePool). x.meta) o label_cluster_name)
                  (elsewhere k ne)))
              apart owned.taken,
        );
      })

  -- A machine that is deleted changes the label of no entry but its own.
  cleaned_elsewhere :
      (s t : System World) (hm : HyperMachine)
      → (do_clean_hyper_machine_pool remote client hm s.world).1 ≡ t.world
      → (k : Key) → k ≢ ref_key hm
      → cluster_label stored t.world k ≡ cluster_label stored s.world k
  cleaned_elsewhere s t hm ran k ne =
      ap (λ o. stored_label (λ (x : HyperMachinePool). x.meta) o label_cluster_name)
        (rw (sym ran) (
          do_clean_hyper_machine_pool_elsewhere remote client stored consistent silent hm k s.world
            ne))

  released :
      (s t : System World) (hm : HyperMachine)
      → (do_clean_hyper_machine_pool remote client hm s.world).1 ≡ t.world
      → Removed (record { machine = key_of hm.meta; entry = ref_key hm }) s.held t.held
      → IsOwned stored s
      → IsOwned stored t
  released s t hm ran removed owned =
      let given_back = Removed-entries removed in
      record {
        distinct = Removed-Distinct given_back owned.distinct;
        taken =
            All-zip (λ k. k ≢ ref_key hm) (IsTaken stored s.world) (IsTaken stored t.world)
              (entries t.held)
              (λ k ne. IsTaken-same s.world t.world k (cleaned_elsewhere s t hm ran k ne))
              (Removed-ne given_back owned.distinct)
              (Removed-All (IsTaken stored s.world) given_back owned.taken);
      }

  freed :
      (s t : System World) (hm : HyperMachine)
      → (do_clean_hyper_machine_pool remote client hm s.world).1 ≡ t.world
      → All (λ h. h.entry ≢ ref_key hm) s.held
      → t.held ≡ s.held
      → IsOwned stored s
      → IsOwned stored t
  freed s t hm ran apart held owned = record {
    distinct = rw held owned.distinct;
    taken = rw held (
        All-zip (λ k. k ≢ ref_key hm) (IsTaken stored s.world) (IsTaken stored t.world)
          (entries s.held)
          (λ k ne. IsTaken-same s.world t.world k (cleaned_elsewhere s t hm ran k ne))
          (All-entries (λ k. k ≢ ref_key hm) s.held apart) owned.taken);
  }

  consistent_of :
      (c : Client World)
      → c ≡ client
      → IsConsistent (λ (x : HyperMachinePool). x.meta) c.pools stored
  consistent_of c same = rw same consistent

  pub Step-IsOwned :
      (s t : System World) → Step remote client stored s t → IsOwned stored s → IsOwned stored t
  Step-IsOwned s t (acquires scope hm hm' p r m same_client named run labels patched held) owned =
      acquired s t scope hm p r m same_client named
        (rw same_client at
          (get_hyper_machine_pool-result scope (record { world = s.world; object = hm }) _ run))
        patched held owned
  Step-IsOwned s t (refused scope hm hm' p m e same_client run labels patched held) owned =
      IsOwned-same s t
        (λ k.
          ap (λ o. stored_label (λ (x : HyperMachinePool). x.meta) o label_cluster_name)
            (consistent.patch_refused s.world p (adopted scope p m) patched k))
        held owned
  Step-IsOwned s t (releases hm ran removed) owned = released s t hm ran removed owned
  Step-IsOwned s t (frees hm ran apart held) owned = freed s t hm ran apart held owned
  Step-IsOwned s t (sets_aside scope hc same_client ran held) owned =
      IsOwned-same s t
        (λ k. rw (sym ran) (
          get_api_endpoint_from_hmp_label scope stored (consistent_of scope.client same_client)
            (record { world = s.world; object = hc }) k))
        held owned
  Step-IsOwned s t (other same held) owned = IsOwned-same s t same held owned

  -- Over any sequence of acquisitions, of which the server accepts or refuses the adoption, of releases
  -- by machines that hold the entry they refer to or that refer to one which no machine holds, of endpoint
  -- choices and of actions that leave the cluster labels alone, from a state in which no entry is held by
  -- two machines and every entry that is held carries a cluster's name, the same is true ever after. A
  -- machine holds an entry from an adoption that the server accepts to its own release of it.
  pub Reach-IsOwned :
      (s t : System World) → Reach remote client stored s t → IsOwned stored s → IsOwned stored t
  Reach-IsOwned s t start owned = owned
  Reach-IsOwned s t (next {t = u} r st) owned = Step-IsOwned u t st (Reach-IsOwned s u r owned)
