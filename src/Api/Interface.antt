-- ===== src/Api/Interface.antt =====
-- The client of the API server (controller-runtime's `client.Client` and the cluster API's patch
-- helper and owner lookups), which the controllers call: a parameter, with the documented behaviour
-- that theorems rely on as laws. `World` is all that lies outside the program.
use cluster_api_provider_hyp.Base.{
  String, Bytes, Bool, ◌≡◌, ◌≢◌, true, List, [], Option, none, some, All, if◌then◌else◌, ◌⊎◌,
}
use cluster_api_provider_hyp.Api.LabelMap.{Labels, label?, value_eq, matches}
use cluster_api_provider_hyp.Api.Objects.{
  ObjectMeta, Key, HyperMachinePool, HyperIpPool, HyperCluster, HyperMachine, Cluster, Machine,
  key_of,
}

-- A Go `error`: `apierrors.IsNotFound` tells the two apart.
pub data Fault : Type 0 where
  not_found : Bytes → Fault
  failure : Bytes → Fault

-- `err.Error()`
abbrev pub message : Fault → Bytes
message (not_found text) = text
message (failure text) = text

-- `(value, error)`
pub data Result (A : Type 0) : Type 0 where
  value : A → Result A
  fault : Fault → Result A

-- A result whose error the caller drops: `old` is what the variable held before.
abbrev pub value_or : {A : Type 0} → Result A → A → A
value_or (value a) old = a
value_or (fault e) old = old

-- The operations on objects of one kind. `patch w old new` is `Patch(new, MergeFrom(old))`, and its
-- value is what the client decodes into `new`. `new_helper` is `patch.NewHelper`, which remembers the
-- object; `persist w old new` is that helper's `Patch`.
pub record Store (World X : Type 0) : Type 0 where
  pub get : World → Key → Result X
  pub list : World → Labels → Result (List X)
  pub patch : World → X → X → Result X × World
  pub new_helper : World → X → Option Fault
  pub persist : World → X → X → Option Fault × World

-- `controllerutil`'s operations on a list of finalizers.
pub record FinalizerOps : Type 0 where
  pub contains_finalizer : List Bytes → Bytes → Bool
  pub add_finalizer : List Bytes → Bytes → List Bytes
  pub remove_finalizer : List Bytes → Bytes → List Bytes

pub record Client (World : Type 0) : Type 0 where
  pub finalizer_ops : FinalizerOps
  pub pools : Store World HyperMachinePool
  pub ip_pools : Store World HyperIpPool
  pub hyper_machines : Store World HyperMachine
  pub hyper_clusters : Store World HyperCluster
  pub get_owner_machine : World → ObjectMeta → Result (Option Machine)
  pub get_owner_cluster : World → ObjectMeta → Result (Option Cluster)
  pub get_cluster_from_metadata : World → ObjectMeta → Result Cluster
  pub get_secret : World → Key → Result Labels

-- What is stored of one kind, as the laws speak of it.
abbrev pub stored_label : {X : Type 0} → (X → ObjectMeta) → Option X → String → Option Bytes
stored_label meta none k = none
stored_label meta (some x) k = label? k (meta x).labels

module _ {World X : Type 0} (meta : X → ObjectMeta) (store : Store World X) where
  -- A read sees the stored objects, each at its own key; a list has those that match, and some if
  -- there are any.
  pub record IsConsistent (stored : World → Key → Option X) : Type 0 where
    pub get_stored : (w : World) (k : Key) {x : X} → stored w k ≡ some x → store.get w k ≡ value x
    pub get_sound : (w : World) (k : Key) {x : X} → store.get w k ≡ value x → stored w k ≡ some x
    pub stored_key : (w : World) (k : Key) {x : X} → stored w k ≡ some x → key_of (meta x) ≡ k
    pub list_sound :
        (w : World) (sel : Labels) {xs : List X}
        → store.list w sel ≡ value xs
        → All (λ x. (stored w (key_of (meta x)) ≡ some x) × (matches sel (meta x).labels ≡ true)) xs
    pub list_complete :
        (w : World) (sel : Labels) (k : Key) {x : X}
        → stored w k ≡ some x
        → matches sel (meta x).labels ≡ true
        → store.list w sel ≢ value []
    -- A merge patch writes the labels that differ between the two objects, removed ones too, and
    -- leaves the other labels and the other objects alone.
    pub patch_labels :
        (w : World) (old new : X) {r : X} {w' : World}
        → store.patch w old new ≡ (value r, w')
        → (k : String)
        → stored_label meta (stored w' (key_of (meta new))) k ≡ (
            if value_eq (label? k (meta new).labels) (label? k (meta old).labels)
            then stored_label meta (stored w (key_of (meta new))) k
            else label? k (meta new).labels)
    pub patch_other :
        (w : World) (old new : X) {r : X} {w' : World}
        → store.patch w old new ≡ (value r, w')
        → (k : Key) → k ≢ key_of (meta new)
        → stored w' k ≡ stored w k
    -- A patch that is refused changes nothing that is stored.
    pub patch_refused :
        (w : World) (old new : X) {e : Fault} {w' : World}
        → store.patch w old new ≡ (fault e, w')
        → (k : Key) → stored w' k ≡ stored w k

-- Writes to the objects of the other kinds change nothing of what `view` sees, such as the entries of
-- the machine pool.
module _ {World V : Type 0} (client : Client World) (view : World → V) where
  pub record IsApart : Type 0 where
    pub ip_patch :
        (w : World) (old new : HyperIpPool) → view (client.ip_pools.patch w old new).1 ≡ view w
    pub ip_persist :
        (w : World) (old new : HyperIpPool) → view (client.ip_pools.persist w old new).1 ≡ view w
    pub machine_persist :
        (w : World) (old new : HyperMachine)
        → view (client.hyper_machines.persist w old new).1 ≡ view w
    pub cluster_persist :
        (w : World) (old new : HyperCluster)
        → view (client.hyper_clusters.persist w old new).1 ≡ view w

module _ {World X : Type 0} (meta : X → ObjectMeta) (store : Store World X) where
  -- The patch helper sends what differs between the object that it remembers and the object that it is
  -- given, in several requests of which each may be refused: a stored label is as before, or it is one
  -- that differs between the two and has the new value.
  pub record IsMerging (stored : World → Key → Option X) : Type 0 where
    pub persist_label :
        (w : World) (old new : X) (k : Key) (l : String)
        → (stored_label meta (stored (store.persist w old new).1 k) l
            ≡ stored_label meta (stored w k) l)
          ⊎ ((k ≡ key_of (meta new))
              × (label? l (meta new).labels ≢ label? l (meta old).labels)
              × (stored_label meta (stored (store.persist w old new).1 k) l
                  ≡ label? l (meta new).labels))
