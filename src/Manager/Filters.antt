-- ===== src/Manager/Filters.antt =====
-- The update filters of `SetupWithManager` in the four controllers, and `reflect.DeepEqual` on the
-- objects they compare. A nil and an empty list are one in the model.
pub mod Equality
pub mod Seen
pub mod Woken
use cluster_api_provider_hyp.Base.{
  ℕ, nat_eq, String, Bytes, codes, ◌==◌, Bool, true, false, not, ◌&&◌, List, [], ◌∷◌, Option, none,
  some, if◌then◌else◌,
}
use cluster_api_provider_hyp.MachineController.Handler.{is_provisioning_event}
use cluster_api_provider_hyp.Api.{
  Machine, Labels, lookup, value_eq, ObjectMeta, Bookkeeping, OwnerReference, ObjectReference,
  SshInfo, HyperMachine, HyperCluster, HyperMachinePool, HyperIpPool, zero_machine_status,
  HyperMachineStatus, MachineAddress, HyperClusterStatus, HyperMachinePoolStatus,
}

unfoldable pub texts_equal : List Bytes → List Bytes → Bool
texts_equal [] [] = true
texts_equal (x ∷ xs) (y ∷ ys) = x == y && texts_equal xs ys
texts_equal _ _ = false

unfoldable pub time_equal : Option ℕ → Option ℕ → Bool
time_equal none none = true
time_equal (some s) (some t) = nat_eq s t
time_equal _ _ = false

-- Two maps agree at the keys of `keys`.
unfoldable pub agree_at : Labels → Labels → Labels → Bool
agree_at [] l m = true
agree_at ((k, _) ∷ keys) l m = value_eq (lookup k l) (lookup k m) && agree_at keys l m

-- A nil map differs from an empty one; the order of the entries does not count.
unfoldable pub maps_equal : Option Labels → Option Labels → Bool
maps_equal none none = true
maps_equal (some l) (some m) = agree_at l l m && agree_at m l m
maps_equal _ _ = false

unfoldable pub bool_equal : Bool → Bool → Bool
bool_equal true b = b
bool_equal false b = not b

unfoldable pub flag_equal : Option Bool → Option Bool → Bool
flag_equal none none = true
flag_equal (some a) (some b) = bool_equal a b
flag_equal _ _ = false

unfoldable pub owner_equal : OwnerReference → OwnerReference → Bool
owner_equal a b =
    a.api_version == b.api_version
    && (a.kind == b.kind
        && (a.name == b.name
            && (a.uid == b.uid
                && (flag_equal a.controller b.controller
                    && flag_equal a.block_owner_deletion b.block_owner_deletion))))

unfoldable pub owners_equal : List OwnerReference → List OwnerReference → Bool
owners_equal [] [] = true
owners_equal (x ∷ xs) (y ∷ ys) = owner_equal x y && owners_equal xs ys
owners_equal _ _ = false

unfoldable pub bookkeeping_equal : Bookkeeping → Bookkeeping → Bool
bookkeeping_equal a b =
    a.generate_name == b.generate_name
    && (a.self_link == b.self_link
        && (nat_eq a.generation b.generation
            && (time_equal a.creation_timestamp b.creation_timestamp
                && (time_equal a.deletion_grace_period_seconds b.deletion_grace_period_seconds
                    && (maps_equal a.annotations b.annotations
                        && (owners_equal a.owner_references b.owner_references
                            && (a.cluster_name == b.cluster_name
                                && texts_equal a.managed_fields b.managed_fields)))))))

unfoldable pub meta_equal : ObjectMeta → ObjectMeta → Bool
meta_equal a b =
    a.kind == b.kind
    && (a.api_version == b.api_version
        && (a.name == b.name
            && (a.namespace == b.namespace
                && (a.uid == b.uid
                    && (a.resource_version == b.resource_version
                        && (maps_equal a.labels b.labels
                            && (texts_equal a.finalizers b.finalizers
                                && (time_equal a.deletion_timestamp b.deletion_timestamp
                                    && bookkeeping_equal a.bookkeeping b.bookkeeping))))))))

unfoldable pub ref_equal : ObjectReference → ObjectReference → Bool
ref_equal a b =
    a.api_version == b.api_version
    && (a.kind == b.kind && (a.name == b.name && (a.namespace == b.namespace && a.uid == b.uid)))

-- Two pointers are compared by what they point at.
unfoldable pub ssh_equal : Option SshInfo → Option SshInfo → Bool
ssh_equal none none = true
ssh_equal (some a) (some b) =
    a.address == b.address && (a.ssh_id == b.ssh_id && a.ssh_pw == b.ssh_pw)
ssh_equal _ _ = false

unfoldable pub addresses_equal : List MachineAddress → List MachineAddress → Bool
addresses_equal [] [] = true
addresses_equal (x ∷ xs) (y ∷ ys) =
    (x.address_type == y.address_type && x.address == y.address) && addresses_equal xs ys
addresses_equal _ _ = false

-- `reflect.DeepEqual` on the objects of each kind.
unfoldable pub machine_equal : HyperMachine → HyperMachine → Bool
machine_equal a b =
    meta_equal a.meta b.meta
    && (value_eq a.spec.provider_id b.spec.provider_id
        && (ref_equal a.spec.hyper_machine_pool_ref b.spec.hyper_machine_pool_ref
            && (bool_equal a.status.ready b.status.ready
                && addresses_equal a.status.addresses b.status.addresses)))

unfoldable pub cluster_equal : HyperCluster → HyperCluster → Bool
cluster_equal a b =
    meta_equal a.meta b.meta
    && (a.spec.control_plane_endpoint.host == b.spec.control_plane_endpoint.host
        && (nat_eq a.spec.control_plane_endpoint.port b.spec.control_plane_endpoint.port
            && bool_equal a.status.ready b.status.ready))

unfoldable pub pool_equal : HyperMachinePool → HyperMachinePool → Bool
pool_equal a b =
    meta_equal a.meta b.meta
    && (ssh_equal a.spec.ssh b.spec.ssh
        && (a.status.error == b.status.error
            && (a.status.os == b.status.os
                && (a.status.kernel == b.status.kernel
                    && (a.status.host_name == b.status.host_name
                        && a.status.network_interface == b.status.network_interface)))))

unfoldable pub ip_pool_equal : HyperIpPool → HyperIpPool → Bool
ip_pool_equal a b = meta_equal a.meta b.meta && a.spec.ip == b.spec.ip

-- The `UpdateFunc` of each controller: whether an update leads to a reconcile.
unfoldable pub machine_update : HyperMachine → HyperMachine → Bool
machine_update old new = not (
    machine_equal (record old { status = zero_machine_status })
      (record new { status = zero_machine_status }))

unfoldable pub cluster_update : HyperCluster → HyperCluster → Bool
cluster_update old new =
    let zero_status : HyperClusterStatus = record { ready = false } in
    if not (old.meta.kind == codes "HyperCluster")
    then true
    else not
        (cluster_equal (record old { status = zero_status }) (record new { status = zero_status }))

unfoldable pub pool_update : HyperMachinePool → HyperMachinePool → Bool
pool_update old new =
    let zero_status : HyperMachinePoolStatus = record {
      error = [];
      os = [];
      kernel = [];
      host_name = [];
      network_interface = [];
    } in
    if not (old.meta.kind == codes "HyperMachinePool")
    then true
    else not
        (pool_equal (record old { status = zero_status }) (record new { status = zero_status }))

unfoldable pub ip_pool_update : HyperIpPool → HyperIpPool → Bool
ip_pool_update old new =
    if not (old.meta.kind == codes "HyperIPPool") then true else not (ip_pool_equal old new)

-- An event of the watch on the machines of the cluster API.
pub data MachineEvent : Type 0 where
  updated : Machine → Machine → MachineEvent
  created deleted generic : Machine → MachineEvent

-- The predicates of that watch.
unfoldable pub machine_event : MachineEvent → Bool
machine_event (updated old new) = is_provisioning_event old new
machine_event _ = false
