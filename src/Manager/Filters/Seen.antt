-- ===== src/Manager/Filters/Seen.antt =====
-- Which updates lead to a reconcile.
use cluster_api_provider_hyp.Base.{
  Bytes, codes, ==_iff, ◌≡◌, ◌≢◌, ◌↔◌, sym, arith, true, false, [], Bool-cases, inl, inr, ==_refl,
}
use cluster_api_provider_hyp.Api.{value_eq_iff, HyperMachine, HyperMachinePool, HyperMachineStatus}
use cluster_api_provider_hyp.Manager.Filters.Equality.{
  IsSameMeta, meta_equal_iff, ref_equal_iff, ssh_equal_iff,
}
use cluster_api_provider_hyp.Manager.Filters.{
  addresses_equal, bool_equal, machine_equal, pool_equal, machine_update, pool_update,
}

-- An update of an entry of the machine pool, read with its kind, is left out exactly where the whole
-- metadata, with the resource version, the annotations, the owners and the managed fields, and the SSH
-- data stay the same, a nil and an empty list being one.
pub pool_update-IsSame :
    (old new : HyperMachinePool)
    → old.meta.kind ≡ codes "HyperMachinePool"
    → (pool_update old new ≡ false) ↔ (IsSameMeta old.meta new.meta × (old.spec.ssh ≡ new.spec.ssh))
unfolding pool_update pool_equal
pool_update-IsSame old new kind = (
  λ h. (
    (meta_equal_iff old.meta new.meta).0
        (ground (arith, ==_iff old.meta.kind (codes "HyperMachinePool"))),
    ground (
      arith,
      ==_iff old.meta.kind (codes "HyperMachinePool"),
      ssh_equal_iff old.spec.ssh new.spec.ssh,
    ),
  ),
  λ (same, ssh). ground (
    arith,
    ==_iff old.meta.kind (codes "HyperMachinePool"),
    (meta_equal_iff old.meta new.meta).1 same,
    ssh_equal_iff old.spec.ssh new.spec.ssh,
    ==_refl [],
  ),
)

-- An update of a machine is left out exactly where the metadata, with the resource version, the
-- provider id and the reference to the entry stay the same.
pub machine_update-IsSame :
    (old new : HyperMachine)
    → (machine_update old new ≡ false) ↔ (
        IsSameMeta old.meta new.meta
        × (old.spec.provider_id ≡ new.spec.provider_id)
        × (old.spec.hyper_machine_pool_ref ≡ new.spec.hyper_machine_pool_ref))
unfolding machine_update machine_equal bool_equal addresses_equal
machine_update-IsSame old new = (
  λ h. (
    (meta_equal_iff old.meta new.meta).0 (ground arith),
    ground (arith, value_eq_iff old.spec.provider_id new.spec.provider_id),
    ground (arith, ref_equal_iff old.spec.hyper_machine_pool_ref new.spec.hyper_machine_pool_ref),
  ),
  λ (same, id, ref). ground (
    arith,
    (meta_equal_iff old.meta new.meta).1 same,
    value_eq_iff old.spec.provider_id new.spec.provider_id,
    ref_equal_iff old.spec.hyper_machine_pool_ref new.spec.hyper_machine_pool_ref,
  ),
)

-- An update that changes no more than the status of a machine leads to a reconcile all the same,
-- since the server gives the object another resource version.
pub machine_update-status :
    (old : HyperMachine) (status : HyperMachineStatus) (version : Bytes)
    → version ≢ old.meta.resource_version
    → machine_update old
        (record old { meta = record (old.meta) { resource_version = version }; status = status })
      ≡ true
machine_update-status old status version changed =
    let new = record old {
      meta = record (old.meta) { resource_version = version };
      status = status;
    } in
    elim (Bool-cases (machine_update old new)) [
      | inl e ↦ e
      | inr e ↦ absurd (changed (sym ((machine_update-IsSame old new).0 e).0.resource_version))
    ]
