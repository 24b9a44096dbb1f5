-- ===== src/Manager/Filters/Woken.antt =====
-- The watch on the machines of the cluster API: which machines of this provider it wakes.
use cluster_api_provider_hyp.Base.{
  codes, ◌==◌, ==_iff, ◌≡◌, ◌≢◌, ◌↔◌, ◌⊎◌, refl, ap, sym, ◌∙◌, Bool, true, false, ◌&&◌, Bool-cases,
  inl, inr, [], ◌∷◌, Option-cases, none, arith,
}
use mathlib.Core.List.{cons-ne-nil}
use cluster_api_provider_hyp.Api.{Client, Key, Machine, value_or, zero_machine}
use cluster_api_provider_hyp.MachineController.Handler.{
  requeue_hyper_machines, is_provisioning_event,
}
use cluster_api_provider_hyp.Manager.Filters.{
  MachineEvent, updated, created, deleted, generic, machine_event,
}

-- The machine that an owner refers to.
abbrev pub key_for : Machine → Key
key_for m = record { namespace = m.meta.namespace; name = m.infrastructure_ref.name }

-- A request for the machine of this provider that an owner refers to is due: the owner is not deleted,
-- and the machine is not read as ready.
pub record IsDue {World : Type 0} (client : Client World) (w : World) (m : Machine) (k : Key)
    : Type 0 where
  pub lives : m.meta.deletion_timestamp ≡ none
  pub refers : m.infrastructure_ref.kind ≡ codes "HyperMachine"
  pub unready :
      (value_or (client.hyper_machines.get w (key_for m)) zero_machine).status.ready ≡ false
  pub at_key : k ≡ key_for m

-- On which objects of an event the library (controller-runtime) runs the mapping of a watch: as
-- `EnqueueRequestsFromMapFunc` says, on both objects of an update.
pub record IsMappingBoth (MapsTo : MachineEvent → Machine → Type 0) : Type 0 where
  pub both : (old new : Machine) → MapsTo (updated old new) old × MapsTo (updated old new) new
  pub only : (old new m : Machine) → MapsTo (updated old new) m → (m ≡ old) ⊎ (m ≡ new)

single-injective : (j k : Key) → j ∷ [] ≡ k ∷ [] → j ≡ k
single-injective j k e = cc

module _ {World : Type 0} (client : Client World) where
  and_both : (a b : Bool) → (a && b) ≡ true → (a ≡ true) × (b ≡ true)
  and_both a b e = ground arith

  requested :
      (m : Machine) (w : World)
      → requeue_hyper_machines client m w ≢ []
      → (m.meta.deletion_timestamp ≡ none)
        × (m.infrastructure_ref.kind ≡ codes "HyperMachine")
        × ((value_or (client.hyper_machines.get w (key_for m)) zero_machine).status.ready ≡ false)
  unfolding requeue_hyper_machines
  requested m w some_asked = elim (Option-cases m.meta.deletion_timestamp) [
    | inr (t, gone) ↦ absurd (some_asked (rw gone refl))
    | inl lives ↦ elim (Bool-cases (m.infrastructure_ref.kind == codes "HyperMachine")) [
      | inr other ↦ absurd (some_asked (rw (lives, other) refl))
      | inl kind ↦
          elim (Bool-cases
            (value_or (client.hyper_machines.get w (key_for m)) zero_machine).status.ready) [
              | inl ready ↦ absurd (some_asked (rw (lives, kind, ready) refl))
              | inr unready ↦ (lives, (==_iff _ _).0 kind, unready)
            ]
    ]
  ]

  due_request :
      (m : Machine) (w : World)
      → m.meta.deletion_timestamp ≡ none
      → m.infrastructure_ref.kind ≡ codes "HyperMachine"
      → (value_or (client.hyper_machines.get w (key_for m)) zero_machine).status.ready ≡ false
      → requeue_hyper_machines client m w ≡ key_for m ∷ []
  unfolding requeue_hyper_machines
  due_request m w lives kind unready = rw (lives, (==_iff _ _).1 kind, unready) refl

  asked_iff :
      (m : Machine) (w : World) (k : Key)
      → (requeue_hyper_machines client m w ≡ k ∷ []) ↔ IsDue client w m k
  asked_iff m w k = (
    λ asked.
        let (lives, kind, unready) =
          requested m w (λ none_asked. cons-ne-nil _ _ (sym asked ∙ none_asked)) in
        record {
          lives = lives;
          refers = kind;
          unready = unready;
          at_key = single-injective _ _ (sym asked ∙ due_request m w lives kind unready);
        },
    λ due. rw due.at_key (due_request m w due.lives due.refers due.unready),
  )

  provisioning_iff :
      (old new : Machine)
      → (is_provisioning_event old new ≡ true)
        ↔ ((old.phase ≡ codes "Pending") × (new.phase ≡ codes "Provisioning"))
  unfolding is_provisioning_event
  provisioning_iff old new = (
    λ passed.
        let (pending, provisioning) = and_both _ _ passed in
        ((==_iff _ _).0 pending, (==_iff _ _).0 provisioning),
    λ (pending, provisioning). rw ((==_iff _ _).1 pending, (==_iff _ _).1 provisioning) refl,
  )

  module _ (MapsTo : MachineEvent → Machine → Type 0) (mapping : IsMappingBoth MapsTo) where
    -- An event of an owner passes the filter of the watch, and the mapping of one of its objects is the
    -- one request for `k`, exactly where the event is an update in which the owner went from the phase
    -- "Pending" to "Provisioning", and a request for `k` is due of the owner before or after it.
    pub machine_event-IsDue :
        (e : MachineEvent) (w : World) (k : Key)
        → ((machine_event e ≡ true)
            × ((m : Machine) × MapsTo e m × (requeue_hyper_machines client m w ≡ k ∷ [])))
          ↔ ((old : Machine) × (new : Machine) × (e ≡ updated old new)
              × (old.phase ≡ codes "Pending")
              × (new.phase ≡ codes "Provisioning")
              × (IsDue client w old k ⊎ IsDue client w new k))
    unfolding machine_event
    machine_event-IsDue (updated old new) w k = (
      λ (passed, (m, maps, asked)).
          let (pending, provisioning) = (provisioning_iff old new).0 passed in
          let due = (asked_iff m w k).0 asked in
          (
            old,
            new,
            refl,
            pending,
            provisioning,
            elim (mapping.only old new m maps) [
              | inl at_old ↦ inl (rw at_old at due)
              | inr at_new ↦ inr (rw at_new at due)
            ],
          ),
      λ (old', new', same, pending, provisioning, due). (
        ap machine_event same ∙ (provisioning_iff old' new').1 (pending, provisioning),
        elim due [
          | inl before ↦ (old', rw same (mapping.both old' new').0, (asked_iff old' w k).1 before)
          | inr after ↦ (new', rw same (mapping.both old' new').1, (asked_iff new' w k).1 after)
        ],
      ),
    )
    machine_event-IsDue (created m) w k = (
      λ (passed, rest). absurd (ground arith),
      λ (old, new, same, a, b, due). absurd (ground arith),
    )
    machine_event-IsDue (deleted m) w k = (
      λ (passed, rest). absurd (ground arith),
      λ (old, new, same, a, b, due). absurd (ground arith),
    )
    machine_event-IsDue (generic m) w k = (
      λ (passed, rest). absurd (ground arith),
      λ (old, new, same, a, b, due). absurd (ground arith),
    )
