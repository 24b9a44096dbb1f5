-- ===== src/Manager/Filters/Equality.antt =====
-- What `reflect.DeepEqual` says of two objects' metadata, references and SSH data.
use text.Mathlib.TextEquality.{eq_iff}
use cluster_api_provider_hyp.Base.{
  ℕ, Bool, String, Bytes, ==_iff, ◌≡◌, ◌↔◌, refl, sym, ◌∙◌, arith, true, false, List, [], ◌∷◌,
  Option, none, some, Option-cases, inl, inr,
}
use cluster_api_provider_hyp.Api.{
  Labels, lookup, value_eq_iff, ObjectMeta, Bookkeeping, OwnerReference, ObjectReference, SshInfo,
}
use cluster_api_provider_hyp.Manager.Filters.{
  texts_equal, time_equal, bookkeeping_equal, owners_equal, owner_equal, flag_equal, agree_at,
  maps_equal, meta_equal, ref_equal, ssh_equal, bool_equal,
}

-- Two label maps are both nil, or hold the same value at each key.
abbrev pub SameLabels : Option Labels → Option Labels → Type 0
SameLabels none none = Unit
SameLabels (some l) (some m) = (k : String) → lookup k l ≡ lookup k m
SameLabels _ _ = false ≡ true

pub record IsSameBookkeeping (a b : Bookkeeping) : Type 0 where
  pub generate_name : a.generate_name ≡ b.generate_name
  pub self_link : a.self_link ≡ b.self_link
  pub generation : a.generation ≡ b.generation
  pub creation_timestamp : a.creation_timestamp ≡ b.creation_timestamp
  pub grace_period : a.deletion_grace_period_seconds ≡ b.deletion_grace_period_seconds
  pub annotations : SameLabels a.annotations b.annotations
  pub owner_references : a.owner_references ≡ b.owner_references
  pub cluster_name : a.cluster_name ≡ b.cluster_name
  pub managed_fields : a.managed_fields ≡ b.managed_fields

-- The metadata of two objects is the same, their resource version too.
pub record IsSameMeta (a b : ObjectMeta) : Type 0 where
  pub kind : a.kind ≡ b.kind
  pub api_version : a.api_version ≡ b.api_version
  pub name : a.name ≡ b.name
  pub namespace : a.namespace ≡ b.namespace
  pub uid : a.uid ≡ b.uid
  pub resource_version : a.resource_version ≡ b.resource_version
  pub labels : SameLabels a.labels b.labels
  pub finalizers : a.finalizers ≡ b.finalizers
  pub deletion_timestamp : a.deletion_timestamp ≡ b.deletion_timestamp
  pub bookkeeping : IsSameBookkeeping a.bookkeeping b.bookkeeping

texts_equal_iff : (s t : List Bytes) → (texts_equal s t ≡ true) ↔ (s ≡ t)
unfolding texts_equal
texts_equal_iff [] [] = ground arith
texts_equal_iff [] (y ∷ t) = ground arith
texts_equal_iff (x ∷ s) [] = ground arith
texts_equal_iff (x ∷ s) (y ∷ t) = ground (arith, ==_iff x y, texts_equal_iff s t)

time_equal_iff : (s t : Option ℕ) → (time_equal s t ≡ true) ↔ (s ≡ t)
unfolding time_equal
time_equal_iff none none = ground arith
time_equal_iff none (some t) = ground arith
time_equal_iff (some s) none = ground arith
time_equal_iff (some s) (some t) = ground arith

-- Where the maps agree at their own keys, a key with a value in the first has it in the second.
agree_at_value :
    (keys l m : Labels) (k : String) (v : Bytes)
    → agree_at keys l m ≡ true
    → lookup k keys ≡ some v
    → lookup k l ≡ lookup k m
unfolding agree_at lookup
agree_at_value [] l m k v h e = absurd (ground arith)
agree_at_value ((j, w) ∷ keys) l m k v h e =
    ground (arith, eq_iff j k, value_eq_iff (lookup j l) (lookup j m), agree_at_value keys l m k v)

agree_at_same :
    (keys l m : Labels) → ((k : String) → lookup k l ≡ lookup k m) → agree_at keys l m ≡ true
unfolding agree_at
agree_at_same [] l m h = refl
agree_at_same ((k, v) ∷ keys) l m h =
    ground (arith, h k, value_eq_iff (lookup k l) (lookup k m), agree_at_same keys l m h)

agree_at-IsSame :
    (l m : Labels)
    → agree_at l l m ≡ true
    → agree_at m l m ≡ true
    → (k : String) → lookup k l ≡ lookup k m
agree_at-IsSame l m hl hm k = elim (Option-cases (lookup k l)) [
  | inr (v, e) ↦ agree_at_value l l m k v hl e
  | inl absent ↦ elim (Option-cases (lookup k m)) [
    | inr (v, e) ↦ agree_at_value m l m k v hm e
    | inl missing ↦ absent ∙ sym missing
  ]
]

maps_equal_iff : (l m : Option Labels) → (maps_equal l m ≡ true) ↔ SameLabels l m
unfolding maps_equal
maps_equal_iff none none = ground arith
maps_equal_iff none (some m) = ground arith
maps_equal_iff (some l) none = ground arith
maps_equal_iff (some l) (some m) = (
  λ h. agree_at-IsSame l m (ground arith) (ground arith),
  λ h. ground (arith, agree_at_same l l m h, agree_at_same m l m h),
)

flag_equal_iff : (a b : Option Bool) → (flag_equal a b ≡ true) ↔ (a ≡ b)
unfolding flag_equal bool_equal
flag_equal_iff none none = ground arith
flag_equal_iff none (some b) = ground arith
flag_equal_iff (some a) none = ground arith
flag_equal_iff (some a) (some b) = ground arith

owner_equal_iff : (a b : OwnerReference) → (owner_equal a b ≡ true) ↔ (a ≡ b)
unfolding owner_equal
owner_equal_iff a b = ground (
  arith,
  ==_iff a.api_version b.api_version,
  ==_iff a.kind b.kind,
  ==_iff a.name b.name,
  ==_iff a.uid b.uid,
  flag_equal_iff a.controller b.controller,
  flag_equal_iff a.block_owner_deletion b.block_owner_deletion,
)

owners_equal_iff : (s t : List OwnerReference) → (owners_equal s t ≡ true) ↔ (s ≡ t)
unfolding owners_equal
owners_equal_iff [] [] = ground arith
owners_equal_iff [] (y ∷ t) = ground arith
owners_equal_iff (x ∷ s) [] = ground arith
owners_equal_iff (x ∷ s) (y ∷ t) = ground (arith, owner_equal_iff x y, owners_equal_iff s t)

bookkeeping_equal_iff : (a b : Bookkeeping) → (bookkeeping_equal a b ≡ true) ↔ IsSameBookkeeping a b
unfolding bookkeeping_equal
bookkeeping_equal_iff a b =
    let at_generate = ==_iff a.generate_name b.generate_name in
    let at_link = ==_iff a.self_link b.self_link in
    let at_created = time_equal_iff a.creation_timestamp b.creation_timestamp in
    let at_grace = time_equal_iff a.deletion_grace_period_seconds b.deletion_grace_period_seconds in
    let at_annotations = maps_equal_iff a.annotations b.annotations in
    let at_owners = owners_equal_iff a.owner_references b.owner_references in
    let at_cluster = ==_iff a.cluster_name b.cluster_name in
    let at_managed = texts_equal_iff a.managed_fields b.managed_fields in
    (
      λ h. record {
        generate_name = at_generate.0 (ground arith);
        self_link = at_link.0 (ground arith);
        generation = ground arith;
        creation_timestamp = at_created.0 (ground arith);
        grace_period = at_grace.0 (ground arith);
        annotations = at_annotations.0 (ground arith);
        owner_references = at_owners.0 (ground arith);
        cluster_name = at_cluster.0 (ground arith);
        managed_fields = at_managed.0 (ground arith);
      },
      λ same. ground (
        arith,
        at_annotations.1 same.annotations,
        at_generate.1 same.generate_name,
        at_link.1 same.self_link,
        same.generation,
        at_created.1 same.creation_timestamp,
        at_grace.1 same.grace_period,
        at_owners.1 same.owner_references,
        at_cluster.1 same.cluster_name,
        at_managed.1 same.managed_fields,
      ),
    )

pub meta_equal_iff : (a b : ObjectMeta) → (meta_equal a b ≡ true) ↔ IsSameMeta a b
unfolding meta_equal
meta_equal_iff a b =
    let at_kind = ==_iff a.kind b.kind in
    let at_version = ==_iff a.api_version b.api_version in
    let at_name = ==_iff a.name b.name in
    let at_namespace = ==_iff a.namespace b.namespace in
    let at_uid = ==_iff a.uid b.uid in
    let at_resource = ==_iff a.resource_version b.resource_version in
    let at_finalizers = texts_equal_iff a.finalizers b.finalizers in
    let at_deletion = time_equal_iff a.deletion_timestamp b.deletion_timestamp in
    let at_bookkeeping = bookkeeping_equal_iff a.bookkeeping b.bookkeeping in
    (
      λ h. record {
        kind = at_kind.0 (ground arith);
        api_version = at_version.0 (ground arith);
        name = at_name.0 (ground arith);
        namespace = at_namespace.0 (ground arith);
        uid = at_uid.0 (ground arith);
        resource_version = at_resource.0 (ground arith);
        labels = (maps_equal_iff a.labels b.labels).0 (ground arith);
        finalizers = at_finalizers.0 (ground arith);
        deletion_timestamp = at_deletion.0 (ground arith);
        bookkeeping = at_bookkeeping.0 (ground arith);
      },
      λ same. ground (
        arith,
        (maps_equal_iff a.labels b.labels).1 same.labels,
        at_kind.1 same.kind,
        at_version.1 same.api_version,
        at_name.1 same.name,
        at_namespace.1 same.namespace,
        at_uid.1 same.uid,
        at_resource.1 same.resource_version,
        at_finalizers.1 same.finalizers,
        at_deletion.1 same.deletion_timestamp,
        at_bookkeeping.1 same.bookkeeping,
      ),
    )

pub ref_equal_iff : (a b : ObjectReference) → (ref_equal a b ≡ true) ↔ (a ≡ b)
unfolding ref_equal
ref_equal_iff a b = ground (
  arith,
  ==_iff a.api_version b.api_version,
  ==_iff a.kind b.kind,
  ==_iff a.name b.name,
  ==_iff a.namespace b.namespace,
  ==_iff a.uid b.uid,
)

pub ssh_equal_iff : (a b : Option SshInfo) → (ssh_equal a b ≡ true) ↔ (a ≡ b)
unfolding ssh_equal
ssh_equal_iff none none = ground arith
ssh_equal_iff none (some b) = ground arith
ssh_equal_iff (some a) none = ground arith
ssh_equal_iff (some a) (some b) =
    ground (arith, ==_iff a.address b.address, ==_iff a.ssh_id b.ssh_id, ==_iff a.ssh_pw b.ssh_pw)
