-- ===== src/Api/Laws.antt =====
-- What the laws of a store give together.
use native.Mathlib.Decide.{ℕ_discrete}
use cluster_api_provider_hyp.Base.{
  ◌≡◌, ◌≢◌, refl, ap, ◌∙◌, Option, some, arith, String, ◌⊎◌, inl, inr,
}
use cluster_api_provider_hyp.Api.LabelMap.{label?, value_eq_iff}
use cluster_api_provider_hyp.Api.Objects.{ObjectMeta, Key, key_of}
use cluster_api_provider_hyp.Api.Interface.{
  Client, IsApart, Store, Result, value, fault, IsConsistent, stored_label,
}

Key-discrete : Discrete Key
Key-discrete = hlevel ℕ_discrete

module _ {World X : Type 0} (meta : X → ObjectMeta) (store : Store World X)
    (stored : World → Key → Option X) (consistent : IsConsistent meta store stored) where
  -- After an accepted patch against the stored object, the labels are those that were sent.
  pub patch-stored :
      (w : World) (old new : X) {r : X} {w' : World} (k : String)
      → stored w (key_of (meta new)) ≡ some old
      → store.patch w old new ≡ (value r, w')
      → stored_label meta (stored w' (key_of (meta new))) k ≡ label? k (meta new).labels
  patch-stored w old new k at_key patched =
      consistent.patch_labels w old new patched k
      ∙ rw at_key
          (ground (arith, value_eq_iff (label? k (meta new).labels) (label? k (meta old).labels)))

  patch_elsewhere_case :
      (w : World) (old new : X) (k : Key) (r : Result X) (w' : World)
      → store.patch w old new ≡ (r, w')
      → k ≢ key_of (meta new)
      → stored w' k ≡ stored w k
  patch_elsewhere_case w old new k (value r) w' e other = consistent.patch_other w old new e k other
  patch_elsewhere_case w old new k (fault f) w' e other = consistent.patch_refused w old new e k

  -- A patch, accepted or not, leaves the other objects alone.
  pub patch_elsewhere :
      (w : World) (old new : X) (k : Key)
      → k ≢ key_of (meta new)
      → stored (store.patch w old new).1 k ≡ stored w k
  patch_elsewhere w old new k other = patch_elsewhere_case w old new k _ _ refl other

  patch_same_label_case :
      (w : World) (old new : X) (l : String) (r : Result X) (w' : World)
      → store.patch w old new ≡ (r, w')
      → label? l (meta new).labels ≡ label? l (meta old).labels
      → stored_label meta (stored w' (key_of (meta new))) l
        ≡ stored_label meta (stored w (key_of (meta new))) l
  patch_same_label_case w old new l (value r) w' e same =
      consistent.patch_labels w old new e l
      ∙ ground (arith, same, value_eq_iff (label? l (meta new).labels) (label? l (meta old).labels))
  patch_same_label_case w old new l (fault f) w' e same =
      ap (λ o. stored_label meta o l) (consistent.patch_refused w old new e (key_of (meta new)))

  -- A label that is not changed between the two objects of a patch is not changed on the server, for
  -- any object and whether the patch is accepted or not.
  pub patch_same_label :
      (w : World) (old new : X) (l : String) (k : Key)
      → label? l (meta new).labels ≡ label? l (meta old).labels
      → stored_label meta (stored (store.patch w old new).1 k) l ≡ stored_label meta (stored w k) l
  patch_same_label w old new l k same = elim (Key-discrete k (key_of (meta new))) [
    | yes at_key ↦ rw at_key (patch_same_label_case w old new l _ _ refl same)
    | no other ↦ ap (λ o. stored_label meta o l) (patch_elsewhere w old new k other)
  ]

  patch_label_case :
      (w : World) (old new : X) (l : String) (r : Result X) (w' : World)
      → store.patch w old new ≡ (r, w')
      → (stored_label meta (stored w' (key_of (meta new))) l
          ≡ stored_label meta (stored w (key_of (meta new))) l)
        ⊎ ((label? l (meta new).labels ≢ label? l (meta old).labels)
            × (stored_label meta (stored w' (key_of (meta new))) l ≡ label? l (meta new).labels))
  patch_label_case w old new l (value r) w' e = ground (
    arith,
    consistent.patch_labels w old new e l,
    value_eq_iff (label? l (meta new).labels) (label? l (meta old).labels),
  )
  patch_label_case w old new l (fault f) w' e =
      inl
        (ap (λ o. stored_label meta o l) (consistent.patch_refused w old new e (key_of (meta new))))

  -- After a patch, accepted or not, a label is as before, or it is the new one of the
  -- patched object, and differs from its old one.
  pub patch_label :
      (w : World) (old new : X) (l : String) (k : Key)
      → (stored_label meta (stored (store.patch w old new).1 k) l
          ≡ stored_label meta (stored w k) l)
        ⊎ ((k ≡ key_of (meta new))
            × (label? l (meta new).labels ≢ label? l (meta old).labels)
            × (stored_label meta (stored (store.patch w old new).1 k) l
                ≡ label? l (meta new).labels))
  patch_label w old new l k = elim (Key-discrete k (key_of (meta new))) [
    | yes at_key ↦ rw at_key (elim (patch_label_case w old new l _ _ refl) [
      | inl e ↦ inl e
      | inr (differs, e) ↦ inr (refl, differs, e)
    ])
    | no other ↦ inl (ap (λ o. stored_label meta o l) (patch_elsewhere w old new k other))
  ]

-- Less is seen of what is left alone.
pub IsApart-ap :
    {World V U : Type 0} (client : Client World) (view : World → V) (f : V → U)
    → IsApart client view
    → IsApart client (λ w. f (view w))
IsApart-ap client view f apart = record {
  ip_patch = λ w old new. ap f (apart.ip_patch w old new);
  ip_persist = λ w old new. ap f (apart.ip_persist w old new);
  machine_persist = λ w old new. ap f (apart.machine_persist w old new);
  cluster_persist = λ w old new. ap f (apart.cluster_persist w old new);
}
