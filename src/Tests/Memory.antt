-- ===== src/Tests/Memory.antt =====
-- A system in memory: two machine pool entries, one IP, the commands that were sent. A patch is
-- accepted where the object was not changed since it was read.
use text.Mathlib.Text.{◌==◌ as str_eq}
use text.Mathlib.TextEquality.{eq_iff}
use cluster_api_provider_hyp.Base.{
  String, Bytes, codes, ◌==◌, ==_iff, ◌≡◌, ◌≢◌, refl, ap, sym, ◌∙◌, Bool, true, false, ◌&&◌, List,
  [], ◌∷◌, Option, none, some, All, arith, if◌then◌else◌, Bool-cases, ◌⊎◌, inl, inr,
}
use cluster_api_provider_hyp.Api.{
  Labels, label?, matches, value_eq, value_eq_iff, ObjectMeta, Key, HyperMachinePool, HyperIpPool,
  HyperCluster, HyperMachine, Fault, failure, not_found, Result, value, fault, Store, IsConsistent,
  stored_label, key_of, IsMerging, patch_label,
}

abbrev pub key_a : Key
key_a = record { namespace = codes "ns"; name = codes "a" }

abbrev pub key_b : Key
key_b = record { namespace = codes "ns"; name = codes "b" }

pub record Memory : Type 0 where
  pub pool_a : HyperMachinePool
  pub pool_b : HyperMachinePool
  pub ip : HyperIpPool
  pub machine : HyperMachine
  pub cluster : HyperCluster
  pub sent : List Bytes

abbrev pub named : Key → ObjectMeta → ObjectMeta
named k m = record m { namespace = k.namespace; name = k.name }

abbrev pool_named : Key → HyperMachinePool → HyperMachinePool
pool_named k p = record p { meta = named k p.meta }

abbrev pub key_eq : Key → Key → Bool
key_eq j k = j.namespace == k.namespace && j.name == k.name

pub key_eq_iff : (j k : Key) → key_eq j k ≡ true → j ≡ k
key_eq_iff j k h = ground (arith, ==_iff j.namespace k.namespace, ==_iff j.name k.name)

-- The same map, written the same way.
unfoldable pub same_labels : Labels → Labels → Bool
same_labels [] [] = true
same_labels ((j, v) ∷ l) ((k, w) ∷ m) = (str_eq j k && v == w) && same_labels l m
same_labels _ _ = false

same_labels_sound : (l m : Labels) → same_labels l m ≡ true → l ≡ m
unfolding same_labels
same_labels_sound [] [] h = refl
same_labels_sound [] (y ∷ m) h = ground arith
same_labels_sound (x ∷ l) [] h = ground arith
same_labels_sound ((j, v) ∷ l) ((k, w) ∷ m) h =
    ground (arith, eq_iff j k, ==_iff v w, same_labels_sound l m)

abbrev pub same_label_map : Option Labels → Option Labels → Bool
same_label_map none none = true
same_label_map (some l) (some m) = same_labels l m
same_label_map _ _ = false

pub same_label_map_sound : (l m : Option Labels) → same_label_map l m ≡ true → l ≡ m
same_label_map_sound none none h = refl
same_label_map_sound none (some m) h = ground arith
same_label_map_sound (some l) none h = ground arith
same_label_map_sound (some l) (some m) h = ap some (same_labels_sound l m h)

-- Machine pool entries.
unfoldable pub stored_pool : Memory → Key → Option HyperMachinePool
stored_pool w k =
    if key_eq k key_a
    then some (pool_named key_a w.pool_a)
    else if key_eq k key_b
    then some (pool_named key_b w.pool_b)
    else none

abbrev keep : Labels → HyperMachinePool → List HyperMachinePool → List HyperMachinePool
keep sel p rest = if matches sel p.meta.labels then p ∷ rest else rest

abbrev list_pools : Memory → Labels → List HyperMachinePool
list_pools w sel = keep sel (pool_named key_a w.pool_a) (keep sel (pool_named key_b w.pool_b) [])

abbrev patch_pool : Memory → HyperMachinePool → HyperMachinePool → Result HyperMachinePool × Memory
patch_pool w old new =
    if key_eq (key_of new.meta) key_a && same_label_map old.meta.labels w.pool_a.meta.labels
    then (value new, record w { pool_a = new })
    else if key_eq (key_of new.meta) key_b && same_label_map old.meta.labels w.pool_b.meta.labels
    then (value new, record w { pool_b = new })
    else (fault (failure (codes "conflict")), w)

abbrev pub found : {A : Type 0} → Option A → Result A
found none = fault (not_found (codes "not found"))
found (some a) = value a

abbrev error_of : {A : Type 0} → Result A → Option Fault
error_of (value a) = none
error_of (fault e) = some e

abbrev pub pool_store : Store Memory HyperMachinePool
pool_store = record {
  get = λ w k. found (stored_pool w k);
  list = λ w sel. value (list_pools w sel);
  patch = patch_pool;
  new_helper = λ w p. none;
  persist = λ w old new. (error_of (patch_pool w old new).0, (patch_pool w old new).1);
}

b_ne_a : (key_eq key_b key_a ≡ false) × (key_eq key_a key_a ≡ true) × (key_eq key_b key_b ≡ true)
unfolding codes ◌==◌
b_ne_a = (refl, refl, refl)

stored_a : (w : Memory) → stored_pool w key_a ≡ some (pool_named key_a w.pool_a)
unfolding stored_pool
stored_a w = rw b_ne_a.1

stored_b : (w : Memory) → stored_pool w key_b ≡ some (pool_named key_b w.pool_b)
unfolding stored_pool
stored_b w = ground (arith, b_ne_a)

abbrev Listed : Memory → Labels → HyperMachinePool → Type 0
Listed w sel p = (stored_pool w (key_of p.meta) ≡ some p) × (matches sel p.meta.labels ≡ true)

pub value-injective : {A : Type 0} (x y : A) → value x ≡ value y → x ≡ y
value-injective x y e = cc

keep_sound :
    (w : Memory) (sel : Labels) (p : HyperMachinePool) (rest : List HyperMachinePool)
    → stored_pool w (key_of p.meta) ≡ some p
    → All (Listed w sel) rest
    → All (Listed w sel) (keep sel p rest)
keep_sound w sel p rest at_key h = elim (Bool-cases (matches sel p.meta.labels)) [
  | inl e ↦ rw e ((at_key, e), h)
  | inr e ↦ rw e h
]

list_pools_sound : (w : Memory) (sel : Labels) → All (Listed w sel) (list_pools w sel)
list_pools_sound w sel =
    keep_sound w sel (pool_named key_a w.pool_a) _ (stored_a w)
      (keep_sound w sel (pool_named key_b w.pool_b) [] (stored_b w) tt)

stored_is :
    (w : Memory) (k : Key) {p : HyperMachinePool}
    → stored_pool w k ≡ some p
    → (p ≡ pool_named key_a w.pool_a) ⊎ (p ≡ pool_named key_b w.pool_b)
unfolding stored_pool
stored_is w k e = elim (Bool-cases (key_eq k key_a)) [
  | inl at_a ↦ inl (ground arith)
  | inr not_a ↦ elim (Bool-cases (key_eq k key_b)) [
    | inl at_b ↦ inr (ground arith)
    | inr not_b ↦ absurd (ground arith)
  ]
]

list_pools_complete :
    (w : Memory) (sel : Labels) (k : Key) {p : HyperMachinePool}
    → stored_pool w k ≡ some p
    → matches sel p.meta.labels ≡ true
    → list_pools w sel ≢ []
list_pools_complete w sel k {p} e m = elim (stored_is w k e) [
  | inl same ↦ ground (arith, rw same at m)
  | inr same ↦ ground (arith, rw same at m)
]

abbrev label_in : Memory → Key → String → Option Bytes
label_in w k l = stored_label (λ (p : HyperMachinePool). p.meta) (stored_pool w k) l

b_not_a : (k : Key) → key_eq k key_b ≡ true → key_eq k key_a ≡ false
b_not_a k h = rw (key_eq_iff k key_b h) b_ne_a.0

-- What an accepted patch means.
abbrev Patched : Memory → HyperMachinePool → HyperMachinePool → Memory → Type 0
Patched w old new w' =
    ((key_eq (key_of new.meta) key_a ≡ true)
      × (old.meta.labels ≡ w.pool_a.meta.labels)
      × (w' ≡ record w { pool_a = new }))
    ⊎ ((key_eq (key_of new.meta) key_b ≡ true)
        × (old.meta.labels ≡ w.pool_b.meta.labels)
        × (w' ≡ record w { pool_b = new }))

patched :
    (w : Memory) (old new : HyperMachinePool) {r : HyperMachinePool} {w' : Memory}
    → patch_pool w old new ≡ (value r, w')
    → Patched w old new w'
patched w old new e =
    elim (Bool-cases
      (key_eq (key_of new.meta) key_a && same_label_map old.meta.labels w.pool_a.meta.labels)) [
        | inl a ↦ inl (ground arith, same_label_map_sound _ _ (ground arith), ground arith)
        | inr not_a ↦
            elim (Bool-cases (
              key_eq (key_of new.meta) key_b
              && same_label_map old.meta.labels w.pool_b.meta.labels)) [
                | inl b ↦ inr (ground arith, same_label_map_sound _ _ (ground arith), ground arith)
                | inr not_b ↦ absurd (ground arith)
              ]
      ]

Patched-labels :
    (w : Memory) (old new : HyperMachinePool) {w' : Memory}
    → Patched w old new w'
    → (l : String)
    → label_in w' (key_of new.meta) l ≡ (
        if value_eq (label? l new.meta.labels) (label? l old.meta.labels)
        then label_in w (key_of new.meta) l
        else label? l new.meta.labels)
unfolding stored_pool
Patched-labels w old new (inl (at_a, same, after)) l =
    rw (after, at_a)
      (ground (
        arith,
        ap (label? l) same,
        value_eq_iff (label? l new.meta.labels) (label? l old.meta.labels),
      ))
Patched-labels w old new (inr (at_b, same, after)) l =
    rw (after, b_not_a _ at_b, at_b)
      (ground (
        arith,
        ap (label? l) same,
        value_eq_iff (label? l new.meta.labels) (label? l old.meta.labels),
      ))

pub not_same : (k j c : Key) → key_eq j c ≡ true → k ≢ j → key_eq k c ≡ false
not_same k j c h other = elim (Bool-cases (key_eq k c)) [
  | inl e ↦ absurd (other (key_eq_iff k c e ∙ sym (key_eq_iff j c h)))
  | inr e ↦ e
]

Patched-other :
    (w : Memory) (old new : HyperMachinePool) {w' : Memory}
    → Patched w old new w'
    → (k : Key) → k ≢ key_of new.meta
    → stored_pool w' k ≡ stored_pool w k
unfolding stored_pool
Patched-other w old new (inl (at_a, same, after)) k other =
    rw (after, not_same k (key_of new.meta) key_a at_a other)
Patched-other w old new (inr (at_b, same, after)) k other =
    rw (after, not_same k (key_of new.meta) key_b at_b other)

pub found_sound : {A : Type 0} (o : Option A) (a : A) → found o ≡ value a → o ≡ some a
found_sound none a e = ground arith
found_sound (some b) a e = cc

stored_pool_key :
    (w : Memory) (k : Key) {p : HyperMachinePool} → stored_pool w k ≡ some p → key_of p.meta ≡ k
unfolding stored_pool
stored_pool_key w k e = ground (arith, key_eq_iff k key_a, key_eq_iff k key_b)

refused_pool :
    (w : Memory) (old new : HyperMachinePool) {e : Fault} {w' : Memory}
    → patch_pool w old new ≡ (fault e, w')
    → w' ≡ w
refused_pool w old new e = ground arith

pub pool_store-IsConsistent : IsConsistent (λ (p : HyperMachinePool). p.meta) pool_store stored_pool
pool_store-IsConsistent = record {
  get_stored = λ w k e. ap found e;
  get_sound = λ w k {x} e. found_sound (stored_pool w k) x e;
  stored_key = λ w k e. stored_pool_key w k e;
  list_sound =
      λ w sel {xs} e. rw (value-injective (list_pools w sel) xs e) at (list_pools_sound w sel);
  list_complete = λ w sel k e m none_listed.
      list_pools_complete w sel k e m (value-injective (list_pools w sel) [] none_listed);
  patch_labels = λ w old new e l. Patched-labels w old new (patched w old new e) l;
  patch_other = λ w old new e k other. Patched-other w old new (patched w old new e) k other;
  patch_refused = λ w old new e k. ap (λ v. stored_pool v k) (refused_pool w old new e);
}

pub pool_store-IsMerging : IsMerging (λ (p : HyperMachinePool). p.meta) pool_store stored_pool
pool_store-IsMerging = record {
  persist_label = λ w old new k l.
      patch_label (λ (p : HyperMachinePool). p.meta) pool_store stored_pool pool_store-IsConsistent
        w old new l k;
}
