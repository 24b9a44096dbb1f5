-- ===== src/Tests/Ips.antt =====
-- The one IP of the memory, as a store that meets the laws.
use cluster_api_provider_hyp.Base.{
  String, codes, ◌==◌, ◌≡◌, ◌≢◌, refl, ap, true, ◌&&◌, List, [], ◌∷◌, Option, none, some, All,
  arith, if◌then◌else◌, Bool-cases, inl, inr, Bytes,
}
use cluster_api_provider_hyp.Api.{
  Labels, label?, matches, value_eq, value_eq_iff, Key, HyperIpPool, Fault, failure, Result, value,
  fault, Store, IsConsistent, stored_label, key_of,
}
use cluster_api_provider_hyp.Tests.Memory.{
  found_sound, key_eq_iff, Memory, key_eq, not_same, same_label_map, same_label_map_sound, named,
  found, value-injective,
}

abbrev pub key_ip : Key
key_ip = record { namespace = codes "ns"; name = codes "ip" }

abbrev ip_named : HyperIpPool → HyperIpPool
ip_named p = record p { meta = named key_ip p.meta }

unfoldable pub stored_ip : Memory → Key → Option HyperIpPool
stored_ip w k = if key_eq k key_ip then some (ip_named w.ip) else none

abbrev list_ips : Memory → Labels → List HyperIpPool
list_ips w sel = if matches sel w.ip.meta.labels then ip_named w.ip ∷ [] else []

abbrev pub patch_ip : Memory → HyperIpPool → HyperIpPool → Result HyperIpPool × Memory
patch_ip w old new =
    if key_eq (key_of new.meta) key_ip && same_label_map old.meta.labels w.ip.meta.labels
    then (value new, record w { ip = new })
    else (fault (failure (codes "conflict")), w)

abbrev pub ip_store : Store Memory HyperIpPool
ip_store = record {
  get = λ w k. found (stored_ip w k);
  list = λ w sel. value (list_ips w sel);
  patch = patch_ip;
  new_helper = λ w p. none;
  persist = λ w old new. (none, record w { ip = new });
}

ip_is_ip : key_eq key_ip key_ip ≡ true
unfolding codes ◌==◌
ip_is_ip = refl

abbrev Listed : Memory → Labels → HyperIpPool → Type 0
Listed w sel p = (stored_ip w (key_of p.meta) ≡ some p) × (matches sel p.meta.labels ≡ true)

list_ips_sound : (w : Memory) (sel : Labels) → All (Listed w sel) (list_ips w sel)
unfolding stored_ip
list_ips_sound w sel = elim (Bool-cases (matches sel w.ip.meta.labels)) [
  | inl e ↦ rw e ((rw ip_is_ip refl, e), tt)
  | inr e ↦ rw e tt
]

list_ips_complete :
    (w : Memory) (sel : Labels) (k : Key) {p : HyperIpPool}
    → stored_ip w k ≡ some p
    → matches sel p.meta.labels ≡ true
    → list_ips w sel ≢ []
unfolding stored_ip
list_ips_complete w sel k e m = elim (Bool-cases (key_eq k key_ip)) [
  | inl at_ip ↦ ground arith
  | inr other ↦ absurd (ground arith)
]

abbrev Patched : Memory → HyperIpPool → HyperIpPool → Memory → Type 0
Patched w old new w' =
    (key_eq (key_of new.meta) key_ip ≡ true)
    × (old.meta.labels ≡ w.ip.meta.labels)
    × (w' ≡ record w { ip = new })

patched :
    (w : Memory) (old new : HyperIpPool) {r : HyperIpPool} {w' : Memory}
    → patch_ip w old new ≡ (value r, w')
    → Patched w old new w'
patched w old new e =
    elim (Bool-cases
      (key_eq (key_of new.meta) key_ip && same_label_map old.meta.labels w.ip.meta.labels)) [
        | inl a ↦ (ground arith, same_label_map_sound _ _ (ground arith), ground arith)
        | inr not_a ↦ absurd (ground arith)
      ]

abbrev label_in : Memory → Key → String → Option Bytes
label_in w k l = stored_label (λ (p : HyperIpPool). p.meta) (stored_ip w k) l

Patched-labels :
    (w : Memory) (old new : HyperIpPool) {w' : Memory}
    → Patched w old new w'
    → (l : String)
    → label_in w' (key_of new.meta) l ≡ (
        if value_eq (label? l new.meta.labels) (label? l old.meta.labels)
        then label_in w (key_of new.meta) l
        else label? l new.meta.labels)
unfolding stored_ip
Patched-labels w old new (at_ip, same, after) l =
    rw (after, at_ip)
      (ground (
        arith,
        ap (label? l) same,
        value_eq_iff (label? l new.meta.labels) (label? l old.meta.labels),
      ))

Patched-other :
    (w : Memory) (old new : HyperIpPool) {w' : Memory}
    → Patched w old new w'
    → (k : Key) → k ≢ key_of new.meta
    → stored_ip w' k ≡ stored_ip w k
unfolding stored_ip
Patched-other w old new (at_ip, same, after) k other =
    rw (after, not_same k (key_of new.meta) key_ip at_ip other)

stored_ip_key :
    (w : Memory) (k : Key) {p : HyperIpPool} → stored_ip w k ≡ some p → key_of p.meta ≡ k
unfolding stored_ip
stored_ip_key w k e = ground (arith, key_eq_iff k key_ip)

refused_ip :
    (w : Memory) (old new : HyperIpPool) {e : Fault} {w' : Memory}
    → patch_ip w old new ≡ (fault e, w')
    → w' ≡ w
refused_ip w old new e = ground arith

pub ip_store-IsConsistent : IsConsistent (λ (p : HyperIpPool). p.meta) ip_store stored_ip
ip_store-IsConsistent = record {
  get_stored = λ w k e. ap found e;
  get_sound = λ w k {x} e. found_sound (stored_ip w k) x e;
  stored_key = λ w k e. stored_ip_key w k e;
  list_sound = λ w sel {xs} e. rw (value-injective (list_ips w sel) xs e) at (list_ips_sound w sel);
  list_complete = λ w sel k e m none_listed.
      list_ips_complete w sel k e m (value-injective (list_ips w sel) [] none_listed);
  patch_labels = λ w old new e l. Patched-labels w old new (patched w old new e) l;
  patch_other = λ w old new e k other. Patched-other w old new (patched w old new e) k other;
  patch_refused = λ w old new e k. ap (λ v. stored_ip v k) (refused_ip w old new e);
}
