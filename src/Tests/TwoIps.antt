-- ===== src/Tests/TwoIps.antt =====
-- Two IPs, stored as the two entries of the memory.
use cluster_api_provider_hyp.Base.{
  String, ◌≡◌, refl, ap, sym, ◌∙◌, true, List, [], ◌∷◌, Option, none, some, All, arith,
}
use mathlib.Core.Option.{some-injective}
use cluster_api_provider_hyp.Api.{
  Labels, matches, Key, HyperMachinePool, HyperIpPool, Fault, Result, value, fault, Store,
  IsConsistent, IsMerging, patch_label, stored_label, key_of, zero_pool,
}
use cluster_api_provider_hyp.Tests.Memory.{
  Memory, stored_pool, pool_store, pool_store-IsConsistent, value-injective,
}

-- An IP in the place of an entry's address.
abbrev to_ip : HyperMachinePool → HyperIpPool
to_ip p = record {
  meta = p.meta;
  spec = record { ip = elim p.spec.ssh [ none ↦ [] | some info ↦ info.address ] };
}

abbrev pub of_ip : HyperIpPool → HyperMachinePool
of_ip x = record zero_pool {
  meta = x.meta;
  spec = record { ssh = some (record { address = x.spec.ip; ssh_id = []; ssh_pw = [] }) };
}

abbrev map_result : {A B : Type 0} → (A → B) → Result A → Result B
map_result f (value a) = value (f a)
map_result f (fault e) = fault e

abbrev map_list : List HyperMachinePool → List HyperIpPool
map_list [] = []
map_list (p ∷ l) = to_ip p ∷ map_list l

abbrev map_option : Option HyperMachinePool → Option HyperIpPool
map_option none = none
map_option (some p) = some (to_ip p)

abbrev pub stored_two : Memory → Key → Option HyperIpPool
stored_two w k = map_option (stored_pool w k)

abbrev pub two_store : Store Memory HyperIpPool
two_store = record {
  get = λ w k. map_result to_ip (pool_store.get w k);
  list = λ w sel. map_result map_list (pool_store.list w sel);
  patch = λ w old new.
      let (r, w') = pool_store.patch w (of_ip old) (of_ip new) in (map_result to_ip r, w');
  new_helper = λ w p. none;
  persist = λ w old new. (none, (pool_store.patch w (of_ip old) (of_ip new)).1);
}

mapped_some :
    (o : Option HyperMachinePool) (x : HyperIpPool)
    → map_option o ≡ some x
    → (p : HyperMachinePool) × (o ≡ some p) × (to_ip p ≡ x)
mapped_some none x e = absurd (ground arith)
mapped_some (some p) x e = (p, refl, some-injective _ _ e)

mapped_value :
    {A B : Type 0} (f : A → B) (r : Result A) (x : B)
    → map_result f r ≡ value x
    → (a : A) × (r ≡ value a) × (f a ≡ x)
mapped_value f (value a) x e = (a, refl, value-injective _ _ e)
mapped_value f (fault e') x e = absurd (ground arith)

fault-injective : {A : Type 0} (a b : Fault) → ◌≡◌ {A = Result A} (fault a) (fault b) → a ≡ b
fault-injective a b e = cc

mapped_fault :
    {A B : Type 0} (f : A → B) (r : Result A) (e : Fault) → map_result f r ≡ fault e → r ≡ fault e
mapped_fault f (value a) e h = absurd (ground arith)
mapped_fault f (fault e') e h = ap fault (fault-injective _ _ h)

mapped_patch :
    (x : Result HyperMachinePool × Memory) (r : HyperIpPool) (w' : Memory)
    → ◌≡◌ {A = Result HyperIpPool × Memory} (map_result to_ip x.0, x.1) (value r, w')
    → (p : HyperMachinePool) × (x ≡ (value p, w'))
mapped_patch (value p, w) r w' e = (p, ap (λ v. (value p, v)) (ap (λ y. y.1) e))
mapped_patch (fault f, w) r w' e = absurd (ground arith)

abbrev refusal : Fault × Memory → Result HyperMachinePool × Memory
refusal y = (fault y.0, y.1)

pairs : (g f : Fault) (w w' : Memory) → g ≡ f → w ≡ w' → ◌≡◌ {A = Fault × Memory} (g, w) (f, w')
pairs g f w w' a b = rw (a, b) refl

mapped_refusal :
    (x : Result HyperMachinePool × Memory) (f : Fault) (w' : Memory)
    → ◌≡◌ {A = Result HyperIpPool × Memory} (map_result to_ip x.0, x.1) (fault f, w')
    → x ≡ (fault f, w')
mapped_refusal (value p, w) f w' e = absurd (ground arith)
mapped_refusal (fault g, w) f w' e =
    ap refusal (pairs g f w w' (fault-injective g f (ap (λ y. y.0) e)) (ap (λ y. y.1) e))

mapped_label :
    (o : Option HyperMachinePool) (l : String)
    → stored_label (λ (x : HyperIpPool). x.meta) (map_option o) l
      ≡ stored_label (λ (p : HyperMachinePool). p.meta) o l
mapped_label none l = refl
mapped_label (some p) l = refl

mapped_listed :
    (w : Memory) (sel : Labels) (l : List HyperMachinePool)
    → All (λ p. (stored_pool w (key_of p.meta) ≡ some p) × (matches sel p.meta.labels ≡ true)) l
    → All
        (λ x. (stored_two w (key_of x.meta) ≡ some x) × (matches sel x.meta.labels ≡ true))
        (map_list l)
mapped_listed w sel [] h = tt
mapped_listed w sel (p ∷ l) ((at_key, m), h) = ((ap map_option at_key, m), mapped_listed w sel l h)

map_list_empty : (l : List HyperMachinePool) → map_list l ≡ [] → l ≡ []
map_list_empty [] e = refl
map_list_empty (p ∷ l) e = absurd (ground arith)

pub two_store-IsConsistent : IsConsistent (λ (x : HyperIpPool). x.meta) two_store stored_two
two_store-IsConsistent = record {
  get_stored = λ w k {x} e.
      let (p, at_k, same) = mapped_some (stored_pool w k) x e in
      ap (map_result to_ip) (pool_store-IsConsistent.get_stored w k at_k) ∙ ap value same;
  get_sound = λ w k {x} e.
      let (p, got, same) = mapped_value to_ip (pool_store.get w k) x e in
      ap map_option (pool_store-IsConsistent.get_sound w k got) ∙ ap some same;
  stored_key = λ w k {x} e.
      let (p, at_k, same) = mapped_some (stored_pool w k) x e in
      ap (λ (y : HyperIpPool). key_of y.meta) (sym same)
      ∙ pool_store-IsConsistent.stored_key w k at_k;
  list_sound = λ w sel {xs} e.
      let (l, listed, same) = mapped_value map_list (pool_store.list w sel) xs e in
      rw same at (mapped_listed w sel l (pool_store-IsConsistent.list_sound w sel listed));
  list_complete = λ w sel k {x} e m none_listed.
      let (p, at_k, same) = mapped_some (stored_pool w k) x e in
      let (l, listed, empty) = mapped_value map_list (pool_store.list w sel) [] none_listed in
      pool_store-IsConsistent.list_complete w sel k at_k
        (ap (λ (y : HyperIpPool). matches sel y.meta.labels) same ∙ m)
        (listed ∙ ap value (map_list_empty l empty));
  patch_labels = λ w old new {r} {w'} e l.
      let (p, patched) = mapped_patch (pool_store.patch w (of_ip old) (of_ip new)) r w' e in
      rw
        (
          mapped_label (stored_pool w' (key_of new.meta)) l,
          mapped_label (stored_pool w (key_of new.meta)) l,
        )
        (pool_store-IsConsistent.patch_labels w (of_ip old) (of_ip new) patched l);
  patch_other = λ w old new {r} {w'} e k other.
      let (p, patched) = mapped_patch (pool_store.patch w (of_ip old) (of_ip new)) r w' e in
      ap map_option (pool_store-IsConsistent.patch_other w (of_ip old) (of_ip new) patched k other);
  patch_refused = λ w old new {e = f} {w'} h k. ap map_option (
      pool_store-IsConsistent.patch_refused w (of_ip old) (of_ip new)
        (mapped_refusal (pool_store.patch w (of_ip old) (of_ip new)) f w' h) k);
}

pub two_store-IsMerging : IsMerging (λ (x : HyperIpPool). x.meta) two_store stored_two
two_store-IsMerging = record {
  persist_label = λ w old new k l.
      patch_label (λ (x : HyperIpPool). x.meta) two_store stored_two two_store-IsConsistent w old
        new l k;
}
