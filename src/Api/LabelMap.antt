-- ===== src/Api/LabelMap.antt =====
-- utils/const.go, and label maps: `map[string]string` as an association list. A label's key is only
-- ever compared, so it is a native text; its value is a Go string. A nil map is `none`.
use text.Mathlib.Text.{◌==◌ as str_eq}
use text.Mathlib.TextEquality.{eq_iff}
use text.Mathlib.TextPositions.{eq_refl}
use cluster_api_provider_hyp.Base.{
  String, Bytes, ◌==◌, Bool, true, false, ◌&&◌, ◌≡◌, refl, ◌↔◌, ==_iff, List, [], ◌∷◌, Option, none,
  some, arith, if◌then◌else◌,
}

abbrev pub label_hyper_machine_pool_valid : String
label_hyper_machine_pool_valid = "infrastructure.cluster.x-k8s.io/hypermachinepool-valid"

abbrev pub label_hyper_ip_pool : String
label_hyper_ip_pool = "infrastructure.cluster.x-k8s.io/hyperippool"

abbrev pub label_hyper_ip_pool_name : String
label_hyper_ip_pool_name = "infrastructure.cluster.x-k8s.io/hyperippool-name"

abbrev pub label_cluster_name : String
label_cluster_name = "infrastructure.cluster.x-k8s.io/cluster-name"

abbrev pub label_cluster_role_master : String
label_cluster_role_master = "cluster.x-k8s.io/control-plane"

abbrev pub Labels : Type 0
Labels = List (String × Bytes)

-- `val, ok := m[k]`
unfoldable pub lookup : String → Labels → Option Bytes
lookup k [] = none
lookup k ((j, v) ∷ m) = if str_eq j k then some v else lookup k m

-- `m[k] = v` on a map that is not nil
unfoldable pub insert : String → Bytes → Labels → Labels
insert k v [] = (k, v) ∷ []
insert k v ((j, w) ∷ m) = if str_eq j k then (j, v) ∷ m else (j, w) ∷ insert k v m

-- `delete(m, k)`
unfoldable pub erase : String → Labels → Labels
erase k [] = []
erase k ((j, w) ∷ m) = let rest = erase k m in if str_eq j k then rest else (j, w) ∷ rest

pub lookup-insert :
    (j k : String) (v : Bytes) (m : Labels)
    → lookup j (insert k v m) ≡ (if str_eq k j then some v else lookup j m)
unfolding lookup insert
lookup-insert j k v [] = refl
lookup-insert j k v ((i, w) ∷ m) =
    ground (arith, eq_iff k j, eq_iff i k, eq_iff i j, lookup-insert j k v m)

pub lookup-erase :
    (j k : String) (m : Labels) → lookup j (erase k m) ≡ (if str_eq k j then none else lookup j m)
unfolding lookup erase
lookup-erase j k [] = ground arith
lookup-erase j k ((i, w) ∷ m) =
    ground (arith, eq_iff k j, eq_iff i k, eq_iff i j, lookup-erase j k m)

-- The labels of an object, of which the map may be nil.
abbrev pub label? : String → Option Labels → Option Bytes
label? k none = none
label? k (some m) = lookup k m

unfoldable pub value_eq : Option Bytes → Option Bytes → Bool
value_eq none none = true
value_eq (some a) (some b) = a == b
value_eq _ _ = false

-- `client.MatchingLabels`: each key is there, with that value.
unfoldable pub matches : Labels → Option Labels → Bool
matches [] m = true
matches ((k, v) ∷ sel) m = value_eq (label? k m) (some v) && matches sel m

-- `m[k]` where the key may be missing, which gives the empty string.
abbrev pub text_or_empty : Option Bytes → Bytes
text_or_empty none = []
text_or_empty (some v) = v

-- `m[k] = v`; `none` is the panic on a nil map.
abbrev pub set_label? : String → Bytes → Option Labels → Option Labels
set_label? k v none = none
set_label? k v (some m) = some (insert k v m)

pub value_eq_iff : (a b : Option Bytes) → (value_eq a b ≡ true) ↔ (a ≡ b)
unfolding value_eq
value_eq_iff none none = (λ h. refl, λ h. refl)
value_eq_iff none (some b) = ground arith
value_eq_iff (some a) none = ground arith
value_eq_iff (some a) (some b) = ground (arith, ==_iff a b)

pub matches-cons :
    (k : String) (v : Bytes) (sel : Labels) (m : Option Labels)
    → (matches ((k, v) ∷ sel) m ≡ true) ↔ ((label? k m ≡ some v) × (matches sel m ≡ true))
unfolding matches
matches-cons k v sel m = ground (arith, value_eq_iff (label? k m) (some v))

pub lookup-insert_self : (k : String) (v : Bytes) (m : Labels) → lookup k (insert k v m) ≡ some v
lookup-insert_self k v m = simp (lookup-insert, eq_refl)

pub matches-nil : (m : Option Labels) → matches [] m ≡ true
unfolding matches
matches-nil m = refl
