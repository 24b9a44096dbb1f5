-- ===== src/Utils/Ssh/Order.antt =====
-- Go ranges over a map in any order: what that leaves of a script.
use mathlib.Core.List.{Perm, Permᴰ, map}
use mathlib.Core.Path.{subst}
use mathlib.Core.Logic.{∥∥₁_elim}
use cluster_api_provider_hyp.Base.{ℕ, Bytes, ◌≡◌, ◌≢◌, refl, ap, sym, ◌∙◌, List, [], ◌∷◌, All}
use cluster_api_provider_hyp.Base.Split.{replace_all}
use cluster_api_provider_hyp.Utils.Ssh.{substitute}
use cluster_api_provider_hyp.Utils.Ssh.Parameter.{
  parameter, expand, replace_all-parameter, IsSingle, IsPlain, expand_comm, expand-IsSingle,
}

-- The config map of a script: what the digit of "$d" stands for.
abbrev pub Parameters : Type 0
Parameters = List (ℕ × Bytes)

abbrev pub config_map : Parameters → List (Bytes × Bytes)
config_map = map λ (p : ℕ × Bytes). (parameter p.0, p.1)

-- The digit and the value of each entry hold no "$".
abbrev pub IsParameter : ℕ × Bytes → Type 0
IsParameter p = (p.0 ≢ b'$') × IsPlain p.1

-- The keys of a map differ.
abbrev pub HasKeys : Parameters → Type 0
HasKeys [] = Unit
HasKeys (p ∷ m) = All (λ (q : ℕ × Bytes). p.0 ≢ q.0) m × HasKeys m

replace_all_comm :
    (a b : ℕ × Bytes) (s : Bytes)
    → a.0 ≢ b.0
    → IsParameter a
    → IsParameter b
    → IsSingle s
    → replace_all (replace_all s (parameter a.0) a.1) (parameter b.0) b.1
      ≡ replace_all (replace_all s (parameter b.0) b.1) (parameter a.0) a.1
replace_all_comm a b s ne (da, pa) (db, pb) single =
    rw
      (
        replace_all-parameter a.0 a.1 s,
        replace_all-parameter b.0 b.1 s,
        replace_all-parameter b.0 b.1 (expand a.0 a.1 s),
        replace_all-parameter a.0 a.1 (expand b.0 b.1 s),
      )
      (expand_comm b.0 a.0 b.1 a.1 (λ q. ne (sym q)) db da pb pa s single)

All-Permᴰ : (P : ℕ × Bytes → Type 0) {l m : Parameters} → Permᴰ l m → All P l → All P m
All-Permᴰ P Permᴰ.nil h = tt
All-Permᴰ P (Permᴰ.cons e d) (ha, h) = (rw e at ha, All-Permᴰ P d h)
All-Permᴰ P (Permᴰ.swap e f) (ha, (hb, h)) = (rw f at hb, (rw e at ha, h))
All-Permᴰ P (Permᴰ.trans c d) h = All-Permᴰ P d (All-Permᴰ P c h)

HasKeys-Permᴰ : {l m : Parameters} → Permᴰ l m → HasKeys l → HasKeys m
HasKeys-Permᴰ Permᴰ.nil h = tt
HasKeys-Permᴰ (Permᴰ.cons {a} {b} {l₁ = l} e d) (apart, h) = (
  All-Permᴰ (λ (q : ℕ × Bytes). b.0 ≢ q.0) d
      (subst (λ p. All (λ (q : ℕ × Bytes). p.0 ≢ q.0) l) e apart),
  HasKeys-Permᴰ d h,
)
HasKeys-Permᴰ (Permᴰ.swap {a} {b} {a'} {b'} {l} e f) ((ne, ha), (hb, h)) = (
  (
    (λ same. ne (ap (λ (p : ℕ × Bytes). p.0) e ∙ sym same ∙ ap (λ (p : ℕ × Bytes). p.0) (sym f))),
    subst (λ p. All (λ (q : ℕ × Bytes). p.0 ≢ q.0) l) f hb,
  ),
  (subst (λ p. All (λ (q : ℕ × Bytes). p.0 ≢ q.0) l) e ha, h),
)
HasKeys-Permᴰ (Permᴰ.trans c d) h = HasKeys-Permᴰ d (HasKeys-Permᴰ c h)

substitute-Permᴰ :
    {l m : Parameters} (contents : Bytes)
    → Permᴰ l m
    → All IsParameter l
    → HasKeys l
    → IsSingle contents
    → substitute (config_map l) contents ≡ substitute (config_map m) contents
unfolding substitute
substitute-Permᴰ contents Permᴰ.nil ok keys single = refl
substitute-Permᴰ contents (Permᴰ.cons {a} {b} {l₁ = l} {l₂ = m} e d) ((_, plain), ok) (apart, keys)
      single =
    subst
      (λ (p : ℕ × Bytes).
        substitute (config_map l) (replace_all contents (parameter a.0) a.1)
        ≡ substitute (config_map m) (replace_all contents (parameter p.0) p.1))
      e
      (substitute-Permᴰ (replace_all contents (parameter a.0) a.1) d ok keys (
        rw (replace_all-parameter a.0 a.1 contents)
          (expand-IsSingle a.0 a.1 contents plain single)))
substitute-Permᴰ contents (Permᴰ.swap {a} {b} {a'} {b'} {l} e f) ((da, pa), ((db, pb), ok))
      ((ne, ha), (hb, keys)) single =
    rw (sym e, sym f)
      (ap (substitute (config_map l)) (replace_all_comm a b contents ne (da, pa) (db, pb) single))
substitute-Permᴰ contents (Permᴰ.trans c d) ok keys single =
    substitute-Permᴰ contents c ok keys single
    ∙ substitute-Permᴰ contents d (All-Permᴰ IsParameter c ok) (HasKeys-Permᴰ c keys) single

-- The script that `ScpFile` sends does not depend on the order in which Go ranges over its config
-- map: where two lists of the map's entries are permutations of each other, their keys are "$" with
-- a digit that is no "$", different keys have different digits, no value holds a "$" and the script
-- holds no "$$", replacing the keys one after another gives the same script.
pub substitute-Perm :
    (l m : Parameters) (contents : Bytes)
    → Perm l m
    → All IsParameter l
    → HasKeys l
    → IsSingle contents
    → substitute (config_map l) contents ≡ substitute (config_map m) contents
substitute-Perm l m contents perm ok keys single =
    ∥∥₁_elim perm (hlevel) (λ d. substitute-Permᴰ contents d ok keys single)
