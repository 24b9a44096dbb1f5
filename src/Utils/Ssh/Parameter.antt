-- ===== src/Utils/Ssh/Parameter.antt =====
-- `strings.Replace` of a parameter such as "$1", as one pass over the text.
use cluster_api_provider_hyp.Base.{
  ℕ, zero, suc, ◌≤◌, Bytes, ◌≡◌, ◌≢◌, refl, ap, sym, ◌∙◌, ◌&&◌, List, [], ◌∷◌, ◌++◌, none, some,
  arith, All, nat_eq, length, strip_prefix?, if◌then◌else◌, Option-cases, inl, inr,
}
use native.Mathlib.Decide.{ℕ_discrete}
use mathlib.Core.List.{cons-ne-nil}
use cluster_api_provider_hyp.Base.Split.{
  cut?, push_front, split, join, replace_all, split-none, split-some, length-cut?,
}

-- "$d" becomes `v`.
unfoldable pub expand : ℕ → Bytes → Bytes → Bytes
expand d v [] = []
expand d v (c ∷ []) = c ∷ []
expand d v (c ∷ e ∷ s) =
    let rest = expand d v s in
    let more = expand d v (e ∷ s) in if nat_eq c b'$' && nat_eq e d then v ++ rest else c ∷ more

abbrev pub parameter : ℕ → Bytes
parameter d = b'$' ∷ d ∷ []

cut?_pair :
    (d c e : ℕ) (s : Bytes)
    → cut? (c ∷ e ∷ s) (parameter d) ≡ (
        if nat_eq c b'$' && nat_eq e d
        then some ([], s)
        else push_front c (cut? (e ∷ s) (parameter d)))
unfolding cut? strip_prefix?
cut?_pair d c e s = ground arith

expand-none : (d : ℕ) (v s : Bytes) → cut? s (parameter d) ≡ none → expand d v s ≡ s
unfolding expand push_front
expand-none d v [] h = refl
expand-none d v (c ∷ []) h = refl
expand-none d v (c ∷ e ∷ s) h = ground (arith, cut?_pair d c e s, expand-none d v (e ∷ s))

expand-some :
    (d : ℕ) (v s a r : Bytes)
    → cut? s (parameter d) ≡ some (a, r)
    → expand d v s ≡ a ++ (v ++ expand d v r)
unfolding expand push_front
expand-some d v [] a r h = unfold cut? in absurd (ground arith)
expand-some d v (c ∷ []) a r h = unfold cut? strip_prefix? in absurd (ground arith)
expand-some d v (c ∷ e ∷ s) [] r h = ground (arith, cut?_pair d c e s)
expand-some d v (c ∷ e ∷ s) (x ∷ a) r h =
    ground (arith, cut?_pair d c e s, expand-some d v (e ∷ s) a r)

split_cons : (s sep : Bytes) → sep ≢ [] → (x : Bytes) × (xs : List Bytes) × (split s sep ≡ x ∷ xs)
split_cons s sep h = elim (Option-cases (cut? s sep)) [
  | inl e ↦ (s, [], split-none s sep e)
  | inr ((a, r), e) ↦ (a, split r sep, split-some s sep a r h e)
]

replace_all-some :
    (s sep v a r : Bytes)
    → sep ≢ []
    → cut? s sep ≡ some (a, r)
    → replace_all s sep v ≡ a ++ (v ++ replace_all r sep v)
unfolding replace_all join
replace_all-some s sep v a r h e =
    let (x, xs, tail) = split_cons r sep h in rw (split-some s sep a r h e, tail) refl

replace_all-none : (s sep v : Bytes) → cut? s sep ≡ none → replace_all s sep v ≡ s
unfolding replace_all join
replace_all-none s sep v e = rw (split-none s sep e) refl

-- On fuel for the length of the text.
replace_all_fuel :
    (n d : ℕ) (v s : Bytes) → length s ≤ n → replace_all s (parameter d) v ≡ expand d v s
replace_all_fuel zero d v [] fits =
    replace_all-none [] (parameter d) v (unfold cut? in refl) ∙ (unfold expand in refl)
replace_all_fuel zero d v (c ∷ s) fits = absurd (omega arith)
replace_all_fuel (suc n) d v s fits = elim (Option-cases (cut? s (parameter d))) [
  | inl e ↦ replace_all-none s (parameter d) v e ∙ sym (expand-none d v s e)
  | inr ((a, r), e) ↦
      let shorter = length-cut? s (parameter d) a r (cons-ne-nil _ _) e in
      replace_all-some s (parameter d) v a r (cons-ne-nil _ _) e
      ∙ ap (λ t. a ++ (v ++ t)) (replace_all_fuel n d v r (omega arith))
      ∙ sym (expand-some d v s a r e)
]

pub replace_all-parameter : (d : ℕ) (v s : Bytes) → replace_all s (parameter d) v ≡ expand d v s
replace_all-parameter d v s = replace_all_fuel (length s) d v s (omega arith)

-- No "$$" in the text.
abbrev pub IsSingle : Bytes → Type 0
IsSingle [] = Unit
IsSingle (c ∷ []) = Unit
IsSingle (c ∷ e ∷ s) = (c ≡ b'$' → e ≢ b'$') × IsSingle (e ∷ s)

abbrev pub IsPlain : Bytes → Type 0
IsPlain = All (λ c. c ≢ b'$')

expand-plain : (d c : ℕ) (v t : Bytes) → c ≢ b'$' → expand d v (c ∷ t) ≡ c ∷ expand d v t
unfolding expand
expand-plain d c v [] h = refl
expand-plain d c v (e ∷ t) h = ground arith

expand-append : (d : ℕ) (v u t : Bytes) → IsPlain u → expand d v (u ++ t) ≡ u ++ expand d v t
expand-append d v [] t h = refl
expand-append d v (c ∷ u) t (hc, hu) =
    expand-plain d c v (u ++ t) hc ∙ ap (◌∷◌ c) (expand-append d v u t hu)

expand-hit : (d : ℕ) (v s : Bytes) → expand d v (b'$' ∷ d ∷ s) ≡ v ++ expand d v s
unfolding expand
expand-hit d v s = ground arith

expand-miss :
    (d e : ℕ) (v s : Bytes) → e ≢ d → e ≢ b'$' → expand d v (b'$' ∷ e ∷ s) ≡ b'$' ∷ e ∷ expand d v s
unfolding expand
expand-miss d e v s other plain = ground (arith, expand-plain d e v s plain)

IsSingle-tail : (c : ℕ) (s : Bytes) → IsSingle (c ∷ s) → IsSingle s
IsSingle-tail c [] h = tt
IsSingle-tail c (e ∷ s) (ne, h) = h

-- Two parameters may be replaced in either order.
module _ (d e : ℕ) (v w : Bytes) (other : d ≢ e) (plain_d : d ≢ b'$') (plain_e : e ≢ b'$')
    (plain_v : IsPlain v) (plain_w : IsPlain w) where
  pub expand_comm : (s : Bytes) → IsSingle s → expand d v (expand e w s) ≡ expand e w (expand d v s)
  expand_comm [] h = unfold expand in refl
  expand_comm (c ∷ []) h = unfold expand in refl
  expand_comm (c ∷ x ∷ s) (single, h) = elim (ℕ_discrete c b'$') [
    | no ne ↦
        rw
          (
            expand-plain e c w (x ∷ s) ne,
            expand-plain d c v (x ∷ s) ne,
            expand-plain d c v (expand e w (x ∷ s)) ne,
            expand-plain e c w (expand d v (x ∷ s)) ne,
          )
          (ap (◌∷◌ c) (expand_comm (x ∷ s) h))
    | yes is ↦ rw is (elim (ℕ_discrete x d) [
      | yes at_d ↦ rw at_d (
          rw
            (
              expand-miss e d w s other plain_d,
              expand-hit d v (expand e w s),
              expand-hit d v s,
              expand-append e w v (expand d v s) plain_v,
            )
            (ap (◌++◌ v) (expand_comm s (IsSingle-tail x s h))))
      | no not_d ↦ elim (ℕ_discrete x e) [
        | yes at_e ↦ rw at_e (
            rw
              (
                expand-miss d e v s (λ q. other (sym q)) plain_e,
                expand-hit e w s,
                expand-hit e w (expand d v s),
                expand-append d v w (expand e w s) plain_w,
              )
              (ap (◌++◌ w) (expand_comm s (IsSingle-tail x s h))))
        | no not_e ↦
            let plain_x = single is in
            rw
              (
                expand-miss e x w s not_e plain_x,
                expand-miss d x v s not_d plain_x,
                expand-miss d x v (expand e w s) not_d plain_x,
                expand-miss e x w (expand d v s) not_e plain_x,
              )
              (ap (λ t. b'$' ∷ x ∷ t) (expand_comm s (IsSingle-tail x s h)))
      ]
    ])
  ]

IsSingle-cons : (c : ℕ) (t : Bytes) → c ≢ b'$' → IsSingle t → IsSingle (c ∷ t)
IsSingle-cons c [] ne h = tt
IsSingle-cons c (e ∷ t) ne h = (λ is. absurd (ne is), h)

IsSingle-append : (v t : Bytes) → IsPlain v → IsSingle t → IsSingle (v ++ t)
IsSingle-append [] t p h = h
IsSingle-append (c ∷ v) t (pc, pv) h = IsSingle-cons c (v ++ t) pc (IsSingle-append v t pv h)

-- The text stays without "$$".
pub expand-IsSingle : (d : ℕ) (v s : Bytes) → IsPlain v → IsSingle s → IsSingle (expand d v s)
expand-IsSingle d v [] p h = unfold expand in tt
expand-IsSingle d v (c ∷ []) p h = unfold expand in tt
expand-IsSingle d v (c ∷ x ∷ s) p (single, h) = elim (ℕ_discrete c b'$') [
  | no ne ↦
      rw (expand-plain d c v (x ∷ s) ne)
        (IsSingle-cons c (expand d v (x ∷ s)) ne (expand-IsSingle d v (x ∷ s) p h))
  | yes is ↦ elim (ℕ_discrete x d) [
    | yes at_d ↦
        rw (is, at_d)
          (rw (expand-hit d v s)
            (IsSingle-append v (expand d v s) p (expand-IsSingle d v s p (IsSingle-tail x s h))))
    | no not_d ↦
        let plain_x = single is in
        rw is (
          rw (expand-miss d x v s not_d plain_x) (
            λ _. plain_x,
            IsSingle-cons x (expand d v s) plain_x (expand-IsSingle d v s p (IsSingle-tail x s h)),
          ))
  ]
]
