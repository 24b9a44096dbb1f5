-- ===== src/PoolController/Validation/Answers.antt =====
-- What is read from a machine's answers.
use cluster_api_provider_hyp.Base.{
  ℕ, ◌+◌, ◌-◌, ltb, length, length-append, take?-append, drop?, get_elem?, Bytes, codes, ◌++◌,
  append_assoc, ◌≡◌, ◌≢◌, refl, ◌∙◌, [], ◌∷◌, some, All, contains, has_prefix, strip_prefix?, arith,
  true, false, if◌then◌else◌,
}
use mathlib.Core.List.{cons-ne-nil}
use cluster_api_provider_hyp.Base.Split.{split, split_quoted, split-some, cut?_at_byte}
use cluster_api_provider_hyp.PoolController.Validation.{drop_last_two, os_of, centos_interface_of}

-- The end of a line on a terminal.
abbrev pub crlf : Bytes
crlf = b'\r' ∷ b'\n' ∷ []

long : (n : ℕ) → ltb (n + 2) 2 ≡ false
long n = ground arith

back : (n : ℕ) → n + 2 - 2 ≡ n
back n = omega arith

-- One line of output is read without its end.
pub drop_last_two-line : (s : Bytes) → drop_last_two (s ++ crlf) ≡ some s
unfolding drop_last_two
drop_last_two-line s =
    rw (length-append s crlf, long (length s), back (length s)) (take?-append s crlf)

contains_byte : (c : ℕ) (p r : Bytes) → contains (p ++ (c ∷ r)) (c ∷ []) ≡ true
unfolding contains has_prefix strip_prefix?
contains_byte c [] r = ground arith
contains_byte c (x ∷ p) r = ground (arith, contains_byte c p r)

lacks_byte : (c : ℕ) (p : Bytes) → All (λ x. x ≢ c) p → contains p (c ∷ []) ≡ false
unfolding contains has_prefix strip_prefix?
lacks_byte c [] h = refl
lacks_byte c (x ∷ p) (hx, hp) = ground (arith, lacks_byte c p hp)

abbrev pub double_quote : ℕ
double_quote = b'"'

id_front : (v : Bytes) → drop? 3 (codes "ID=" ++ v) ≡ some v
unfolding codes drop?
id_front v = refl

os_of_front :
    (out v : Bytes)
    → drop_last_two out ≡ some (codes "ID=" ++ v)
    → os_of out ≡ (
        if contains v (double_quote ∷ [])
        then get_elem? (split v (double_quote ∷ [])) 1
        else some v)
unfolding os_of codes contains drop?
os_of_front out v e = rw (e, os_of) refl

quoted_holds :
    (name : Bytes)
    → contains (double_quote ∷ (name ++ (double_quote ∷ []))) (double_quote ∷ []) ≡ true
quoted_holds name = contains_byte double_quote [] (name ++ (double_quote ∷ []))

-- The line `ID=name` of the release file, ended as on a terminal, gives the name, with or without
-- quotes around it, where the name has no quote in it.
pub os_of-line :
    (name : Bytes)
    → All (λ c. c ≢ double_quote) name
    → (os_of (codes "ID=" ++ (name ++ crlf)) ≡ some name)
      × (os_of (codes "ID=" ++ ((double_quote ∷ (name ++ (double_quote ∷ []))) ++ crlf))
          ≡ some name)
os_of-line name plain = (
  os_of_front _ name
        (rw (← append_assoc (codes "ID=") name crlf) (drop_last_two-line (codes "ID=" ++ name)))
      ∙ rw (lacks_byte double_quote name plain) refl,
  os_of_front _ (double_quote ∷ (name ++ (double_quote ∷ []))) (
        rw (← append_assoc (codes "ID=") (double_quote ∷ (name ++ (double_quote ∷ []))) crlf)
          (drop_last_two-line (codes "ID=" ++ (double_quote ∷ (name ++ (double_quote ∷ []))))))
      ∙ rw (quoted_holds name, split_quoted double_quote name plain) refl,
)

abbrev pub colon_byte : ℕ
colon_byte = b':'

-- The first line of `ip addr` on an interface.
abbrev pub interface_line : Bytes → Bytes → Bytes → Bytes
interface_line index nic rest = index ++ (colon_byte ∷ ((b' ' ∷ nic) ++ (colon_byte ∷ rest)))

second_piece :
    (index field rest : Bytes)
    → All (λ c. c ≢ colon_byte) index
    → All (λ c. c ≢ colon_byte) field
    → get_elem? (split (index ++ (colon_byte ∷ (field ++ (colon_byte ∷ rest)))) (colon_byte ∷ [])) 1
      ≡ some field
second_piece index field rest hi hf =
    rw
      (
        split-some _ (colon_byte ∷ []) index (field ++ (colon_byte ∷ rest))
            (cons-ne-nil colon_byte []) (cut?_at_byte colon_byte index _ hi),
        split-some _ (colon_byte ∷ []) field rest (cons-ne-nil colon_byte [])
            (cut?_at_byte colon_byte field rest hf),
      )
      refl

-- The name between the first two colons is read, without the blank before it.
pub centos_interface_of-line :
    (index nic rest : Bytes)
    → All (λ c. c ≢ colon_byte) index
    → All (λ c. c ≢ colon_byte) nic
    → centos_interface_of (interface_line index nic rest) ≡ some nic
unfolding centos_interface_of codes drop?
centos_interface_of-line index nic rest hi hn =
    rw (centos_interface_of, second_piece index (b' ' ∷ nic) rest hi (ground arith, hn)) refl
