-- ===== src/Shared/Substring.antt =====
-- client/shared/utils.go: the test for harmless errors, against what it means.
use flare_system_client.Shared.{exists_as_substring}
use flare_system_client.Utils.Hex.{has_prefix, has_substring}
use flare_system_client.Prelude.{
  ℕ, ◌≡◌, refl, sym, ap, ◌∙◌, arith, ◌↔◌, ◌⊎◌, inl, inr, Bool, true, false, ◌&&◌, ◌||◌, Bool-cases,
  List, [], ◌∷◌, ◌++◌, Bytes, ◌==◌, ==_iff,
}

and-true : (a b : Bool) → (a && b) ≡ true → (a ≡ true) × (b ≡ true)
and-true true b h = (refl, h)
and-true false b h = absurd (ground arith)

==_self : (x : ℕ) → (x == x) ≡ true
==_self x = (==_iff x x).1 refl

prefix-rest : (p s : Bytes) → has_prefix p s ≡ true → (post : Bytes) × (s ≡ p ++ post)
unfolding has_prefix
prefix-rest [] s h = (s, refl)
prefix-rest (x ∷ xs) [] h = absurd (ground arith)
prefix-rest (x ∷ xs) (y ∷ ys) h =
    let (same, behind) = and-true (x == y) (has_prefix xs ys) h in
    let (post, e) = prefix-rest xs ys behind in
    (post, ap (λ n. n ∷ ys) (sym ((==_iff x y).0 same)) ∙ ap (λ l. x ∷ l) e)

has_prefix-append : (p post : Bytes) → has_prefix p (p ++ post) ≡ true
unfolding has_prefix
has_prefix-append [] post = refl
has_prefix-append (x ∷ xs) post = rw (==_self x) (has_prefix-append xs post)

-- The text stands in `s`.
abbrev pub StandsIn : Bytes → Bytes → Type 0
StandsIn item s = (pre : Bytes) × (post : Bytes) × (s ≡ pre ++ (item ++ post))

or-cases : (a b : Bool) → (a || b) ≡ true → (a ≡ true) ⊎ (b ≡ true)
or-cases true b h = inl refl
or-cases false b h = inr h

substring-StandsIn : (item s : Bytes) → has_substring item s ≡ true → StandsIn item s
unfolding has_substring
substring-StandsIn item [] h = let (post, e) = prefix-rest item [] h in ([], post, e)
substring-StandsIn item (x ∷ xs) h =
    elim (or-cases (has_prefix item (x ∷ xs)) (has_substring item xs) h) [
      | inl here ↦ (let (post, e) = prefix-rest item (x ∷ xs) here in ([], post, e))
      | inr later ↦
          (let (pre, post, e) = substring-StandsIn item xs later in
            (x ∷ pre, post, ap (λ l. x ∷ l) e))
    ]

or-right : (a b : Bool) → b ≡ true → (a || b) ≡ true
or-right true b h = refl
or-right false b h = h

or-left : (a b : Bool) → a ≡ true → (a || b) ≡ true
or-left true b h = refl
or-left false b h = absurd (ground arith)

StandsIn-substring : (pre item post : Bytes) → has_substring item (pre ++ (item ++ post)) ≡ true
unfolding has_substring
StandsIn-substring [] item post = at_start (item ++ post) (has_prefix-append item post)
  where
    at_start : (s : Bytes) → has_prefix item s ≡ true → has_substring item s ≡ true
    at_start [] h = h
    at_start (x ∷ xs) h = or-left (has_prefix item (x ∷ xs)) (has_substring item xs) h
StandsIn-substring (x ∷ pre) item post =
    or-right (has_prefix item (x ∷ (pre ++ (item ++ post)))) _ (StandsIn-substring pre item post)

-- One of the texts stands in `s`.
abbrev pub OneStandsIn : List Bytes → Bytes → Type 0
OneStandsIn items s =
    (before : List Bytes) × (item : Bytes) × (behind : List Bytes) × (items
      ≡ before ++ (item ∷ behind))
    × StandsIn item s

test_here :
    (i s : _) (is : List Bytes) → has_substring i s ≡ true → exists_as_substring (i ∷ is) s ≡ true
unfolding exists_as_substring
test_here i s is h = rw (h, exists_as_substring) refl

test_later :
    (i s : _) (is : List Bytes)
    → has_substring i s ≡ false
    → exists_as_substring (i ∷ is) s ≡ exists_as_substring is s
unfolding exists_as_substring
test_later i s is h = rw (h, exists_as_substring) refl

none_here : (s : Bytes) → exists_as_substring [] s ≡ false
unfolding exists_as_substring
none_here s = refl

found : (items : List Bytes) (s : Bytes) → exists_as_substring items s ≡ true → OneStandsIn items s
found [] s h = let e : false ≡ true = sym (none_here s) ∙ h in absurd (ground arith)
found (i ∷ is) s h = elim (Bool-cases (has_substring i s)) [
  | inl here ↦ ([], i, is, refl, substring-StandsIn i s here)
  | inr not_here ↦
      (let (before, item, behind, e, stands) = found is s (sym (test_later i s is not_here) ∙ h) in
        (i ∷ before, item, behind, ap (λ l. i ∷ l) e, stands))
]

finds :
    (before behind : List Bytes) (item s : Bytes)
    → has_substring item s ≡ true
    → exists_as_substring (before ++ (item ∷ behind)) s ≡ true
finds [] behind item s h = test_here item s behind h
finds (i ∷ is) behind item s h = elim (Bool-cases (has_substring i s)) [
  | inl here ↦ test_here i s (is ++ (item ∷ behind)) here
  | inr not_here ↦ test_later i s (is ++ (item ∷ behind)) not_here ∙ finds is behind item s h
]

-- The test is positive just if one of the texts stands somewhere in `s`.
pub exists_as_substring-OneStandsIn :
    (items : List Bytes) (s : Bytes) → (exists_as_substring items s ≡ true) ↔ OneStandsIn items s
exists_as_substring-OneStandsIn items s = (
  found items s,
  λ (before, item, behind, e, (pre, post, w)).
      rw (e, w) (finds before behind item _ (StandsIn-substring pre item post)),
)
