-- ===== src/Plan/Secret.antt =====
-- `contains_stellar_private_key`: every window of 56 bytes is tried.
use soroban_upgrades.Base.{
  ℕ, zero, suc, String, Bool, true, false, ◌&&◌, ◌≡◌, refl, ap, sym, ◌↔◌, Option, none, some, List,
  [], ◌∷◌, ◌++◌, cons?, any, all, ltb, ◌==◌, length, arith, Option-cases, inl, inr, subst, In, ◌⊎◌,
  any_witness, any-true,
}
use soroban_upgrades.Base.Text.{as_bytes}
use soroban_upgrades.Plan.External.{PlanExternal}

abbrev pub stellar_secret_seed_length : ℕ
stellar_secret_seed_length = 56

abbrev pub push_byte : ℕ → Option (List ℕ) → Option (List ℕ)
push_byte b none = none
push_byte b (some w) = some (b ∷ w)

-- The first bytes, where there are as many.
unfoldable pub window : ℕ → List ℕ → Option (List ℕ)
window zero bytes = some []
window (suc n) [] = none
window (suc n) (b ∷ bytes) = push_byte b (window n bytes)

-- `slice::windows`
unfoldable pub windows : ℕ → List ℕ → List (List ℕ)
unfolding window
windows n [] = []
windows n (b ∷ bytes) = cons? (window n (b ∷ bytes)) (windows n bytes)

-- `candidate[0] == b'S' && candidate.is_ascii()`
unfoldable pub is_candidate : List ℕ → Bool
is_candidate [] = false
is_candidate (b ∷ w) = b == b'S' && all (λ c. ltb c 128) (b ∷ w)

unfoldable pub contains_stellar_private_key : PlanExternal → String → Bool
unfolding windows is_candidate
contains_stellar_private_key x value =
    any (λ w. is_candidate w && x.is_private_key w)
      (windows stellar_secret_seed_length (as_bytes value))

-- The bytes have a private key in them: a run of 56 ASCII bytes that starts with `S` and reads as one.
abbrev pub HasKey : PlanExternal → List ℕ → Type 0
HasKey x bytes =
    (before : List ℕ) × (key : List ℕ) × (after : List ℕ) × (bytes ≡ before ++ (key ++ after))
    × (length key ≡ stellar_secret_seed_length)
    × (is_candidate key ≡ true)
    × (x.is_private_key key ≡ true)

window-eq-some :
    (n : ℕ) (bytes w : List ℕ)
    → window n bytes ≡ some w
    → (after : List ℕ) × (bytes ≡ w ++ after) × (length w ≡ n)
unfolding window
window-eq-some zero bytes w h =
    let e : [] ≡ w = cc in
    subst (λ v. (after : List ℕ) × (bytes ≡ v ++ after) × (length v ≡ 0)) e (bytes, refl, refl)
window-eq-some (suc n) [] w h = cc
window-eq-some (suc n) (b ∷ bytes) w h = elim (Option-cases (window n bytes)) [
  | inl missing ↦ absurd (ground (arith, rw missing at h))
  | inr (v, found) ↦
      let (after, e, l) = window-eq-some n bytes v found in
      let q : (b ∷ v) ≡ w = cc (rw found at h) in
      subst
        (λ u. (after : List ℕ) × (◌≡◌ {A = List ℕ} (b ∷ bytes) (u ++ after)) × (length u ≡ suc n)) q
        (after, ap (λ r. b ∷ r) e, ap suc l)
]

window-append : (key after : List ℕ) → window (length key) (key ++ after) ≡ some key
unfolding window
window-append [] after = refl
window-append (b ∷ key) after = ap (push_byte b) (window-append key after)

In-cons? :
    (w : List ℕ) (o : Option (List ℕ)) (ws : List (List ℕ))
    → In w (cons? o ws) ↔ ((o ≡ some w) ⊎ In w ws)
In-cons? w none ws = ground arith
In-cons? w (some v) ws = ground arith

In-windows :
    (n : ℕ) (bytes w : List ℕ)
    → In w (windows n bytes)
    → (before : List ℕ) × (after : List ℕ) × (bytes ≡ before ++ (w ++ after)) × (length w ≡ n)
unfolding windows
In-windows n [] w m = absurd m
In-windows n (b ∷ bytes) w m = elim ((In-cons? w (window n (b ∷ bytes)) (windows n bytes)).0 m) [
  | inl here ↦ let (after, e, l) = window-eq-some n (b ∷ bytes) w here in ([], after, e, l)
  | inr later ↦
      let (before, after, e, l) = In-windows n bytes w later in
      (b ∷ before, after, ap (λ r. b ∷ r) e, l)
]

windows-In :
    (n : ℕ) (before w after : List ℕ)
    → length w ≡ suc n
    → In w (windows (suc n) (before ++ (w ++ after)))
unfolding windows
windows-In n [] [] after l = absurd (ground arith)
windows-In n [] (c ∷ w) after l =
    (In-cons? (c ∷ w) (window (suc n) (c ∷ (w ++ after))) (windows (suc n) (w ++ after))).1 (
      inl (subst (λ k. window k (c ∷ (w ++ after)) ≡ some (c ∷ w)) l (window-append (c ∷ w) after)))
windows-In n (b ∷ before) w after l =
    (In-cons? w (window (suc n) (b ∷ (before ++ (w ++ after))))
        (windows (suc n) (before ++ (w ++ after)))).1
      (inr (windows-In n before w after l))

-- The search finds a private key in a text exactly where the bytes of the text have one in them,
-- at any offset.
pub contains_stellar_private_key_iff :
    (x : PlanExternal) (value : String)
    → (contains_stellar_private_key x value ≡ true) ↔ HasKey x (as_bytes value)
unfolding contains_stellar_private_key
contains_stellar_private_key_iff x value = (found, finds)
  where
    test : List ℕ → Bool
    test w = is_candidate w && x.is_private_key w

    found : any test (windows 56 (as_bytes value)) ≡ true → HasKey x (as_bytes value)
    found h =
        let (w, m, t) = any_witness test (windows 56 (as_bytes value)) h in
        let (before, after, e, l) = In-windows 56 (as_bytes value) w m in
        (before, w, after, e, l, ground arith, ground arith)

    finds : HasKey x (as_bytes value) → any test (windows 56 (as_bytes value)) ≡ true
    finds (before, w, after, e, l, c, k) =
        any-true test (windows 56 (as_bytes value)) w
          (subst (λ bytes. In w (windows 56 bytes)) (sym e) (windows-In 55 before w after l))
          (ground arith)
