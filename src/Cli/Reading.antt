-- ===== src/Cli/Reading.antt =====
-- Which files `read_bounded` takes.
use soroban_upgrades.Base.{
  ℕ, zero, suc, ◌+◌, ◌≤◌, String, ◌≡◌, refl, sym, ap, subst, ◌∙◌, ◌↔◌, List, [], ◌∷◌, length, ltb,
  arith, false,
}
use soroban_upgrades.Artifact.Wasm.{Bytes}
use soroban_upgrades.Cli.{Environment, take, read_bounded}
use soroban_upgrades.Cli.Anyhow.{
  done, with_context, with_context_iff, bail_if, bail_if_iff, >>=_iff, done_inj,
}

module _ {ℓ} {A : Type ℓ} where
  -- What is taken up to one past a limit is within the limit only where it is everything.
  take-all : (n : ℕ) (xs : List A) → length (take (suc n) xs) ≤ n → take (suc n) xs ≡ xs
  unfolding take
  take-all n [] h = refl
  take-all zero (x ∷ xs) h = absurd (omega arith)
  take-all (suc n) (x ∷ xs) h = ap (◌∷◌ x) (take-all n xs (omega arith))

  take-length : (n : ℕ) (xs : List A) → length xs ≤ n → take (suc n) xs ≡ xs
  unfolding take
  take-length n [] h = refl
  take-length zero (x ∷ xs) h = absurd (omega arith)
  take-length (suc n) (x ∷ xs) h = ap (◌∷◌ x) (take-length n xs (omega arith))

  plus_one : (n : ℕ) (xs : List A) → take (n + 1) xs ≡ take (suc n) xs
  plus_one n xs = let s : n + 1 ≡ suc n = omega arith in ap (λ m. take m xs) s

ltb-false : (a b : ℕ) → (ltb a b ≡ false) ↔ (b ≤ a)
ltb-false a b = ground arith

take_within :
    (limit : ℕ) (content bytes : Bytes)
    → ((ltb limit (length (take (limit + 1) content)) ≡ false) × (take (limit + 1) content ≡ bytes))
      ↔ ((content ≡ bytes) × (length bytes ≤ limit))
take_within limit content bytes = rw plus_one (
  λ (short, q).
      let within = (ltb-false limit _).0 short in
      (sym (take-all limit content within) ∙ q, subst (λ b. length b ≤ limit) q within),
  λ (q, short).
      let whole = take-length limit content (subst (λ b. length b ≤ limit) (sym q) short) in
      ((ltb-false limit _).1 (subst (λ b. length b ≤ limit) (sym (whole ∙ q)) short), whole ∙ q),
)

-- A file is read exactly where it can be, and has no more bytes than the limit; then nothing of it
-- is left out.
pub read_bounded_iff :
    (e : Environment) (path : e.PathBuf) (limit : ℕ) (kind : String) (bytes : Bytes)
    → (read_bounded e path limit kind ≡ done bytes)
      ↔ ((e.read_to_end path ≡ done bytes) × (length bytes ≤ limit))
unfolding read_bounded
read_bounded_iff e path limit kind bytes = (
  λ h.
      let (content, l, h') = (>>=_iff (with_context (e.read_to_end path) _) _ bytes).0 h in
      let (u, t, q) =
        (>>=_iff (bail_if (ltb limit (length (take (limit + 1) content))) _) _ bytes).0 h' in
      let (same, short) = (take_within limit content bytes).0 ((bail_if_iff _ _).0 t, done_inj q) in
      ((with_context_iff (e.read_to_end path) _ content).0 l ∙ ap done same, short),
  λ (l, short).
      let (t, q) = (take_within limit bytes bytes).1 (refl, short) in rw l (rw t (ap done q)),
)
