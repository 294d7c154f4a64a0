-- ===== src/Policy/Tree/Levels.antt =====
-- The shape of the levels that `build_tree` returns, and what stands where.
use zk_fact_verification.Common.{
  ℕ, zero, suc, ◌+◌, ◌*◌, ◌/◌, ◌<◌, ℤ, List, [], ◌∷◌, ◌≡◌, refl, ap, ◌∙◌, Result, ok, some,
  get_elem?, length, arith, >>=-eq-ok, wrapped_at-eq-ok,
}
use zk_fact_verification.Policy.Tree.{pad_leaves, next_level}

pub length-pad_leaves : (n : ℕ) (leaves : List ℤ) → length (pad_leaves n leaves) ≡ n
unfolding pad_leaves
length-pad_leaves zero leaves = refl
length-pad_leaves (suc n) [] = omega (arith, length-pad_leaves n [])
length-pad_leaves (suc n) (x ∷ leaves) = omega (arith, length-pad_leaves n leaves)

-- A leaf below the bound keeps its place.
pub get_elem?-pad_leaves :
    (n : ℕ) (leaves : List ℤ) (i : ℕ) {leaf : ℤ}
    → i < n
    → get_elem? leaves i ≡ some leaf
    → get_elem? (pad_leaves n leaves) i ≡ some leaf
unfolding pad_leaves
get_elem?-pad_leaves zero leaves i h e = absurd (omega arith)
get_elem?-pad_leaves (suc n) [] i h e = cc
get_elem?-pad_leaves (suc n) (x ∷ leaves) zero h e = e
get_elem?-pad_leaves (suc n) (x ∷ leaves) (suc i) h e =
    get_elem?-pad_leaves n leaves i (omega arith) e

double_suc : (k : ℕ) → 2 * suc k ≡ suc (suc (2 * k))
double_suc k = omega arith

double_suc-add : (k : ℕ) → 2 * suc k + 1 ≡ suc (suc (2 * k + 1))
double_suc-add k = omega arith

module _ (hash : List ℤ → Result ℤ) where
  -- One successful round: the first parent and the rest of the parents.
  pub next_level_inv :
      (d i : ℕ) (l r : ℤ) (prev next : List ℤ)
      → next_level hash d i (l ∷ r ∷ prev) ≡ ok next
      → (h : ℤ) × (rest : List ℤ) × (hash (l ∷ r ∷ []) ≡ ok h)
        × (next_level hash d (i + 1) prev ≡ ok rest)
        × (next ≡ h ∷ rest)
  unfolding next_level
  next_level_inv d i l r prev next e =
      let (h, eh, e') = >>=-eq-ok _ _ e in
      let (rest, er, en) = >>=-eq-ok _ _ e' in (h, rest, wrapped_at-eq-ok _ _ _ eh, er, (cc))

  pub length-next_level :
      (d i : ℕ) (prev next : List ℤ)
      → next_level hash d i prev ≡ ok next
      → length next ≡ length prev / 2
  unfolding next_level
  length-next_level d i [] next e = ground arith
  length-next_level d i (x ∷ []) next e = ground arith
  length-next_level d i (l ∷ r ∷ prev) next e =
      let (h, rest, _, er, en) = next_level_inv d i l r prev next e in
      rw en (omega (arith, length-next_level d (i + 1) prev rest er))

  -- The parent at `k` hashes the children at `2 * k` and `2 * k + 1`.
  pub get_elem?-next_level :
      (d i : ℕ) (prev next : List ℤ) (k : ℕ)
      → next_level hash d i prev ≡ ok next
      → k < length next
      → (l r h : ℤ) × (get_elem? prev (2 * k) ≡ some l)
        × (get_elem? prev (2 * k + 1) ≡ some r)
        × (hash (l ∷ r ∷ []) ≡ ok h)
        × (get_elem? next k ≡ some h)
  unfolding next_level
  get_elem?-next_level d i [] next k e h = absurd (ground arith)
  get_elem?-next_level d i (x ∷ []) next k e h = absurd (ground arith)
  get_elem?-next_level d i (l ∷ r ∷ prev) next zero e h =
      let (p, rest, hashed, _, en) = next_level_inv d i l r prev next e in
      (l, r, p, refl, refl, hashed, ap (λ (t : List ℤ). get_elem? t 0) en)
  get_elem?-next_level d i (l ∷ r ∷ prev) next (suc k) e h =
      let (p, rest, _, er, en) = next_level_inv d i l r prev next e in
      let (l', r', q, el, er', eq, ek) =
        get_elem?-next_level d (i + 1) prev rest k er
          (omega (arith, ap (λ (t : List ℤ). length t) en)) in
      (
        l',
        r',
        q,
        rw (double_suc k) el,
        rw (double_suc-add k) er',
        eq,
        ap (λ (t : List ℤ). get_elem? t (suc k)) en ∙ ek,
      )
