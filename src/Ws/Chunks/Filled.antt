-- ===== src/Ws/Chunks/Filled.antt =====
-- ws/server/WsProtocol.hpp: the table of `chunks_to_blob` while it is being filled. An entry that was
-- seen has its chunk, and any other is empty.
use mathlib.Core.List.{flatten}
use rtl.Base.{
  replicate, ℕ, zero, suc, ◌+◌, ◌≤◌, ◌<◌, ◌≡◌, ◌≢◌, refl, ap, ◌∙◌, Bool, true, false, some, List,
  [], ◌∷◌, All, length, get_elem?, set, arith, length-append, if◌then◌else◌,
}
use rtl.Base.Slices.{get_elem?-set_ne}
use rtl.Ws.Chunks.Slices.{tabulate}
use rtl.Ws.Chunks.Join.{all_seen}

abbrev pub Filled : (ℕ → List ℕ) → ℕ → List (List ℕ) → List Bool → Type 0
Filled f k [] [] = Unit {0}
Filled f k [] (s ∷ ss) = ⊥
Filled f k (c ∷ cs) [] = ⊥
Filled f k (c ∷ cs) (s ∷ ss) = (c ≡ (if s then f k else [])) × Filled f (k + 1) cs ss

abbrev pub count_seen : List Bool → ℕ
count_seen [] = 0
count_seen (s ∷ ss) = if s then suc (count_seen ss) else count_seen ss

pub Filled-fresh : (f : ℕ → List ℕ) (k n : ℕ) → Filled f k (replicate n []) (replicate n false)
Filled-fresh f k zero = tt
Filled-fresh f k (suc n) = (refl, Filled-fresh f (k + 1) n)

pub Filled-set :
    (f : ℕ → List ℕ) (k i j : ℕ) (cs : List (List ℕ)) (ss : List Bool)
    → k + i ≡ j
    → get_elem? ss i ≡ some false
    → Filled f k cs ss
    → Filled f k (set cs i (f j)) (set ss i true)
Filled-set f k i j [] [] e u h = tt
Filled-set f k i j [] (s ∷ ss) e u h = absurd h
Filled-set f k i j (c ∷ cs) [] e u h = absurd h
Filled-set f k zero j (c ∷ cs) (s ∷ ss) e u h = let e' : j ≡ k = omega (arith, e) in (ap f e', h.1)
Filled-set f k (suc i) j (c ∷ cs) (s ∷ ss) e u h =
    (h.0, Filled-set f (k + 1) i j cs ss (omega (arith, e)) u h.1)

-- An entry that was not seen is there, and empty.
pub unseen_empty :
    (f : ℕ → List ℕ) (k i : ℕ) (cs : List (List ℕ)) (ss : List Bool)
    → get_elem? ss i ≡ some false
    → Filled f k cs ss
    → get_elem? cs i ≡ some []
unseen_empty f k i [] [] u h = cc
unseen_empty f k i [] (s ∷ ss) u h = absurd h
unseen_empty f k i (c ∷ cs) [] u h = absurd h
unseen_empty f k zero (c ∷ cs) (s ∷ ss) u h = ground arith
unseen_empty f k (suc i) (c ∷ cs) (s ∷ ss) u h = unseen_empty f (k + 1) i cs ss u h.1

pub length-flatten-Filled :
    (f : ℕ → List ℕ) (k n : ℕ) (cs : List (List ℕ)) (ss : List Bool)
    → length ss ≡ n
    → Filled f k cs ss
    → length (flatten cs) ≤ length (flatten (tabulate f k n))
unfolding flatten
length-flatten-Filled f k n [] ss e h = omega arith
length-flatten-Filled f k n (c ∷ cs) [] e h = absurd h
length-flatten-Filled f k zero (c ∷ cs) (s ∷ ss) e h = absurd (omega (arith, e))
length-flatten-Filled f k (suc n) (c ∷ cs) (true ∷ ss) e h = omega (
  arith,
  ap length h.0,
  length-append c (flatten cs),
  length-append (f k) (flatten (tabulate f (k + 1) n)),
  length-flatten-Filled f (k + 1) n cs ss (omega (arith, e)) h.1,
)
length-flatten-Filled f k (suc n) (c ∷ cs) (false ∷ ss) e h = omega (
  arith,
  ap length h.0,
  length-append c (flatten cs),
  length-append (f k) (flatten (tabulate f (k + 1) n)),
  length-flatten-Filled f (k + 1) n cs ss (omega (arith, e)) h.1,
)

-- A table of which all is seen is full.
pub Filled-tabulate :
    (f : ℕ → List ℕ) (k n : ℕ) (cs : List (List ℕ)) (ss : List Bool)
    → length ss ≡ n
    → all_seen ss ≡ true
    → Filled f k cs ss
    → cs ≡ tabulate f k n
unfolding all_seen
Filled-tabulate f k zero [] [] e a h = refl
Filled-tabulate f k (suc n) [] [] e a h = absurd (omega (arith, e))
Filled-tabulate f k n [] (s ∷ ss) e a h = absurd h
Filled-tabulate f k n (c ∷ cs) [] e a h = absurd h
Filled-tabulate f k zero (c ∷ cs) (s ∷ ss) e a h = absurd (omega (arith, e))
Filled-tabulate f k (suc n) (c ∷ cs) (true ∷ ss) e a h =
    ap (λ x. x ∷ cs) h.0
    ∙ ap (λ xs. f k ∷ xs) (Filled-tabulate f (k + 1) n cs ss (omega (arith, e)) a h.1)
Filled-tabulate f k (suc n) (c ∷ cs) (false ∷ ss) e a h = cc

pub count_seen-set :
    (ss : List Bool) (i : ℕ)
    → get_elem? ss i ≡ some false
    → count_seen (set ss i true) ≡ count_seen ss + 1
count_seen-set [] i u = cc
count_seen-set (s ∷ ss) zero u = ground arith
count_seen-set (true ∷ ss) (suc i) u = omega (arith, count_seen-set ss i u)
count_seen-set (false ∷ ss) (suc i) u = count_seen-set ss i u

pub count_seen-le : (ss : List Bool) → count_seen ss ≤ length ss
count_seen-le [] = omega arith
count_seen-le (true ∷ ss) = omega (arith, count_seen-le ss)
count_seen-le (false ∷ ss) = omega (arith, count_seen-le ss)

-- As many as there are: all.
pub all_seen-count : (ss : List Bool) → count_seen ss ≡ length ss → all_seen ss ≡ true
unfolding all_seen
all_seen-count [] e = refl
all_seen-count (true ∷ ss) e = all_seen-count ss (omega (arith, e))
all_seen-count (false ∷ ss) e = absurd (omega (arith, e, count_seen-le ss))

pub count_seen-fresh : (n : ℕ) → count_seen (replicate n false) ≡ 0
count_seen-fresh zero = refl
count_seen-fresh (suc n) = count_seen-fresh n

pub get_elem?-replicate {ℓ} :
    {A : Type ℓ} (n i : ℕ) (a : A) → i < n → get_elem? (replicate n a) i ≡ some a
get_elem?-replicate zero i a h = absurd (omega arith)
get_elem?-replicate (suc n) zero a h = refl
get_elem?-replicate (suc n) (suc i) a h = get_elem?-replicate n i a (omega arith)

-- Indices that are yet to come stay unseen.
pub unseen-set :
    (ss : List Bool) (i : ℕ) (js : List ℕ)
    → All (λ j. i ≢ j) js
    → All (λ j. get_elem? ss j ≡ some false) js
    → All (λ j. get_elem? (set ss i true) j ≡ some false) js
unseen-set ss i [] d u = tt
unseen-set ss i (j ∷ js) d u = (get_elem?-set_ne ss i j true d.0 ∙ u.0, unseen-set ss i js d.1 u.1)
