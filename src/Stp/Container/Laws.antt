-- ===== src/Stp/Container/Laws.antt =====
-- What each container keeps of its entries, whatever its order.
use mathlib.Core.List.{Perm, perm_append_singleton}
use mathlib.Core.List.Perm
use rtl.Base.{
  false, ◌∙◌, length-perm, pop_back, pop_back-none, pop_back-some, ◌≡◌, refl, List, [], ◌∷◌, ◌++◌,
  none, some, length, arith,
}
use rtl.Stp.Container.{ContainerOps, is_empty, pop_front, deque_ops, list_ops, vector_ops}

-- A container is a bag: it gives back what was put in, each entry once.
pub record ContainerLaws {T : Type 0} (ops : ContainerOps T) : Type 0 where
  pub contents : ops.Buffer → List T
  pub size_contents : (b : ops.Buffer) → ops.size b ≡ length (contents b)
  pub empty_contents : (b : ops.Buffer) → ops.empty b ≡ is_empty (contents b)
  pub push_contents :
      (b : ops.Buffer) (t : T) → Perm (contents (ops.push b t)) (contents b ++ t ∷ [])
  pub pop_none : (b : ops.Buffer) → ops.pop b ≡ none → contents b ≡ []
  pub pop_some :
      (b : ops.Buffer) (t : T) (b' : ops.Buffer)
      → ops.pop b ≡ some (t, b')
      → Perm (contents b) (t ∷ contents b')
  pub clear_contents : (b : ops.Buffer) → contents (ops.clear b) ≡ []

-- A container that also keeps the order of arrival.
pub record FifoLaws {T : Type 0} (ops : ContainerOps T) (laws : ContainerLaws ops) : Type 0 where
  pub push_last :
      (b : ops.Buffer) (t : T) → laws.contents (ops.push b t) ≡ laws.contents b ++ t ∷ []
  pub pop_first :
      (b : ops.Buffer) (t : T) (b' : ops.Buffer)
      → ops.pop b ≡ some (t, b')
      → laws.contents b ≡ t ∷ laws.contents b'

is_empty-perm :
    {T : Type 0} (xs : List T) (t : T) (ys : List T) → Perm xs (t ∷ ys) → is_empty xs ≡ false
is_empty-perm [] t ys p = absurd (omega (arith, length-perm p))
is_empty-perm (x ∷ xs) t ys p = refl

-- What `pop` gives an entry of is not empty.
pub empty-pop :
    {T : Type 0} (ops : ContainerOps T) (laws : ContainerLaws ops) (b : ops.Buffer) (t : T)
    (b' : ops.Buffer)
    → ops.pop b ≡ some (t, b')
    → ops.empty b ≡ false
empty-pop ops laws b t b' e = laws.empty_contents b ∙ is_empty-perm _ t _ (laws.pop_some b t b' e)

module _ {T : Type 0} where
  pub pop_front-none : (xs : List T) → pop_front xs ≡ none → xs ≡ []
  pop_front-none [] h = refl
  pop_front-none (x ∷ xs) h = cc

  pub pop_front-some :
      (xs : List T) (t : T) (rest : List T) → pop_front xs ≡ some (t, rest) → xs ≡ t ∷ rest
  pop_front-some [] t rest h = cc
  pop_front-some (x ∷ xs) t rest h = ground arith

  pub pop_front-perm :
      (xs : List T) (t : T) (rest : List T) → pop_front xs ≡ some (t, rest) → Perm xs (t ∷ rest)
  pop_front-perm xs t rest h = rw (pop_front-some xs t rest h) (Perm.refl _)

  pub pop_back-perm :
      (xs : List T) (t : T) (rest : List T) → pop_back xs ≡ some (t, rest) → Perm xs (t ∷ rest)
  pop_back-perm xs t rest h = rw (pop_back-some xs t rest h) (perm_append_singleton t rest)

abbrev pub deque_laws : (T : Type 0) → ContainerLaws (deque_ops T)
deque_laws T = record {
  contents = λ b. b;
  size_contents = λ b. refl;
  empty_contents = λ b. refl;
  push_contents = λ b t. Perm.refl _;
  pop_none = pop_front-none;
  pop_some = pop_front-perm;
  clear_contents = λ b. refl;
}

pub deque-FifoLaws : (T : Type 0) → FifoLaws (deque_ops T) (deque_laws T)
deque-FifoLaws T = record { push_last = λ b t. refl; pop_first = pop_front-some }

abbrev pub list_laws : (T : Type 0) → ContainerLaws (list_ops T)
list_laws T = record {
  contents = λ b. b;
  size_contents = λ b. refl;
  empty_contents = λ b. refl;
  push_contents = λ b t. Perm.refl _;
  pop_none = pop_front-none;
  pop_some = pop_front-perm;
  clear_contents = λ b. refl;
}

abbrev pub vector_laws : (T : Type 0) → ContainerLaws (vector_ops T)
vector_laws T = record {
  contents = λ b. b;
  size_contents = λ b. refl;
  empty_contents = λ b. refl;
  push_contents = λ b t. Perm.refl _;
  pop_none = pop_back-none;
  pop_some = pop_back-perm;
  clear_contents = λ b. refl;
}
