-- ===== src/Dotnet/Parameters/Names.antt =====
-- Lists of parameters with distinct names that are not empty, for dotnet/nuodb/parameter.cpp.
use nuodb_drivers.Prelude.{
  ℕ, zero, suc, true, false, none, some, List, map, [], ◌∷◌, ◌++◌, Bytes, bytes_eq, bytes_eq_iff,
  set, ◌==◌, ◌≡◌, ◌≢◌, sym, subst, ◌∙◌, ◌<◌, Bool-cases, Option-cases, inl, inr, arith,
  if◌then◌else◌,
}
use nuodb_drivers.Dotnet.Parameters.{place}
use nuodb_drivers.Dotnet.Parameters.Requests.{Each}
use nuodb_drivers.Dotnet.Parameters.Editing.{insert_at, remove_at, remove_first}

module _ (name : ℕ → Bytes) where
  -- No parameter of the list has the name.
  abbrev pub Away : Bytes → List ℕ → Type 0
  Away n [] = Unit
  Away n (q ∷ qs) = (name q ≢ n) × Away n qs

  abbrev pub Named : List ℕ → Type 0
  Named [] = Unit
  Named (q ∷ qs) = (name q ≢ []) × Away (name q) qs × Named qs

  pub place-Away : (n : Bytes) (qs : List ℕ) → place n (map name qs) ≡ none → Away n qs
  place-Away n [] h = tt
  place-Away n (q ∷ qs) h = elim (Bool-cases (bytes_eq (name q) n)) [
    | inl e ↦ absurd (ground (arith, h, e))
    | inr e ↦ (
      (λ x. ground (arith, bytes_eq_iff (name q) n, e, x)),
      place-Away n qs (ground (arith, h, e)),
    )
  ]

  pub Away-append :
      (n : Bytes) (p : ℕ) (qs : List ℕ) → Away n qs → name p ≢ n → Away n (qs ++ p ∷ [])
  Away-append n p [] h k = (k, tt)
  Away-append n p (q ∷ qs) (g, h) k = (g, Away-append n p qs h k)

  pub Named-append :
      (p : ℕ) (qs : List ℕ) → Named qs → name p ≢ [] → Away (name p) qs → Named (qs ++ p ∷ [])
  Named-append p [] h k a = (k, tt, tt)
  Named-append p (q ∷ qs) (g, b, h) k (d, a) =
      (g, Away-append (name q) p qs b (λ x. d (sym x)), Named-append p qs h k a)

  pub Away-insert :
      (n : Bytes) (i p : ℕ) (qs : List ℕ) → Away n qs → name p ≢ n → Away n (insert_at i p qs)
  Away-insert n zero p qs h k = (k, h)
  Away-insert n (suc i) p [] h k = tt
  Away-insert n (suc i) p (q ∷ qs) (g, h) k = (g, Away-insert n i p qs h k)

  pub Named-insert :
      (i p : ℕ) (qs : List ℕ) → Named qs → name p ≢ [] → Away (name p) qs → Named (insert_at i p qs)
  Named-insert zero p qs h k a = (k, a, h)
  Named-insert (suc i) p [] h k a = tt
  Named-insert (suc i) p (q ∷ qs) (g, b, h) k (d, a) =
      (g, Away-insert (name q) i p qs b (λ x. d (sym x)), Named-insert i p qs h k a)

  pub Away-set : (n : Bytes) (i p : ℕ) (qs : List ℕ) → Away n qs → name p ≢ n → Away n (set qs i p)
  Away-set n i p [] h k = tt
  Away-set n zero p (q ∷ qs) (g, h) k = (k, h)
  Away-set n (suc i) p (q ∷ qs) (g, h) k = (g, Away-set n i p qs h k)

  pub Named-set :
      (i p : ℕ) (qs : List ℕ) → Named qs → name p ≢ [] → Away (name p) qs → Named (set qs i p)
  Named-set i p [] h k a = tt
  Named-set zero p (q ∷ qs) (g, b, h) k (d, a) = (k, a, h)
  Named-set (suc i) p (q ∷ qs) (g, b, h) k (d, a) =
      (g, Away-set (name q) i p qs b (λ x. d (sym x)), Named-set i p qs h k a)

  place-zero : (m : Bytes) (q : ℕ) (qs : List ℕ) → place m (map name (q ∷ qs)) ≡ some 0 → name q ≡ m
  place-zero m q qs h = elim (Bool-cases (bytes_eq (name q) m)) [
    | inl e ↦ (bytes_eq_iff (name q) m).0 e
    | inr e ↦ elim (Option-cases (place m (map name qs))) [
      | inl o ↦ absurd (ground (arith, h, e, o))
      | inr (i, o) ↦ absurd (ground (arith, h, e, o))
    ]
  ]

  place-suc :
      (m : Bytes) (i q : ℕ) (qs : List ℕ)
      → place m (map name (q ∷ qs)) ≡ some (suc i)
      → place m (map name qs) ≡ some i
  place-suc m i q qs h = elim (Bool-cases (bytes_eq (name q) m)) [
    | inl e ↦ absurd (ground (arith, h, e))
    | inr e ↦ elim (Option-cases (place m (map name qs))) [
      | inl o ↦ absurd (ground (arith, h, e, o))
      | inr (j, o) ↦ ground (arith, h, e, o)
    ]
  ]

  -- A parameter takes the place of one of the same name.
  Away-same :
      (n m : Bytes) (i p : ℕ) (qs : List ℕ)
      → Away n qs
      → place m (map name qs) ≡ some i
      → name p ≡ m
      → Away n (set qs i p)
  Away-same n m i p [] h e s = tt
  Away-same n m zero p (q ∷ qs) (g, h) e s = ((λ x. g (place-zero m q qs e ∙ sym s ∙ x)), h)
  Away-same n m (suc i) p (q ∷ qs) (g, h) e s = (g, Away-same n m i p qs h (place-suc m i q qs e) s)

  pub Named-same :
      (m : Bytes) (i p : ℕ) (qs : List ℕ)
      → Named qs
      → place m (map name qs) ≡ some i
      → name p ≡ m
      → Named (set qs i p)
  Named-same m i p [] h e s = tt
  Named-same m zero p (q ∷ qs) (g, b, h) e s =
      subst (λ n. (n ≢ []) × Away n qs × Named qs) (place-zero m q qs e ∙ sym s) (g, b, h)
  Named-same m (suc i) p (q ∷ qs) (g, b, h) e s = (
    g,
    Away-same (name q) m i p qs b (place-suc m i q qs e) s,
    Named-same m i p qs h (place-suc m i q qs e) s,
  )

  pub Away-remove : (n : Bytes) (i : ℕ) (qs : List ℕ) → Away n qs → Away n (remove_at i qs)
  Away-remove n i [] h = tt
  Away-remove n zero (q ∷ qs) (g, h) = h
  Away-remove n (suc i) (q ∷ qs) (g, h) = (g, Away-remove n i qs h)

  pub Named-remove : (i : ℕ) (qs : List ℕ) → Named qs → Named (remove_at i qs)
  Named-remove i [] h = tt
  Named-remove zero (q ∷ qs) (g, b, h) = h
  Named-remove (suc i) (q ∷ qs) (g, b, h) = (g, Away-remove (name q) i qs b, Named-remove i qs h)

  pub Away-first : (n : Bytes) (p : ℕ) (qs : List ℕ) → Away n qs → Away n (remove_first p qs)
  Away-first n p [] h = tt
  Away-first n p (q ∷ qs) (g, h) =
      elim (q == p) as (λ b. Away n (if b then qs else q ∷ remove_first p qs)) [
        | true ↦ h
        | false ↦ (g, Away-first n p qs h)
      ]

  pub Named-first : (p : ℕ) (qs : List ℕ) → Named qs → Named (remove_first p qs)
  Named-first p [] h = tt
  Named-first p (q ∷ qs) (g, b, h) =
      elim (q == p) as (λ b. Named (if b then qs else q ∷ remove_first p qs)) [
        | true ↦ h
        | false ↦ (g, Away-first (name q) p qs b, Named-first p qs h)
      ]

-- The names of the list are as before.
pub Away-agree :
    (f g : ℕ → Bytes) (k : ℕ) (n : Bytes) (qs : List ℕ)
    → ((q : ℕ) → q < k → f q ≡ g q)
    → Each (λ q. q < k) qs
    → Away f n qs
    → Away g n qs
Away-agree f g k n [] e b h = tt
Away-agree f g k n (q ∷ qs) e (c, b) (d, h) = ((λ x. d (e q c ∙ x)), Away-agree f g k n qs e b h)

pub Named-agree :
    (f g : ℕ → Bytes) (k : ℕ) (qs : List ℕ)
    → ((q : ℕ) → q < k → f q ≡ g q)
    → Each (λ q. q < k) qs
    → Named f qs
    → Named g qs
Named-agree f g k [] e b h = tt
Named-agree f g k (q ∷ qs) e (c, b) (d, a, h) = (
  (λ x. d (e q c ∙ x)),
  Away-agree f g k (g q) qs e b (subst (λ n. Away f n qs) (e q c) a),
  Named-agree f g k qs e b h,
)
