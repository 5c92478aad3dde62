-- ===== src/Dotnet/Parameters/Lists.antt =====
-- What holds of each parameter of a list, for dotnet/nuodb/parameter.cpp.
use nuodb_drivers.Prelude.{ℕ, zero, suc, if◌then◌else◌, true, false, List, [], ◌∷◌, ◌++◌, set, ◌==◌}
use nuodb_drivers.Dotnet.Parameters.Editing.{insert_at, remove_at, remove_first}
use nuodb_drivers.Dotnet.Parameters.Requests.{Each}

module _ (P : ℕ → Type 0) where
  pub Each-append : (p : ℕ) (qs : List ℕ) → Each P qs → P p → Each P (qs ++ p ∷ [])
  Each-append p [] h k = (k, tt)
  Each-append p (q ∷ qs) (g, h) k = (g, Each-append p qs h k)

  pub Each-insert : (i p : ℕ) (qs : List ℕ) → Each P qs → P p → Each P (insert_at i p qs)
  Each-insert zero p qs h k = (k, h)
  Each-insert (suc i) p [] h k = tt
  Each-insert (suc i) p (q ∷ qs) (g, h) k = (g, Each-insert i p qs h k)

  pub Each-set : (i p : ℕ) (qs : List ℕ) → Each P qs → P p → Each P (set qs i p)
  Each-set i p [] h k = tt
  Each-set zero p (q ∷ qs) (g, h) k = (k, h)
  Each-set (suc i) p (q ∷ qs) (g, h) k = (g, Each-set i p qs h k)

  pub Each-remove : (i : ℕ) (qs : List ℕ) → Each P qs → Each P (remove_at i qs)
  Each-remove i [] h = tt
  Each-remove zero (q ∷ qs) (g, h) = h
  Each-remove (suc i) (q ∷ qs) (g, h) = (g, Each-remove i qs h)

  pub Each-first : (p : ℕ) (qs : List ℕ) → Each P qs → Each P (remove_first p qs)
  Each-first p [] h = tt
  Each-first p (q ∷ qs) (g, h) =
      elim (q == p) as (λ b. Each P (if b then qs else q ∷ remove_first p qs)) [
        | true ↦ h
        | false ↦ (g, Each-first p qs h)
      ]

pub Each-map :
    {A : Type 0} {P Q : A → Type 0} (qs : List A) → ((q : A) → P q → Q q) → Each P qs → Each Q qs
Each-map [] f h = tt
Each-map (q ∷ qs) f (g, h) = (f q g, Each-map qs f h)
