-- ===== src/Config/Waves.antt =====
-- The waves of a configuration in one row, which is how `deployAfterFromConfig` goes through them:
-- `lastWave` is carried from one environment into the next.
use mathlib.Core.List.{append_assoc}
use propagation_controller.Base.{
  ◌≡◌, refl, sym, ap, ◌∙◌, ℕ, ◌+◌, ◌<◌, String, Bool, true, false, ◌||◌, Option, none, some, List,
  [], ◌∷◌, ◌++◌, All, contains, arith, inl, inr, ◌⊎◌, Bool-cases, if◌then◌else◌, false≢true,
}
use propagation_controller.Api.{DeployAfter}
use propagation_controller.Config.{
  Wave, Environment, Found, found, go_on, after_in_waves, after_in_environments,
}

unfoldable pub all_waves : List Environment → List Wave
all_waves [] = []
all_waves (env ∷ envs) = env.waves ++ all_waves envs

pub all_waves-append :
    (xs ys : List Environment) → all_waves (xs ++ ys) ≡ all_waves xs ++ all_waves ys
unfolding all_waves
all_waves-append [] ys = refl
all_waves-append (env ∷ xs) ys =
    ap (◌++◌ env.waves) (all_waves-append xs ys)
    ∙ sym (append_assoc env.waves (all_waves xs) (all_waves ys))

-- No wave lists the deployment.
abbrev pub Unlisted : String → List Wave → Type 0
Unlisted name = All (λ w. contains w.deployments name ≡ false)

pub Unlisted-append :
    (name : String) (xs ys : List Wave)
    → Unlisted name xs
    → Unlisted name ys
    → Unlisted name (xs ++ ys)
Unlisted-append name [] ys h k = k
Unlisted-append name (w ∷ xs) ys h k = (h.0, Unlisted-append name xs ys h.1 k)

-- Some wave lists the deployment.
unfoldable pub is_listed : String → List Wave → Bool
is_listed name [] = false
is_listed name (w ∷ ws) = contains w.deployments name || is_listed name ws

abbrev pub last_or : Wave → List Wave → Wave
last_or last [] = last
last_or last (w ∷ ws) = last_or w ws

abbrev pub to_after : Wave → DeployAfter
to_after w = record { deployments = w.deployments; bake_time = w.bake_time }

-- The wave before the first one that lists the deployment, with `last` before all.
unfoldable pub previous : String → Wave → List Wave → Option Wave
previous name last [] = none
previous name last (w ∷ ws) = if contains w.deployments name then some last else previous name w ws

abbrev pub after_option : Option Wave → Option DeployAfter
after_option none = none
after_option (some w) = some (to_after w)

abbrev after_found : String → List Wave → Found → Option DeployAfter
after_found name rest (found after) = some after
after_found name rest (go_on last) = after_option (previous name last rest)

previous-append :
    (name : String) (last : Wave) (ws rest : List Wave)
    → after_option (previous name last (ws ++ rest))
      ≡ after_found name rest (after_in_waves name last ws)
unfolding previous after_in_waves
previous-append name last [] rest = refl
previous-append name last (w ∷ ws) rest = elim (Bool-cases (contains w.deployments name)) [
  | inl e ↦ rw e
  | inr e ↦ rw e (previous-append name w ws rest)
]

pub after_in_environments-previous :
    (name : String) (last : Wave) (envs : List Environment)
    → after_in_environments name last envs ≡ after_option (previous name last (all_waves envs))
unfolding after_in_environments all_waves
after_in_environments-previous name last [] = unfold previous in refl
after_in_environments-previous name last (env ∷ envs) =
    rw (previous-append name last env.waves (all_waves envs)) (
      by_end (after_in_waves name last env.waves) (λ l. after_in_environments-previous name l envs))
  where
    by_end :
        (f : Found)
        → ((l : Wave)
            → after_in_environments name l envs ≡ after_option (previous name l (all_waves envs)))
        → (elim f [ found after ↦ some after | go_on l ↦ after_in_environments name l envs ])
          ≡ after_found name (all_waves envs) f
    by_end (found after) rest = refl
    by_end (go_on l) rest = rest l

pub previous-split :
    (name : String) (last : Wave) (before : List Wave) (w : Wave) (after : List Wave)
    → Unlisted name before
    → contains w.deployments name ≡ true
    → previous name last (before ++ w ∷ after) ≡ some (last_or last before)
unfolding previous
previous-split name last [] w after h e = rw e
previous-split name last (b ∷ before) w after h e =
    rw (h.0) (previous-split name b before w after h.1 e)

pub previous-none :
    (name : String) (last : Wave) (ws : List Wave)
    → is_listed name ws ≡ false
    → previous name last ws ≡ none
unfolding previous is_listed
previous-none name last [] h = refl
previous-none name last (w ∷ ws) h = ground (arith, previous-none name w ws)

pub previous-some :
    (name : String) (last : Wave) (ws : List Wave)
    → is_listed name ws ≡ true
    → (p : Wave) × (previous name last ws ≡ some p)
unfolding previous is_listed
previous-some name last [] h = absurd (false≢true h)
previous-some name last (w ∷ ws) h = elim (Bool-cases (contains w.deployments name)) [
  | inl e ↦ (last, rw e)
  | inr e ↦ let (p, q) = previous-some name w ws (ground arith) in (p, rw e q)
]

-- The index of the first wave that lists the deployment; the number of waves where none does.
unfoldable pub first_index : String → List Wave → ℕ
first_index name [] = 0
first_index name (w ∷ ws) = if contains w.deployments name then 0 else first_index name ws + 1

pub previous-first_index :
    (name d : String) (last p : Wave) (ws : List Wave)
    → previous name last ws ≡ some p
    → contains p.deployments d ≡ true
    → (p ≡ last) ⊎ (first_index d ws < first_index name ws)
unfolding previous first_index
previous-first_index name d last p [] e h = cc
previous-first_index name d last p (w ∷ ws) e h = elim (Bool-cases (contains w.deployments name)) [
  | inl here ↦ inl (ground arith)
  | inr e' ↦ inr (behind (previous-first_index name d w p ws (ground arith) h) e')
]
  where
    behind :
        (p ≡ w) ⊎ (first_index d ws < first_index name ws)
        → contains w.deployments name ≡ false
        → first_index d (w ∷ ws) < first_index name (w ∷ ws)
    behind (inl same) e' = ground (arith, ap (λ x. contains x.deployments d) same)
    behind (inr less) e' = ground arith
