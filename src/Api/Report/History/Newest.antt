-- ===== src/Api/Report/History/Newest.antt =====
-- `AppendStatus` walks its list by indices from the end. Read from the newest status back it is a
-- function by cases on the first two statuses.
use mathlib.Core.List.{reverse, reverse-cons, reverse-append, reverse-reverse, append_assoc}
use mathlib.Core.Path.{subst}
use propagation_controller.Base.{
  String, ℕ, suc, ◌-◌, ◌≡◌, refl, sym, ap, ◌∙◌, true, ◌&&◌, none, some, List, [], ◌∷◌, ◌++◌, arith,
  leb, length, get_elem?, take, length-append, get_elem?-append_length, take-append_length, ◌==◌,
  if◌then◌else◌, inl, inr, Bool-cases,
}
use propagation_controller.Api.{DeploymentStatus, DeploymentStatusesReport, pending}
use propagation_controller.Api.Report.{
  last_status, set_last, refine, record_status, repeats, drop_repeated, append_status,
}

-- Drops the newest status where it repeats the one before it.
unfoldable pub drop_newest : DeploymentStatus → List DeploymentStatus → List DeploymentStatus
drop_newest status (s ∷ t ∷ rest) = if repeats (some t) status then t ∷ rest else s ∷ t ∷ rest
drop_newest status (s ∷ []) = s ∷ []
drop_newest status [] = []

-- What `AppendStatus` does, over the statuses with the newest first.
unfoldable pub record_newest : DeploymentStatus → List DeploymentStatus → List DeploymentStatus
unfolding drop_newest
record_newest status [] = status ∷ []
record_newest status (last ∷ rest) = drop_newest status (
    if last.version == status.version && last.state == pending
    then refine last status ∷ rest
    else status ∷ last ∷ rest)

abbrev pub newest_first : DeploymentStatusesReport → List DeploymentStatus
newest_first r = reverse r.statuses

set_last-append :
    (v l : DeploymentStatus) (ys : List DeploymentStatus) → set_last v (ys ++ l ∷ []) ≡ ys ++ v ∷ []
unfolding set_last
set_last-append v l [] = refl
set_last-append v l (y ∷ []) = refl
set_last-append v l (y ∷ z ∷ ys) = ap (◌∷◌ y) (set_last-append v l (z ∷ ys))

pub last_status-nil : (r : DeploymentStatusesReport) → r.statuses ≡ [] → last_status r ≡ none
unfolding last_status
last_status-nil r e = rw e

pub last_status-append :
    (r : DeploymentStatusesReport) (ys : List DeploymentStatus) (l : DeploymentStatus)
    → r.statuses ≡ ys ++ l ∷ []
    → last_status r ≡ some l
unfolding last_status
last_status-append r ys l e =
    let n : length r.statuses ≡ suc (length ys) =
      ap length e ∙ length-append ys (l ∷ []) ∙ omega arith in
    let at_end : get_elem? r.statuses (length r.statuses - 1) ≡ some l =
      rw n (rw e (ground (arith, get_elem?-append_length ys l []))) in
    ground arith

drop_repeated_at :
    (status t : DeploymentStatus) (xs front : List DeploymentStatus) (k : ℕ)
    → length xs ≡ suc (suc k)
    → get_elem? xs k ≡ some t
    → take (suc k) xs ≡ front
    → drop_repeated status xs ≡ (if repeats (some t) status then front else xs)
unfolding drop_repeated
drop_repeated_at status t xs front k n before taken =
    let two : length xs - 2 ≡ k = omega arith in
    let one : length xs - 1 ≡ suc k = omega arith in
    let many : leb 2 (length xs) ≡ true = ground arith in
    rw (drop_repeated, many, two, one, before, taken)

drop_repeated-append :
    (status s t : DeploymentStatus) (ys : List DeploymentStatus)
    → drop_repeated status ((ys ++ t ∷ []) ++ s ∷ [])
      ≡ (if repeats (some t) status then ys ++ t ∷ [] else (ys ++ t ∷ []) ++ s ∷ [])
unfolding drop_repeated
drop_repeated-append status s t ys =
    let zs : List DeploymentStatus = (ys ++ t ∷ []) ++ s ∷ [] in
    let short : length (ys ++ t ∷ []) ≡ suc (length ys) = length-append ys (t ∷ []) ∙ omega arith in
    let n : length zs ≡ suc (suc (length ys)) =
      length-append (ys ++ t ∷ []) (s ∷ []) ∙ omega (arith, short) in
    let before : get_elem? zs (length ys) ≡ some t =
      rw (append_assoc ys (t ∷ []) (s ∷ [])) (get_elem?-append_length ys t (s ∷ [])) in
    let front : take (suc (length ys)) zs ≡ ys ++ t ∷ [] =
      ap (λ k. take k zs) (sym short) ∙ take-append_length (ys ++ t ∷ []) (s ∷ []) in
    drop_repeated_at status t zs (ys ++ t ∷ []) (length ys) n before front

reverse-snoc :
    (rest : List DeploymentStatus) (s : DeploymentStatus)
    → reverse (reverse rest ++ s ∷ []) ≡ s ∷ rest
reverse-snoc rest s = reverse-append (reverse rest) (s ∷ []) ∙ ap (◌∷◌ s) (reverse-reverse rest)

reverse-snoc_twice :
    (rest : List DeploymentStatus) (s t : DeploymentStatus)
    → reverse ((reverse rest ++ t ∷ []) ++ s ∷ []) ≡ s ∷ t ∷ rest
reverse-snoc_twice rest s t =
    reverse-append (reverse rest ++ t ∷ []) (s ∷ []) ∙ ap (◌∷◌ s) (reverse-snoc rest t)

drop_repeated-reverse :
    (status : DeploymentStatus) (h : List DeploymentStatus)
    → reverse (drop_repeated status (reverse h)) ≡ drop_newest status h
unfolding drop_newest
drop_repeated-reverse status [] = unfold drop_repeated in refl
drop_repeated-reverse status (s ∷ []) = unfold drop_repeated in refl
drop_repeated-reverse status (s ∷ t ∷ rest) =
    rw (reverse-cons s (t ∷ rest), reverse-cons t rest, drop_repeated-append)
      (elim (Bool-cases (repeats (some t) status)) [
        | inl e ↦ rw e (reverse-snoc rest t)
        | inr e ↦ rw e (reverse-snoc_twice rest s t)
      ])

record_status-reverse :
    (status l : DeploymentStatus) (rest : List DeploymentStatus)
    → record_status (some l) status (reverse (l ∷ rest))
      ≡ reverse (
          if l.version == status.version && l.state == pending
          then refine l status ∷ rest
          else status ∷ l ∷ rest)
unfolding record_status
record_status-reverse status l rest =
    elim (Bool-cases (l.version == status.version && l.state == pending)) [
      | inl e ↦
          rw (e, reverse-cons l rest, set_last-append) (sym (reverse-cons (refine l status) rest))
      | inr e ↦ rw e (sym (reverse-cons status (l ∷ rest)))
    ]

statuses-append_status :
    (r : DeploymentStatusesReport) (status : DeploymentStatus)
    → (append_status r status).statuses
      ≡ drop_repeated status (record_status (last_status r) status r.statuses)
unfolding append_status
statuses-append_status r status = refl

append_status-reverse :
    (name : String) (status : DeploymentStatus) (h : List DeploymentStatus)
    → reverse (
        drop_repeated status (
          record_status
            (last_status (record { deployment_name = name; statuses = reverse h }))
            status
            (reverse h)))
      ≡ record_newest status h
unfolding record_newest
append_status-reverse name status [] = unfold drop_repeated record_status last_status in refl
append_status-reverse name status (l ∷ rest) = rw (
  last_status-append (record { deployment_name = name; statuses = reverse (l ∷ rest) })
      (reverse rest) l (reverse-cons l rest),
  record_status-reverse status l rest,
  drop_repeated-reverse,
)

-- Read with the newest status first, `AppendStatus` decides by the first two statuses alone: a
-- pending status of the same version is refined in place, any other status goes on top, and the
-- top is dropped where the one below has the new version and state already.
pub newest_first-append_status :
    (r : DeploymentStatusesReport) (status : DeploymentStatus)
    → newest_first (append_status r status) ≡ record_newest status (newest_first r)
newest_first-append_status r status = rw (statuses-append_status r status) (
    subst
      (λ s.
        reverse (
          drop_repeated status (
            record_status
              (last_status (record { deployment_name = r.deployment_name; statuses = s })) status
              s))
        ≡ record_newest status (newest_first r))
      (reverse-reverse r.statuses)
      (append_status-reverse r.deployment_name status (newest_first r)))
