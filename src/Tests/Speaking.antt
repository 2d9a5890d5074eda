-- ===== src/Tests/Speaking.antt =====
-- A backend that writes and reads the statuses healthy at the versions `v1` and `v2`.
use propagation_controller.Base.{
  ◌≡◌, refl, ℤ, pos, negsuc, zero, suc, String, Bool, true, false, ◌&&◌, ◌==◌, if◌then◌else◌,
  eq_iff, arith, Result, ok, err, err-ne-ok, inl, inr, Bool-cases, sym, ◌∙◌, ap, ok_injective,
}
use propagation_controller.Api.{DeploymentStatus, healthy}
use propagation_controller.Config.{Config}
use propagation_controller.Clients.{
  Payload, status_payload, config_payload, same_bytes, PropagationBackendClient,
}
use propagation_controller.Clients.Exchange.{IsCodec}
use propagation_controller.Tests.Clients.{World, codes, decode, content, registry_with}
use propagation_controller.Tests.Controller.{healthy_at}

unfoldable pub is_zero : ℤ → Bool
is_zero (pos zero) = true
is_zero (pos (suc n)) = false
is_zero (negsuc n) = false

is_zero_eq : (t : ℤ) → is_zero t ≡ true → t ≡ pos 0
unfolding is_zero
is_zero_eq (pos zero) e = refl
is_zero_eq (pos (suc n)) e = absurd (ground arith)
is_zero_eq (negsuc n) e = absurd (ground arith)

unfoldable pub is_spoken : String → DeploymentStatus → Bool
unfolding is_zero
is_spoken v s = (s.version == v && s.state == healthy) && is_zero s.start

is_spoken_eq : (v : String) (s : DeploymentStatus) → is_spoken v s ≡ true → healthy_at v 0 ≡ s
unfolding is_spoken
is_spoken_eq v s e =
    let version : s.version ≡ v = (eq_iff s.version v).0 (ground (arith, e)) in
    let state : s.state ≡ healthy = (eq_iff s.state healthy).0 (ground (arith, e)) in
    let start : s.start ≡ pos 0 = is_zero_eq s.start (ground (arith, e)) in
    sym λ i. record { version = version i; start = start i; state = state i }

unfoldable pub speak : Payload → Result String
unfolding is_spoken
speak (status_payload s) =
    if is_spoken "v1" s then ok "v1" else if is_spoken "v2" s then ok "v2" else err "not known"
speak (config_payload c) = err "not a status"

abbrev pub speaking : Config → PropagationBackendClient World String
speaking config = registry_with speak (λ a. ok config)

speak-first : (s : DeploymentStatus) → is_spoken "v1" s ≡ true → speak (status_payload s) ≡ ok "v1"
unfolding speak
speak-first s e = rw e refl

speak-second :
    (s : DeploymentStatus)
    → is_spoken "v1" s ≡ false
    → is_spoken "v2" s ≡ true
    → speak (status_payload s) ≡ ok "v2"
unfolding speak
speak-second s e f = rw (e, f) refl

speak-neither :
    (s : DeploymentStatus)
    → is_spoken "v1" s ≡ false
    → is_spoken "v2" s ≡ false
    → speak (status_payload s) ≡ err "not known"
unfolding speak
speak-neither s e f = rw (e, f) refl

pub speaking-IsCodec : (config : Config) → IsCodec content (λ t. t) (speaking config)
unfolding decode same_bytes
speaking-IsCodec config s a made = elim (Bool-cases (is_spoken "v1" s)) [
  | inl e ↦
      ap (λ a. decode (codes a)) (ok_injective (sym made ∙ speak-first s e))
      ∙ ap ok (is_spoken_eq "v1" s e)
  | inr e ↦ elim (Bool-cases (is_spoken "v2" s)) [
    | inl f ↦
        ap (λ a. decode (codes a)) (ok_injective (sym made ∙ speak-second s e f))
        ∙ ap ok (is_spoken_eq "v2" s f)
    | inr f ↦ absurd (err-ne-ok (sym (speak-neither s e f) ∙ made))
  ]
]
