-- ===== src/Promotion/Copy.antt =====
-- What a round of the promotion controller leaves in the registry.
use propagation_controller.Base.{
  ◌≡◌, refl, sym, ap, ◌∙◌, String, Option, List, [], ◌∷◌, Result, ok, err, Error, ◌==◌, inl, inr,
  Result-cases, eq_refl, ◌↔◌,
}
use propagation_controller.Clients.Clientset.{NamespacedName}
use propagation_controller.Promotion.{
  ReleasePromotion, PromotionCluster, Crane, finished, rejected, out_of_range, source_reference,
  target_reference, report_failure, promote, promote_releases, reconcile_promotion,
}

-- The laws of the registry: looking the object and the tags up changes no image, and a copy that
-- succeeds leaves at its target the image that its source had.
pub record IsCopying {W Image : Type 0} (content : W → String → Option Image)
    (cluster : PromotionCluster W) (crane : Crane W) : Type 0 where
  pub get_keeps :
      (key : NamespacedName) (r : String) (w : W)
      → content (cluster.get_promotion key w).1 r ≡ content w r
  pub tags_keep : (url r : String) (w : W) → content (crane.list_tags url w).1 r ≡ content w r
  pub copies :
      (source target : String) (w : W)
      → (crane.copy source target w).0 ≡ ok tt
      → content (crane.copy source target w).1 target ≡ content w source

rejected-ne-finished : {e : Error} → rejected e ≡ finished → ⊥
rejected-ne-finished f = cc

rejected-ne-out_of_range : {e : Error} → rejected e ≡ out_of_range → ⊥
rejected-ne-out_of_range f = cc

out_of_range-ne-finished : out_of_range ≡ finished → ⊥
out_of_range-ne-finished f = cc

module _ {W : Type 0} (cluster : PromotionCluster W) (crane : Crane W) where
  report_failure-rejected :
      (p : ReleasePromotion) (reason : String) (e : Error) (w : W)
      → (report_failure cluster crane p reason e w).0 ≡ rejected e
  unfolding report_failure
  report_failure-rejected p reason e w = refl

  promote-err :
      (p : ReleasePromotion) (release : String) (rest : List String) (w : W) (e : Error)
      → (crane.copy (source_reference p release) (target_reference p) w).0 ≡ err e
      → (promote cluster crane p (release ∷ rest) w).0 ≡ rejected e
  unfolding promote
  promote-err p release rest w e f =
      rw (f, promote)
        (report_failure-rejected p "ArtifactPromotionFailed" e
          (crane.copy (source_reference p release) (target_reference p) w).1)

  promote-ok :
      (p : ReleasePromotion) (release : String) (rest : List String) (w : W)
      → (crane.copy (source_reference p release) (target_reference p) w).0 ≡ ok tt
      → promote cluster crane p (release ∷ rest) w
        ≡ (finished, (crane.copy (source_reference p release) (target_reference p) w).1)
  unfolding promote
  promote-ok p release rest w f = rw (f, promote) refl

  promote-nil : (p : ReleasePromotion) (w : W) → promote cluster crane p [] w ≡ (out_of_range, w)
  unfolding promote
  promote-nil p w = refl

  module _ (key : NamespacedName) (w : W) (p : ReleasePromotion)
      (found : (cluster.get_promotion key w).0 ≡ ok p) (oci : p.spec.protocol ≡ "oci") where
    abbrev got : W
    got = (cluster.get_promotion key w).1

    abbrev pub listed : Result (List String) × W
    listed = crane.list_tags p.spec.releases_repository.url got

    unlisted :
        (e : Error) → listed.0 ≡ err e → (reconcile_promotion cluster crane key w).0 ≡ rejected e
    unfolding reconcile_promotion promote_releases
    unlisted e f =
        rw (found, f, reconcile_promotion, promote_releases)
          (report_failure-rejected p "ListTagsFailed" e listed.1)

    tagged :
        (releases : List String)
        → listed.0 ≡ ok releases
        → reconcile_promotion cluster crane key w ≡ promote cluster crane p releases listed.1
    unfolding reconcile_promotion promote_releases
    tagged releases f =
        rw
          (
            found,
            f,
            ap (λ s. s == "oci") oci ∙ eq_refl "oci",
            reconcile_promotion,
            promote_releases,
          )
          refl

    -- If the object is found, its protocol is `oci` and the round ends without an error or a panic,
    -- the target's tag `latest` holds the image that the first listed tag of the releases repository
    -- had at the start.
    pub reconcile_promotion-copies :
        {Image : Type 0} (content : W → String → Option Image)
        → IsCopying content cluster crane
        → (reconcile_promotion cluster crane key w).0 ≡ finished
        → (release : String) × (rest : List String) × (listed.0 ≡ ok (release ∷ rest))
          × (content (reconcile_promotion cluster crane key w).1 (target_reference p)
              ≡ content w (source_reference p release))
    reconcile_promotion-copies content law e = elim (Result-cases listed.0) [
      | inr (x, f) ↦ absurd (rejected-ne-finished (sym (unlisted x f) ∙ e))
      | inl (releases, f) ↦ by_tags releases f
    ]
      where
        by_tags :
            (releases : List String)
            → listed.0 ≡ ok releases
            → (release : String) × (rest : List String) × (listed.0 ≡ ok (release ∷ rest))
              × (content (reconcile_promotion cluster crane key w).1 (target_reference p)
                  ≡ content w (source_reference p release))
        by_tags [] f = absurd (
            out_of_range-ne-finished
              (sym (ap (λ x. x.0) (tagged [] f ∙ promote-nil p listed.1)) ∙ e))
        by_tags (release ∷ rest) f =
            let source = source_reference p release in
            let kept : content listed.1 source ≡ content w source =
              law.tags_keep p.spec.releases_repository.url source got
              ∙ law.get_keeps key source w in
            elim (Result-cases (crane.copy source (target_reference p) listed.1).0) [
              | inr (x, g) ↦ absurd (
                  rejected-ne-finished (
                    sym (promote-err p release rest listed.1 x g)
                    ∙ sym (ap (λ x. x.0) (tagged (release ∷ rest) f))
                    ∙ e))
              | inl (tt', g) ↦ (
                release,
                rest,
                f,
                rw (tagged (release ∷ rest) f, promote-ok p release rest listed.1 g)
                    (law.copies source (target_reference p) listed.1 g ∙ kept),
              )
            ]

    -- If the object is found and its protocol is `oci`, the round panics exactly when the releases
    -- repository is listed without an error and has no tag.
    pub reconcile_promotion-out_of_range :
        ((reconcile_promotion cluster crane key w).0 ≡ out_of_range) ↔ (listed.0 ≡ ok [])
    reconcile_promotion-out_of_range = (
      λ e. elim (Result-cases listed.0) [
        | inr (x, f) ↦ absurd (rejected-ne-out_of_range (sym (unlisted x f) ∙ e))
        | inl (releases, f) ↦ f ∙ ap ok (no_tags releases f e)
      ],
      λ f. ap (λ x. x.0) (tagged [] f ∙ promote-nil p listed.1),
    )
      where
        finished-ne-out_of_range : finished ≡ out_of_range → ⊥
        finished-ne-out_of_range f = cc

        no_tags :
            (releases : List String)
            → listed.0 ≡ ok releases
            → (reconcile_promotion cluster crane key w).0 ≡ out_of_range
            → releases ≡ []
        no_tags [] f e = refl
        no_tags (release ∷ rest) f e =
            elim (Result-cases
              (crane.copy (source_reference p release) (target_reference p) listed.1).0) [
                | inr (x, g) ↦ absurd (
                    rejected-ne-out_of_range (
                      sym (promote-err p release rest listed.1 x g)
                      ∙ sym (ap (λ x. x.0) (tagged (release ∷ rest) f))
                      ∙ e))
                | inl (tt', g) ↦ absurd (
                    finished-ne-out_of_range (
                      sym (
                        ap (λ x. x.0)
                          (tagged (release ∷ rest) f ∙ promote-ok p release rest listed.1 g))
                      ∙ e))
              ]
