-- ===== src/Tests/Promotion.antt =====
-- A promotion from a repository with two tags, and one from an empty repository.
use propagation_controller.Base.{
  ◌≡◌, refl, ap, pos, String, true, false, Option, none, some, List, [], ◌∷◌, ok, ◌==◌,
  if◌then◌else◌, ◌↔◌, eq_refl,
}
use propagation_controller.Clients.Clientset.{NamespacedName}
use propagation_controller.Promotion.{
  Repository, ReleasePromotion, PromotionCluster, Crane, out_of_range, source_reference,
  target_reference, reconcile_promotion,
}
use propagation_controller.Promotion.Copy.{
  IsCopying, listed, reconcile_promotion-copies, reconcile_promotion-out_of_range,
}

-- What a reference holds.
abbrev Images : Type 0
Images = String → Option String

abbrev repository : String → Repository
repository url = record { url = url; auth = none }

abbrev promotion : ReleasePromotion
promotion = record {
  spec = record {
    protocol = "oci";
    releases_repository = repository "registry/releases";
    target_repository = repository "registry/app";
  };
  status = record { conditions = [] };
}

abbrev cluster : PromotionCluster Images
cluster = record {
  get_promotion = λ key w. (ok promotion, w);
  is_not_found = λ e. false;
  now = λ w. (pos 0, w);
  set_status_condition = λ c conditions w. (true, c ∷ conditions, w);
  update_promotion = λ p w. (ok p, w);
}

abbrev crane : List String → Crane Images
crane tags = record {
  list_tags = λ url w. (ok tags, w);
  copy = λ source target w. (ok tt, λ r. if r == target then w source else w r);
}

abbrev key : NamespacedName
key = record { namespace = "default"; name = "app" }

abbrev images : Images
images r = if r == "registry/releases:v2" then some "image two" else none

crane-IsCopying : (tags : List String) → IsCopying (λ w r. w r) cluster (crane tags)
crane-IsCopying tags = record {
  get_keeps = λ k r w. refl;
  tags_keep = λ url r w. refl;
  copies = λ source target w e. ap (λ b. if b then w source else w target) (eq_refl target);
}

abbrev two_tags : Crane Images
two_tags = crane ("v2" ∷ "v1" ∷ [])

reconcile_promotion-copies_example :
    (release : String) × (rest : List String) × ((listed cluster two_tags key images promotion refl
        refl).0
      ≡ ok (release ∷ rest))
    × ((reconcile_promotion cluster two_tags key images).1 (target_reference promotion)
        ≡ images (source_reference promotion release))
reconcile_promotion-copies_example =
    reconcile_promotion-copies cluster two_tags key images promotion refl refl (λ w r. w r)
      (crane-IsCopying ("v2" ∷ "v1" ∷ [])) (unfold reconcile_promotion in refl)

reconcile_promotion-out_of_range_example :
    ((reconcile_promotion cluster (crane []) key images).0 ≡ out_of_range)
    ↔ ((listed cluster (crane []) key images promotion refl refl).0 ≡ ok [])
reconcile_promotion-out_of_range_example =
    reconcile_promotion-out_of_range cluster (crane []) key images promotion refl refl
