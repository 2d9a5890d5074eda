-- ===== src/Promotion/Client.antt =====
-- The functions of internal/controller/promotion/releasepromotion_client.go that are not commented out,
-- copies of those of pkg/clients/propagation_backend_client_oci.go. Nothing calls them. `parse` is
-- `url.Parse`, and `scheme_of` the field `Scheme` of what it returns.
use Prim.Native.String.{◌++◌ as append}
use propagation_controller.Base.{◌≡◌, refl, String, Result, ok, err, inl, inr, Result-cases}
use propagation_controller.Clients.Oci.{trim_scheme, trim_prefix}

module _ {Url : Type 0} (parse : String → Result Url) (scheme_of : Url → String) where
  -- `scheme`
  unfoldable pub promotion_scheme : String → Result String
  promotion_scheme base_url = elim (parse base_url) [ err e ↦ err e | ok u ↦ ok (scheme_of u) ]

  -- `trimScheme`
  unfoldable pub promotion_trim_scheme : String → Result String
  unfolding promotion_scheme
  promotion_trim_scheme base_url = elim (promotion_scheme base_url) [
    | err e ↦ err e
    | ok scheme ↦ ok (trim_prefix base_url (append scheme "://"))
  ]

  -- The copy does what the original does.
  pub promotion_trim_scheme-trim_scheme :
      (base_url : String) → promotion_trim_scheme base_url ≡ trim_scheme promotion_scheme base_url
  unfolding promotion_trim_scheme trim_scheme promotion_scheme
  promotion_trim_scheme-trim_scheme base_url = elim (Result-cases (parse base_url)) [
    | inl (u, e) ↦ rw (e, promotion_trim_scheme, promotion_scheme) refl
    | inr (x, e) ↦ rw (e, promotion_trim_scheme, promotion_scheme) refl
  ]
