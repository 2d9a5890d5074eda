-- ===== src/Clients/Oci/Url.antt =====
-- Which backends can be made.
use Prim.Native.String.{◌++◌ as append}
use propagation_controller.Base.{
  ◌≡◌, sym, ap, ◌∙◌, String, Option, Result, ok, err, ◌==◌, if◌then◌else◌, eq_iff, inl, inr,
  Bool-cases, >>=-eq-ok, ok_injective, err-ne-ok,
}
use propagation_controller.Clients.{Bytes, PropagationBackendClient}
use propagation_controller.Clients.Oci.{
  ImageLibrary, Json, OciArtifact, Heap, trim_prefix, new_propagation_backend_client, oci_client,
  oci_backend, wrap_error, auth_of,
}

wrap_error-ok {ℓ} :
    {A : Type ℓ} (prefix : String) (r : Result A) {a : A} → wrap_error prefix r ≡ ok a → r ≡ ok a
wrap_error-ok prefix (ok a) e = e
wrap_error-ok prefix (err x) e = absurd (err-ne-ok e)

module _ {W Image Auth Repository : Type 0} (default_tag : String) (lib : ImageLibrary W Image Auth)
    (json : Json) (reference : Repository → String → String → String → String) (heap : Heap W Image)
    (url_scheme : String → Result String) (new_repository : String → Result Repository)
    (parse_auth : Bytes → Result Auth) where
  module _ (base_url scheme : String) (secret_data : Option Bytes) where
    new_backend_step :
        url_scheme base_url ≡ ok scheme
        → new_propagation_backend_client default_tag lib json reference heap url_scheme
            new_repository parse_auth base_url secret_data
          ≡ (if scheme == "oci"
              then oci_backend default_tag lib json reference heap url_scheme new_repository
                  parse_auth
                  (trim_prefix base_url (append scheme "://"))
                  secret_data
              else err (append scheme " backend not supported"))
    unfolding new_propagation_backend_client
    new_backend_step e = rw e

    oci_backend_ok :
        (url : String) (b : PropagationBackendClient W (OciArtifact Image))
        → oci_backend default_tag lib json reference heap url_scheme new_repository parse_auth url
            secret_data
          ≡ ok b
        → (repository : Repository) × (auth : Option Auth) × (new_repository url ≡ ok repository)
          × (auth_of parse_auth secret_data ≡ ok auth)
          × (b ≡ oci_client default_tag lib json reference heap repository auth)
    unfolding oci_backend
    oci_backend_ok url b made =
        let (repository, r, made') =
          >>=-eq-ok (wrap_error "failed to parse OCI repository: " (new_repository url)) _ made in
        let (auth, a, made'') = >>=-eq-ok (auth_of parse_auth secret_data) _ made' in
        (repository, auth, wrap_error-ok _ (new_repository url) r, a, sym (ok_injective made''))

    -- If the URL has a scheme and a backend is made for it, the scheme is `oci`, the backend is the
    -- client of the repository that the URL names behind the scheme, and its credentials are those
    -- of the secret, or none without a secret.
    pub new_propagation_backend_client-ok :
        (b : PropagationBackendClient W (OciArtifact Image))
        → url_scheme base_url ≡ ok scheme
        → new_propagation_backend_client default_tag lib json reference heap url_scheme
            new_repository parse_auth base_url secret_data
          ≡ ok b
        → (scheme ≡ "oci")
          × ((repository : Repository) × (auth : Option Auth) × (new_repository
                  (trim_prefix base_url (append scheme "://"))
                ≡ ok repository)
              × (auth_of parse_auth secret_data ≡ ok auth)
              × (b ≡ oci_client default_tag lib json reference heap repository auth))
    new_propagation_backend_client-ok b e made = elim (Bool-cases (scheme == "oci")) [
      | inl oci ↦ (
        (eq_iff scheme "oci").0 oci,
        oci_backend_ok (trim_prefix base_url (append scheme "://")) b (
            ap
              (λ t.
                if t
                then oci_backend default_tag lib json reference heap url_scheme new_repository
                    parse_auth (trim_prefix base_url (append scheme "://")) secret_data
                else err (append scheme " backend not supported"))
              (sym oci)
            ∙ sym (new_backend_step e)
            ∙ made),
      )
      | inr other ↦ absurd (
          err-ne-ok (
            sym (
              ap
                (λ t.
                  if t
                  then oci_backend default_tag lib json reference heap url_scheme new_repository
                      parse_auth (trim_prefix base_url (append scheme "://")) secret_data
                  else err (append scheme " backend not supported"))
                other)
            ∙ sym (new_backend_step e)
            ∙ made))
    ]
