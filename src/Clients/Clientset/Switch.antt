-- ===== src/Clients/Clientset/Switch.antt =====
-- What becomes of the caches when the backend of a propagation changes.
use propagation_controller.Base.{
  ◌≡◌, refl, sym, ap, ◌∙◌, String, Option, none, some, Result, ok, err, arith, true, eq_iff, inl,
  inr, Result-cases, ok_injective, err-ne-ok,
}
use propagation_controller.Api.{Propagation}
use propagation_controller.Clients.{
  Bytes, ArtifactMetadata, Cache, empty_cache, PropagationBackendClient, PropagationClient, lookup,
  publish, new_propagation_client,
}
use propagation_controller.Clients.Publish.Cases.{publish_same, same_bytes_refl}
use propagation_controller.Clients.Clientset.{
  NamespacedName, PropagationClientset, same_name, find_client, put_client, key_of, secret_of,
  client_for, propagation,
}

same_name_refl : (a : NamespacedName) → same_name a a ≡ true
unfolding same_name
same_name_refl a = ground (arith, eq_iff a.namespace a.namespace, eq_iff a.name a.name)

-- The caches that a client starts with.
abbrev pub cache_of : {W A : Type 0} → Option (PropagationClient W A) → Cache A
cache_of none = empty_cache
cache_of (some c) = c.cache

module _ {W A : Type 0} (get_secret : NamespacedName → W → Result (Option Bytes) × W)
    (new_backend : String → Option Bytes → Result (PropagationBackendClient W A)) where
  pub propagation_step :
      (p : Propagation) (set : PropagationClientset W A) (w : W) (d : Option Bytes)
      (b : PropagationBackendClient W A)
      → (secret_of get_secret new_backend p w).0 ≡ ok d
      → new_backend p.spec.backend.base_url d ≡ ok b
      → propagation get_secret new_backend p set w ≡ (
        ok (client_for get_secret new_backend (find_client (key_of p) set.clients) b),
        put_client
            (key_of p)
            (client_for get_secret new_backend (find_client (key_of p) set.clients) b)
            set,
        (secret_of get_secret new_backend p w).1,
      )
  unfolding propagation
  propagation_step p set w d b e f = rw (e, propagation, f)

  pub propagation_secret_err :
      (p : Propagation) (set : PropagationClientset W A) (w : W) (x : String)
      → (secret_of get_secret new_backend p w).0 ≡ err x
      → (propagation get_secret new_backend p set w).0 ≡ err x
  unfolding propagation
  propagation_secret_err p set w x e = rw (e, propagation)

  pub propagation_backend_err :
      (p : Propagation) (set : PropagationClientset W A) (w : W) (d : Option Bytes) (x : String)
      → (secret_of get_secret new_backend p w).0 ≡ ok d
      → new_backend p.spec.backend.base_url d ≡ err x
      → (propagation get_secret new_backend p set w).0 ≡ err x
  unfolding propagation
  propagation_backend_err p set w d x e f = rw (e, propagation, f)

  client_for_parts :
      (o : Option (PropagationClient W A)) (b : PropagationBackendClient W A)
      → ((client_for get_secret new_backend o b).backend ≡ b)
        × ((client_for get_secret new_backend o b).cache ≡ cache_of o)
  unfolding client_for new_propagation_client
  client_for_parts none b = (refl, refl)
  client_for_parts (some c) b = (refl, refl)

  pub find-put_client :
      (key : NamespacedName) (c : PropagationClient W A) (set : PropagationClientset W A)
      → find_client key (put_client key c set).clients ≡ some c
  unfolding find_client put_client
  find-put_client key c set = rw (same_name_refl key)

  -- A client that `Propagation` returns has the backend of the current specification and the caches
  -- of the client that was there for the object, empty ones for a new object. It is the one that the
  -- next call finds.
  pub propagation-ok :
      (p : Propagation) (set : PropagationClientset W A) (w : W) (c : PropagationClient W A)
      → (propagation get_secret new_backend p set w).0 ≡ ok c
      → (secret_data : Option Bytes) × ((secret_of get_secret new_backend p w).0 ≡ ok secret_data)
        × (new_backend p.spec.backend.base_url secret_data ≡ ok c.backend)
        × (c.cache ≡ cache_of (find_client (key_of p) set.clients))
        × (find_client (key_of p) (propagation get_secret new_backend p set w).1.clients ≡ some c)
  propagation-ok p set w c e = elim (Result-cases (secret_of get_secret new_backend p w).0) [
    | inr (x, h) ↦ absurd (err-ne-ok (sym (propagation_secret_err p set w x h) ∙ e))
    | inl (d, h) ↦ elim (Result-cases (new_backend p.spec.backend.base_url d)) [
      | inr (x, k) ↦ absurd (err-ne-ok (sym (propagation_backend_err p set w d x h k) ∙ e))
      | inl (b, k) ↦
          let found = find_client (key_of p) set.clients in
          let client = client_for get_secret new_backend found b in
          let step = propagation_step p set w d b h k in
          let same : client ≡ c = ok_injective (ap (λ x. x.0) (sym step) ∙ e) in
          let (backend, cache) = client_for_parts found b in
          (
            d,
            h,
            k ∙ ap ok (sym backend ∙ ap (λ x. x.backend) same),
            ap (λ x. x.cache) (sym same) ∙ cache,
            ap (λ x. find_client (key_of p) x.1.clients) step
                ∙ find-put_client (key_of p) client set
                ∙ ap some same,
          )
    ]
  ]

  -- The publish cache outlives a change of the backend. Once some bytes were published for an object
  -- through one backend, publishing them again succeeds with no call of any backend: all that happens
  -- is that the bytes of both artifacts are read, and these reads succeed. This is so also when the
  -- object's specification has come to name another registry, which has never seen them.
  pub publish_after_switch :
      (p : Propagation) (set : PropagationClientset W A) (w : W) (old c : PropagationClient W A)
      (m : ArtifactMetadata) (cached a : A) (x : Bytes) (w' : W)
      → find_client (key_of p) set.clients ≡ some old
      → lookup m old.cache.publish_cache ≡ some cached
      → (propagation get_secret new_backend p set w).0 ≡ ok c
      → let old_bytes = c.backend.bytes cached w' in
        let new_bytes = c.backend.bytes a old_bytes.1 in
        old_bytes.0 ≡ ok x → new_bytes.0 ≡ ok x → publish m a c w' ≡ (ok tt, c, new_bytes.1)
  publish_after_switch p set w old c m cached a x w' there known e f g =
      let (d, _, _, cache, _) = propagation-ok p set w c e in
      let kept : c.cache ≡ old.cache = cache ∙ ap cache_of there in
      publish_same m a c w' cached (ap (λ k. lookup m k.publish_cache) kept ∙ known) x x f g
        (same_bytes_refl x)
