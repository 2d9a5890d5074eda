-- ===== src/Clients/Fetch.antt =====
-- `Fetch` of the cached client: what it returns is what the registry holds.
use mathlib.Core.Option
use propagation_controller.Base.{
  ◌≡◌, refl, sym, ap, ◌∙◌, String, true, false, none, some, List, ◌∷◌, Result, ok, err, inl, inr,
  Bool-cases, Option-cases, Result-cases, ByResult, false≢true, eq_iff,
}
use propagation_controller.Clients.{
  ArtifactMetadata, same_metadata, PropagationBackendClient, PropagationClient, lookup, is_fresh,
  is_immutable, fetch_through, fetch,
}
use propagation_controller.Clients.Registry.{
  Contents, is_canonical, IsRegistry, IsCoherent, IsCoherent-world, same_metadata_eq,
}

-- The client with an artifact added to its fetch cache.
abbrev pub fetched :
    {W A : Type 0} → ArtifactMetadata → A → PropagationClient W A → PropagationClient W A
fetched m a c = record c { cache = record c.cache { fetch_cache = (m, a) ∷ c.cache.fetch_cache } }

module _ {W A : Type 0} (default_tag : String) (m : ArtifactMetadata) (c : PropagationClient W A)
    (w : W) where
  fetch_through-ok :
      (a : A)
      → (c.backend.fetch m w).0 ≡ ok a
      → fetch_through default_tag m c w ≡ (ok a, fetched m a c, (c.backend.fetch m w).1)
  unfolding fetch_through
  fetch_through-ok a e = rw (e, fetch_through)

  fetch_through-err :
      (x : String)
      → (c.backend.fetch m w).0 ≡ err x
      → fetch_through default_tag m c w ≡ (err x, c, (c.backend.fetch m w).1)
  unfolding fetch_through
  fetch_through-err x e = rw (e, fetch_through)

  fetch_miss :
      lookup m c.cache.fetch_cache ≡ none
      → fetch default_tag m c w ≡ fetch_through default_tag m c w
  unfolding fetch
  fetch_miss e = rw (e, fetch)

  fetch_immutable :
      (a : A)
      → lookup m c.cache.fetch_cache ≡ some a
      → is_immutable default_tag m ≡ true
      → fetch default_tag m c w ≡ (ok a, c, w)
  unfolding fetch
  fetch_immutable a e i = rw (e, fetch, i)

  fetch_fresh :
      (a : A)
      → lookup m c.cache.fetch_cache ≡ some a
      → is_immutable default_tag m ≡ false
      → is_fresh (c.backend.digest_string a) (c.backend.digest m w).0 ≡ true
      → fetch default_tag m c w ≡ (ok a, c, (c.backend.digest m w).1)
  unfolding fetch
  fetch_fresh a e i f = rw (e, fetch, i, f)

  fetch_stale :
      (a : A)
      → lookup m c.cache.fetch_cache ≡ some a
      → is_immutable default_tag m ≡ false
      → is_fresh (c.backend.digest_string a) (c.backend.digest m w).0 ≡ false
      → fetch default_tag m c w ≡ fetch_through default_tag m c (c.backend.digest m w).1
  unfolding fetch
  fetch_stale a e i f = rw (e, fetch, i, f)

module _ {A : Type 0} (n m : ArtifactMetadata) (a : A) (entries : List (ArtifactMetadata × A)) where
  pub lookup_here : same_metadata m n ≡ true → lookup n ((m, a) ∷ entries) ≡ some a
  unfolding lookup
  lookup_here e = rw e

  pub lookup_there : same_metadata m n ≡ false → lookup n ((m, a) ∷ entries) ≡ lookup n entries
  unfolding lookup
  lookup_there e = rw e

is_fresh-true : (x y : Result String) → is_fresh x y ≡ true → (d : String) × (x ≡ ok d) × (y ≡ ok d)
unfolding is_fresh
is_fresh-true (ok a) (ok b) h = (a, refl, ap ok ((eq_iff b a).0 h))
is_fresh-true (ok a) (err b) h = absurd (false≢true h)
is_fresh-true (err a) y h = absurd (false≢true h)

-- What a call of `Fetch` leaves: an artifact that it returns has the registry's bytes, nothing in the
-- registry changes, and the cache stays coherent.
pub record IsRead {W A : Type 0} (default_tag : String) (content : Contents W A)
    (b : PropagationBackendClient W A) (m : ArtifactMetadata) (w : W)
    (x : Result A × PropagationClient W A × W) : Type 0 where
  pub value : ByResult (λ a. content.held w m ≡ some (content.raw a)) Unit x.0
  pub keeps : (n : ArtifactMetadata) → content.held x.2 n ≡ content.held w n
  pub backend : x.1.backend ≡ b
  pub coherent : IsCoherent default_tag content x.1 x.2

module _ {W A : Type 0} (default_tag : String) (content : Contents W A) where
  IsCoherent-fetched :
      (m : ArtifactMetadata) (a : A) (c : PropagationClient W A) (w : W)
      → content.held w m ≡ some (content.raw a)
      → IsCoherent default_tag content c w
      → IsCoherent default_tag content (fetched m a c) w
  IsCoherent-fetched m a c w e v = record {
    registry = v.registry;
    published = v.published;
    manifests = λ n b i found. elim (Bool-cases (same_metadata m n)) [
      | inl same ↦
          ap (content.held w) (sym (same_metadata_eq m n same))
          ∙ e
          ∙ ap (Option.map content.raw) (sym (lookup_here n m a c.cache.fetch_cache same) ∙ found)
      | inr other ↦ v.manifests n b i (sym (lookup_there n m a c.cache.fetch_cache other) ∙ found)
    ];
  }

  fetch_through-IsRead :
      (m : ArtifactMetadata) (c : PropagationClient W A) (w : W)
      → is_canonical m ≡ true
      → IsCoherent default_tag content c w
      → IsRead default_tag content c.backend m w (fetch_through default_tag m c w)
  fetch_through-IsRead m c w k v = elim (Result-cases (c.backend.fetch m w).0) [
    | inl (a, e) ↦ rw (fetch_through-ok default_tag m c w a e) (record {
      value = v.registry.fetch_reads m w a k e;
      keeps = λ n. v.registry.fetch_keeps m n w;
      backend = refl;
      coherent =
          IsCoherent-fetched m a c (c.backend.fetch m w).1
            (v.registry.fetch_keeps m m w ∙ v.registry.fetch_reads m w a k e)
            (IsCoherent-world default_tag content c w (c.backend.fetch m w).1
              (λ n. v.registry.fetch_keeps m n w) v);
    })
    | inr (x, e) ↦ rw (fetch_through-err default_tag m c w x e) (record {
      value = tt;
      keeps = λ n. v.registry.fetch_keeps m n w;
      backend = refl;
      coherent =
          IsCoherent-world default_tag content c w (c.backend.fetch m w).1
            (λ n. v.registry.fetch_keeps m n w) v;
    })
  ]

  IsRead-world :
      (b : PropagationBackendClient W A) (m : ArtifactMetadata) (w w' : W)
      (x : Result A × PropagationClient W A × W)
      → ((n : ArtifactMetadata) → content.held w' n ≡ content.held w n)
      → IsRead default_tag content b m w' x
      → IsRead default_tag content b m w x
  IsRead-world b m w w' x same r = record {
    value = moved x.0 r.value;
    keeps = λ n. r.keeps n ∙ same n;
    backend = r.backend;
    coherent = r.coherent;
  }
    where
      moved :
          (y : Result A)
          → ByResult (λ a. content.held w' m ≡ some (content.raw a)) Unit y
          → ByResult (λ a. content.held w m ≡ some (content.raw a)) Unit y
      moved (ok a) there = sym (same m) ∙ there
      moved (err e) there = tt

  hit-IsRead :
      (m : ArtifactMetadata) (a : A) (c : PropagationClient W A) (w w' : W)
      → content.held w m ≡ some (content.raw a)
      → ((n : ArtifactMetadata) → content.held w' n ≡ content.held w n)
      → IsCoherent default_tag content c w
      → IsRead default_tag content c.backend m w (ok a, c, w')
  hit-IsRead m a c w w' e same v = record {
    value = e;
    keeps = same;
    backend = refl;
    coherent = IsCoherent-world default_tag content c w w' same v;
  }

  fresh_content :
      (m : ArtifactMetadata) (a : A) (c : PropagationClient W A) (w : W)
      → is_canonical m ≡ true
      → IsRegistry c.backend content
      → is_fresh (c.backend.digest_string a) (c.backend.digest m w).0 ≡ true
      → content.held w m ≡ some (content.raw a)
  fresh_content m a c w k r f =
      let (d, cached, remote) =
        is_fresh-true (c.backend.digest_string a) (c.backend.digest m w).0 f in
      r.digest_reads m w a d k remote cached

  fetch_hit :
      (m : ArtifactMetadata) (a : A) (c : PropagationClient W A) (w : W)
      → lookup m c.cache.fetch_cache ≡ some a
      → is_canonical m ≡ true
      → IsCoherent default_tag content c w
      → IsRead default_tag content c.backend m w (fetch default_tag m c w)
  fetch_hit m a c w e k v = elim (Bool-cases (is_immutable default_tag m)) [
    | inl i ↦
        rw (fetch_immutable default_tag m c w a e i)
          (hit-IsRead m a c w w (v.manifests m a i e) (λ n. refl) v)
    | inr i ↦ elim (Bool-cases (is_fresh (c.backend.digest_string a) (c.backend.digest m w).0)) [
      | inl f ↦ rw (fetch_fresh default_tag m c w a e i f) (
          hit-IsRead m a c w (c.backend.digest m w).1 (fresh_content m a c w k v.registry f)
            (λ n. v.registry.digest_keeps m n w) v)
      | inr f ↦
          let w' = (c.backend.digest m w).1 in
          let same : (n : ArtifactMetadata) → content.held w' n ≡ content.held w n =
            λ n. v.registry.digest_keeps m n w in
          rw (fetch_stale default_tag m c w a e i f) (
            IsRead-world c.backend m w w' (fetch_through default_tag m c w') same
              (fetch_through-IsRead m c w' k (IsCoherent-world default_tag content c w w' same v)))
    ]
  ]

  -- Whatever the cache holds, an artifact that `Fetch` returns has the bytes that the registry holds
  -- at that place; the call changes nothing there; and it leaves the cache such that this is so for
  -- the next call. The cache has to be coherent before, as it is when it is empty, and the artifact
  -- to be a manifest or without a version, as all are that the source fetches.
  pub fetch-IsRead :
      (m : ArtifactMetadata) (c : PropagationClient W A) (w : W)
      → is_canonical m ≡ true
      → IsCoherent default_tag content c w
      → IsRead default_tag content c.backend m w (fetch default_tag m c w)
  fetch-IsRead m c w k v = elim (Option-cases (lookup m c.cache.fetch_cache)) [
    | inl e ↦ rw (fetch_miss default_tag m c w e) (fetch_through-IsRead m c w k v)
    | inr (a, e) ↦ fetch_hit m a c w e k v
  ]
