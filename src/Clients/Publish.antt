-- ===== src/Clients/Publish.antt =====
-- `Publish` of the cached client: a success means that the registry holds the bytes.
pub mod Cases
use mathlib.Core.Option
use propagation_controller.Base.{
  ◌≡◌, refl, sym, ap, ◌∙◌, String, true, false, none, some, [], ◌∷◌, Result, ok, err, arith, inl,
  inr, Bool-cases, Option-cases, Result-cases, ByResult, ◌⊎◌, false≢true,
}
use propagation_controller.Clients.{
  ArtifactMetadata, same_metadata, PropagationBackendClient, PropagationClient, lookup, Bytes,
  same_bytes, is_immutable, publish_through, publish,
}
use propagation_controller.Clients.Registry.{
  is_canonical, Contents, IsCoherent, IsCoherent-world, same_metadata_eq,
}
use propagation_controller.Clients.Fetch.{lookup_here, lookup_there}
use propagation_controller.Clients.Publish.Cases.{
  same_bytes_eq, published, publish_through-ok, publish_through-err, publish_new,
  publish_cached_err, publish_bytes_err, publish_same, publish_other,
}

-- What a call of `Publish` leaves: after a success the registry holds the bytes of `a`; after a
-- failure it holds there what it held; no other place changes; the cache stays coherent.
pub record IsWrite {W A : Type 0} (default_tag : String) (content : Contents W A)
    (b : PropagationBackendClient W A) (m : ArtifactMetadata) (a : A) (w : W)
    (x : Result (Unit {0}) × PropagationClient W A × W) : Type 0 where
  pub here :
      ByResult
        (λ _. content.held x.2 m ≡ some (content.raw a))
        (content.held x.2 m ≡ content.held w m)
        x.0
  pub others : (n : ArtifactMetadata) → (m ≡ n) ⊎ (content.held x.2 n ≡ content.held w n)
  pub backend : x.1.backend ≡ b
  pub coherent : IsCoherent default_tag content x.1 x.2

is_immutable_other :
    (default_tag : String) (m n : ArtifactMetadata)
    → is_immutable default_tag m ≡ false
    → is_immutable default_tag n ≡ true
    → same_metadata m n ≡ false
is_immutable_other default_tag m n i j = elim (Bool-cases (same_metadata m n)) [
  | inl e ↦ absurd (false≢true (sym i ∙ ap (is_immutable default_tag) (same_metadata_eq m n e) ∙ j))
  | inr e ↦ e
]

module _ {W A : Type 0} (default_tag : String) (content : Contents W A) (m : ArtifactMetadata)
    (a : A) (c : PropagationClient W A) (mutable : is_immutable default_tag m ≡ false)
    (canonical : is_canonical m ≡ true) where
  elsewhere :
      {w w' : W}
      → ((n : ArtifactMetadata) → same_metadata m n ≡ false → content.held w' n ≡ content.held w n)
      → (n : ArtifactMetadata) → (m ≡ n) ⊎ (content.held w' n ≡ content.held w n)
  elsewhere kept n = elim (Bool-cases (same_metadata m n)) [
    | inl same ↦ inl (same_metadata_eq m n same)
    | inr other ↦ inr (kept n other)
  ]

  publish_through-IsWrite :
      (w : W)
      → IsCoherent default_tag content c w
      → IsWrite default_tag content c.backend m a w (publish_through m a c w)
  publish_through-IsWrite w v = elim (Result-cases (c.backend.publish m a w).0) [
    | inl (tt', e) ↦
        let w' = (c.backend.publish m a w).1 in
        let written : content.held w' m ≡ some (content.raw a) =
          v.registry.publish_writes m a w canonical e in
        let kept : (n : ArtifactMetadata)
            → same_metadata m n ≡ false
            → content.held w' n ≡ content.held w n =
          λ n other. v.registry.publish_keeps m n a w canonical other in
        rw (publish_through-ok m a c w e) (record {
          here = written;
          others = elsewhere kept;
          backend = refl;
          coherent = record {
            registry = v.registry;
            manifests = λ n b i found.
                kept n (is_immutable_other default_tag m n mutable i) ∙ v.manifests n b i found;
            published = λ n b found. elim (Bool-cases (same_metadata m n)) [
              | inl same ↦
                  ap (content.held w') (sym (same_metadata_eq m n same))
                  ∙ written
                  ∙ ap (Option.map content.raw)
                      (sym (lookup_here n m a c.cache.publish_cache same) ∙ found)
              | inr other ↦
                  kept n other
                  ∙ v.published n b (sym (lookup_there n m a c.cache.publish_cache other) ∙ found)
            ];
          };
        })
    | inr (x, e) ↦
        let w' = (c.backend.publish m a w).1 in
        let same_place : content.held w' m ≡ content.held w m =
          v.registry.publish_fails m a w x canonical e in
        let kept : (n : ArtifactMetadata) → content.held w' n ≡ content.held w n = λ n.
          elim (Bool-cases (same_metadata m n)) [
            | inl same ↦
                let at : m ≡ n = same_metadata_eq m n same in
                ap (content.held w') (sym at) ∙ same_place ∙ ap (content.held w) at
            | inr other ↦ v.registry.publish_keeps m n a w canonical other
          ] in
        rw (publish_through-err m a c w x e) (record {
          here = same_place;
          others = λ n. inr (kept n);
          backend = refl;
          coherent = IsCoherent-world default_tag content c w w' kept v;
        })
  ]

  module _ (w : W) (v : IsCoherent default_tag content c w) where
    -- A call that stops at an error before it writes.
    stopped-IsWrite :
        (w' : W)
        → ((n : ArtifactMetadata) → content.held w' n ≡ content.held w n)
        → (x : String) → IsWrite default_tag content c.backend m a w (err x, c, w')
    stopped-IsWrite w' same x = record {
      here = same m;
      others = λ n. inr (same n);
      backend = refl;
      coherent = IsCoherent-world default_tag content c w w' same v;
    }

    -- What was written behind a call that only reads.
    IsWrite-world :
        (w' : W) (x : Result (Unit {0}) × PropagationClient W A × W)
        → ((n : ArtifactMetadata) → content.held w' n ≡ content.held w n)
        → IsWrite default_tag content c.backend m a w' x
        → IsWrite default_tag content c.backend m a w x
    IsWrite-world w' x same r = record {
      here = moved x.0 r.here;
      others = λ n. elim (r.others n) [ inl here ↦ inl here | inr kept ↦ inr (kept ∙ same n) ];
      backend = r.backend;
      coherent = r.coherent;
    }
      where
        moved :
            (y : Result (Unit {0}))
            → ByResult
                (λ _. content.held x.2 m ≡ some (content.raw a))
                (content.held x.2 m ≡ content.held w' m)
                y
            → ByResult
                (λ _. content.held x.2 m ≡ some (content.raw a))
                (content.held x.2 m ≡ content.held w m)
                y
        moved (ok _) there = there
        moved (err e) kept = kept ∙ same m

    publish_known :
        (cached : A)
        → lookup m c.cache.publish_cache ≡ some cached
        → IsWrite default_tag content c.backend m a w (publish m a c w)
    publish_known cached found =
        let (r, w') = c.backend.bytes cached w in
        let (r', w'') = c.backend.bytes a w' in
        let same : (n : ArtifactMetadata) → content.held w' n ≡ content.held w n =
          λ n. v.registry.bytes_keeps cached n w in
        let same' : (n : ArtifactMetadata) → content.held w'' n ≡ content.held w n =
          λ n. v.registry.bytes_keeps a n w' ∙ same n in
        elim (Result-cases r) [
          | inr (x, e) ↦
              rw (publish_cached_err m a c w cached found x e) (stopped-IsWrite w' same x)
          | inl (x, e) ↦ elim (Result-cases r') [
            | inr (z, f) ↦
                rw (publish_bytes_err m a c w cached found x z e f) (stopped-IsWrite w'' same' z)
            | inl (y, f) ↦ elim (Bool-cases (same_bytes x y)) [
              | inl s ↦ rw (publish_same m a c w cached found x y e f s) (record {
                here =
                    same' m
                    ∙ v.published m cached found
                    ∙ ap some (
                        v.registry.bytes_reads cached w x e
                        ∙ same_bytes_eq x y s
                        ∙ sym (v.registry.bytes_reads a w' y f));
                others = λ n. inr (same' n);
                backend = refl;
                coherent = IsCoherent-world default_tag content c w w'' same' v;
              })
              | inr s ↦ rw (publish_other m a c w cached found x y e f s) (
                  IsWrite-world w'' (publish_through m a c w'') same' (
                    publish_through-IsWrite w''
                      (IsCoherent-world default_tag content c w w'' same' v)))
            ]
          ]
        ]

    -- `Publish` skips the write where the publish cache has the same bytes. With a coherent cache, and
    -- for an artifact that is no manifest and without a version, as all are that the source publishes,
    -- a success still means that the registry holds these bytes; a failure changes nothing there; no
    -- other place is touched.
    pub publish-IsWrite : IsWrite default_tag content c.backend m a w (publish m a c w)
    publish-IsWrite = elim (Option-cases (lookup m c.cache.publish_cache)) [
      | inl e ↦ rw (publish_new m a c w e) (publish_through-IsWrite w v)
      | inr (cached, e) ↦ publish_known cached e
    ]
