-- ===== src/Clients/Publish/Cases.antt =====
-- What `Publish` comes to in each of its cases.
use propagation_controller.Base.{
  ◌≡◌, refl, String, true, false, none, some, [], ◌∷◌, Result, ok, err, arith, false≢true,
}
use propagation_controller.Clients.{
  ArtifactMetadata, PropagationClient, lookup, Bytes, same_bytes, publish_through, publish,
}

pub same_bytes_eq : (x y : Bytes) → same_bytes x y ≡ true → x ≡ y
unfolding same_bytes
same_bytes_eq [] [] h = refl
same_bytes_eq [] (y ∷ ys) h = absurd (false≢true h)
same_bytes_eq (x ∷ xs) [] h = absurd (false≢true h)
same_bytes_eq (x ∷ xs) (y ∷ ys) h = ground (arith, same_bytes_eq xs ys)

pub same_bytes_refl : (x : Bytes) → same_bytes x x ≡ true
unfolding same_bytes
same_bytes_refl [] = refl
same_bytes_refl (x ∷ xs) = ground (arith, same_bytes_refl xs)

-- The client with an artifact added to its publish cache.
abbrev pub published :
    {W A : Type 0} → ArtifactMetadata → A → PropagationClient W A → PropagationClient W A
published m a c = record c {
  cache = record c.cache { publish_cache = (m, a) ∷ c.cache.publish_cache };
}

module _ {W A : Type 0} (m : ArtifactMetadata) (a : A) (c : PropagationClient W A) (w : W) where
  pub publish_through-ok :
      (c.backend.publish m a w).0 ≡ ok tt
      → publish_through m a c w ≡ (ok tt, published m a c, (c.backend.publish m a w).1)
  unfolding publish_through
  publish_through-ok e = rw (e, publish_through)

  pub publish_through-err :
      (x : String)
      → (c.backend.publish m a w).0 ≡ err x
      → publish_through m a c w ≡ (err x, c, (c.backend.publish m a w).1)
  unfolding publish_through
  publish_through-err x e = rw (e, publish_through)

  pub publish_new :
      lookup m c.cache.publish_cache ≡ none → publish m a c w ≡ publish_through m a c w
  unfolding publish
  publish_new e = rw (e, publish)

  module _ (cached : A) (found : lookup m c.cache.publish_cache ≡ some cached) where
    abbrev pub old : Result Bytes × W
    old = c.backend.bytes cached w

    abbrev pub new : Result Bytes × W
    new = c.backend.bytes a old.1

    pub publish_cached_err : (x : String) → old.0 ≡ err x → publish m a c w ≡ (err x, c, old.1)
    unfolding publish
    publish_cached_err x e = rw (found, publish, e)

    pub publish_bytes_err :
        (y : Bytes) (x : String)
        → old.0 ≡ ok y
        → new.0 ≡ err x
        → publish m a c w ≡ (err x, c, new.1)
    unfolding publish
    publish_bytes_err y x e f = rw (found, publish, e, f)

    pub publish_same :
        (x y : Bytes)
        → old.0 ≡ ok x
        → new.0 ≡ ok y
        → same_bytes x y ≡ true
        → publish m a c w ≡ (ok tt, c, new.1)
    unfolding publish
    publish_same x y e f s = rw (found, publish, e, f, s)

    pub publish_other :
        (x y : Bytes)
        → old.0 ≡ ok x
        → new.0 ≡ ok y
        → same_bytes x y ≡ false
        → publish m a c w ≡ publish_through m a c new.1
    unfolding publish
    publish_other x y e f s = rw (found, publish, e, f, s)
