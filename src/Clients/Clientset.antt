-- ===== src/Clients/Clientset.antt =====
-- `PropagationClientset`. A client is found again by the name and the namespace of its propagation,
-- with its caches, and gets a new backend at each call. The map holds pointers; here the caller puts
-- the client that it has used back by `put_client`. `get_secret` is the cluster's answer for a
-- secret, with the entry `.dockerconfigjson` of its data, and `new_backend` is
-- `newPropagationBackendClient`.
pub mod Switch
use propagation_controller.Base.{
  String, Bool, true, false, not, ◌&&◌, Option, none, some, List, [], ◌∷◌, Result, ok, err, ◌==◌,
  if◌then◌else◌,
}
use propagation_controller.Api.{Propagation}
use propagation_controller.Clients.{
  Bytes, PropagationBackendClient, PropagationClient, new_propagation_client,
}

-- `types.NamespacedName`
pub record NamespacedName : Type 0 where
  pub namespace : String
  pub name : String

pub record PropagationClientset (W A : Type 0) : Type 0 where
  pub clients : List (NamespacedName × PropagationClient W A)

unfoldable pub same_name : NamespacedName → NamespacedName → Bool
same_name a b = a.namespace == b.namespace && a.name == b.name

unfoldable pub find_client {ℓ} :
    {C : Type ℓ} → NamespacedName → List (NamespacedName × C) → Option C
find_client key [] = none
find_client key ((k, c) ∷ clients) = if same_name k key then some c else find_client key clients

unfoldable pub put_client :
    {W A : Type 0}
    → NamespacedName
    → PropagationClient W A
    → PropagationClientset W A
    → PropagationClientset W A
put_client key c set = record { clients = (key, c) ∷ set.clients }

-- `NewPropagationClientset`
unfoldable pub new_propagation_clientset : {W A : Type 0} → PropagationClientset W A
new_propagation_clientset = record { clients = [] }

abbrev pub key_of : Propagation → NamespacedName
key_of p = record { namespace = p.namespace; name = p.name }

module _ {W A : Type 0} (get_secret : NamespacedName → W → Result (Option Bytes) × W)
    (new_backend : String → Option Bytes → Result (PropagationBackendClient W A)) where
  -- The first `if` of `Propagation`; without a secret its data is empty.
  unfoldable pub secret_of : Propagation → W → Result (Option Bytes) × W
  secret_of p w = elim p.spec.backend.secret_ref [
    | none ↦ (ok none, w)
    | some name ↦
        if not (name == "")
        then get_secret (record { namespace = p.namespace; name = name }) w
        else (ok none, w)
  ]

  -- The client that is found gets the new backend and keeps its caches.
  unfoldable pub client_for :
      Option (PropagationClient W A) → PropagationBackendClient W A → PropagationClient W A
  client_for none b = new_propagation_client b
  client_for (some c) b = record c { backend = b }

  -- `(*PropagationClientset).Propagation`
  unfoldable pub propagation :
      Propagation
      → PropagationClientset W A
      → W
      → Result (PropagationClient W A) × PropagationClientset W A × W
  unfolding secret_of client_for
  propagation p set w =
      let (secret, w') = secret_of p w in
      elim secret [
        | err e ↦ (err e, set, w')
        | ok secret_data ↦ elim (new_backend p.spec.backend.base_url secret_data) [
          | err e ↦ (err e, set, w')
          | ok b ↦
              let client = client_for (find_client (key_of p) set.clients) b in
              (ok client, put_client (key_of p) client set, w')
        ]
      ]
