-- ===== src/Controller/System.antt =====
-- The reconciler with its clientset: `PropagationReconciler` embeds the Kubernetes client and a
-- `PropagationClientset`. Its state is the clientset and the world outside, `V`. A client that
-- `Propagation` returns is a pointer into the map of the clientset; here it is the client with its
-- key, and each call that changes the client changes the entry as well.
pub mod Relation
pub mod Calls
pub mod Opening
pub mod Rounds
pub mod Staging
pub mod Caches
pub mod Own
pub mod Beside
pub mod Honest
use propagation_controller.Base.{Option, List, Result, ok, err, ℤ, String}
use propagation_controller.Api.{Propagation}
use propagation_controller.Clients.{
  Bytes, PropagationBackendClient, PropagationClient, get_config, get_status, publish_status,
  propagate,
}
use propagation_controller.Clients.Clientset.{
  NamespacedName, PropagationClientset, put_client, key_of, propagation,
}
use propagation_controller.Controller.{Cluster, Objects, Backend, Outcome}
use propagation_controller.Controller.Reconcile.{reconcile}

pub record System (V A : Type 0) : Type 0 where
  pub clientset : PropagationClientset V A
  pub world : V

pub record Handle (V A : Type 0) : Type 0 where
  pub key : NamespacedName
  pub client : PropagationClient V A

module _ {V A : Type 0} where
  -- A call that does not use the clientset.
  abbrev pub outside {ℓ} : {B : Type ℓ} → System V A → B × V → B × System V A
  outside s (b, w) = (b, record s { world = w })

  -- A call of the client behind a handle.
  abbrev pub through {ℓ} :
      {B : Type ℓ}
      → Handle V A
      → System V A
      → B × PropagationClient V A × V
      → B × Handle V A × System V A
  through h s (b, c, w) =
      (b, record h { client = c }, record { clientset = put_client h.key c s.clientset; world = w })

  abbrev pub system_cluster : Cluster V → Cluster (System V A)
  system_cluster cluster = record {
    get_propagation = λ key s. outside s (cluster.get_propagation key s.world);
    update_status = λ p s. outside s (cluster.update_status p s.world);
    set_status_condition = λ x xs s. outside s (cluster.set_status_condition x xs s.world);
    find_status_condition = cluster.find_status_condition;
    now = λ s. outside s (cluster.now s.world);
  }

  abbrev pub system_objects :
      {Object Node : Type 0} → Objects V Object Node → Objects (System V A) Object Node
  system_objects objects = record {
    get_object =
        λ api_version kind key s. outside s (objects.get_object api_version kind key s.world);
    from_map = objects.from_map;
    look_up = objects.look_up;
    is_nil_or_empty = objects.is_nil_or_empty;
    is_string_value = objects.is_string_value;
    value = objects.value;
  }

  module _ (default_tag : String) (get_secret : NamespacedName → V → Result (Option Bytes) × V)
      (new_backend : String → Option Bytes → Result (PropagationBackendClient V A)) where
    -- The handle for a client that `Propagation` returned.
    abbrev pub handle_for : Propagation → Result (PropagationClient V A) → Result (Handle V A)
    handle_for p (err e) = err e
    handle_for p (ok c) = ok (record { key = key_of p; client = c })

    abbrev pub system_backend : Backend (System V A) (Handle V A)
    system_backend = record {
      open_client = λ p s.
          let (r, set, w) = propagation get_secret new_backend p s.clientset s.world in
          (handle_for p r, record { clientset = set; world = w });
      get_config = λ h s. through h s (get_config default_tag h.client s.world);
      publish_status = λ d status h s. through h s (publish_status d status h.client s.world);
      get_status = λ d h s. through h s (get_status default_tag d h.client s.world);
      propagate = λ d v h s. through h s (propagate default_tag d v h.client s.world);
    }

    -- `Reconcile` of the whole reconciler.
    unfoldable pub reconcile_system :
        {Object Node : Type 0}
        → Cluster V
        → Objects V Object Node
        → NamespacedName
        → System V A
        → Outcome × System V A
    reconcile_system cluster objects =
        reconcile default_tag (system_cluster cluster) (system_objects objects) system_backend
