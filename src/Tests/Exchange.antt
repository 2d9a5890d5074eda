-- ===== src/Tests/Exchange.antt =====
-- Staging publishes its status and production reads it.
use propagation_controller.Base.{◌≡◌, refl, String, [], ◌⊎◌, ok, err, Error}
use propagation_controller.Api.{DeploymentStatus}
use propagation_controller.Config.{Config}
use propagation_controller.Clients.{
  PropagationBackendClient, PropagationClient, lookup, same_metadata, fetch, publish,
  publish_artifact, publish_status, get_status, fetch_artifact, new_propagation_client,
}
use propagation_controller.Clients.Registry.{IsCoherent, new_propagation_client-IsCoherent}
use propagation_controller.Clients.Exchange.{get_status-publish_status}
use propagation_controller.Tests.Clients.{World, decode, registry_with-IsRegistry, content}
use propagation_controller.Tests.Controller.{healthy_at}
use propagation_controller.Tests.Speaking.{speaking, speaking-IsCodec, speak, is_spoken, is_zero}
use propagation_controller.Clients.{same_bytes}

abbrev known : DeploymentStatus
known = healthy_at "v2" 0

abbrev nothing : Config
nothing = record { environments = [] }

abbrev writing : PropagationBackendClient World String
writing = speaking nothing

abbrev client : PropagationClient World String
client = new_propagation_client writing

client-IsCoherent : IsCoherent "latest" content client []
client-IsCoherent =
    new_propagation_client-IsCoherent "latest" content writing [] (registry_with-IsRegistry _ _)

abbrev published : World
published = (publish_status "staging-1" known client []).2

get_status-publish_status_example :
    ((get_status "latest" "staging-1" client published).0 ≡ ok known)
    ⊎ ((e : Error) × ((get_status "latest" "staging-1" client published).0 ≡ err e))
unfolding new_propagation_client speak
get_status-publish_status_example =
    get_status-publish_status "latest" content (λ t. t) "staging-1" known client client []
      (speaking-IsCodec nothing) client-IsCoherent client-IsCoherent
      (unfold new_propagation_client lookup in refl)
      (unfold publish_status publish_artifact new_propagation_client publish lookup speak is_spoken
          is_zero in
        refl)

reads_back : (get_status "latest" "staging-1" client published).0 ≡ ok known
unfolding get_status fetch_artifact fetch publish_status publish_artifact new_propagation_client
    publish lookup speak is_spoken is_zero same_metadata decode same_bytes
reads_back = refl
