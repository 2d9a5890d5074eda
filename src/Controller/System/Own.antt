-- ===== src/Controller/System/Own.antt =====
-- Which calls leave the client of a handle as good as it was.
use mathlib.Core.Path.{subst}
use propagation_controller.Base.{sym, ◌≡◌, String, Option, Result}
use propagation_controller.Clients.{
  ArtifactMetadata, Bytes, PropagationBackendClient, PropagationClient,
}
use propagation_controller.Clients.Registry.{Contents, IsCoherent, IsCoherent-world}
use propagation_controller.Clients.Clientset.{NamespacedName, put_client}
use propagation_controller.Clients.Clientset.Switch.{find-put_client}
use propagation_controller.Controller.System.{System, Handle}
use propagation_controller.Controller.System.Relation.{IsOwn, IsMade}

module _ {V A : Type 0} (default_tag : String)
    (get_secret : NamespacedName → V → Result (Option Bytes) × V)
    (new_backend : String → Option Bytes → Result (PropagationBackendClient V A))
    (content : Contents V A) (h : Handle V A) (s : System V A) where
  abbrev Own : Handle V A × System V A → Type 0
  Own = IsOwn default_tag new_backend content

  -- A call that changes nothing in the registry.
  pub IsOwn-outside :
      (w : V)
      → ((n : ArtifactMetadata) → content.held w n ≡ content.held s.world n)
      → Own (h, s)
      → Own (h, record s { world = w })
  IsOwn-outside w same own = record {
    coherent = IsCoherent-world default_tag content h.client s.world w same own.coherent;
    stored = own.stored;
    is_made = own.is_made;
  }

  -- A call of the client, which goes through the clientset.
  pub IsOwn-through :
      (c : PropagationClient V A) (w : V)
      → Own (h, s)
      → c.backend ≡ h.client.backend
      → IsCoherent default_tag content c w
      → Own (
        record h { client = c },
        record { clientset = put_client h.key c s.clientset; world = w },
      )
  IsOwn-through c w own same coherent = record {
    coherent = coherent;
    stored = find-put_client get_secret new_backend h.key c s.clientset;
    is_made = subst (IsMade new_backend) (sym same) own.is_made;
  }
