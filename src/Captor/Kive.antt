-- ===== src/Captor/Kive.antt =====
-- generateKivePolicy and buildKiveWebhookUrl of internal/controller/traps/filesystoken/utils.go.
pub mod Matches
use mathlib.Core.Option
use koney.Prelude.{
  [], none, some, ◌∷◌, ◌++◌, List, Option, String, if◌then◌else◌, StringMap, is_nil, insert,
}
use Prim.Native.String.{◌++◌ as ◌+++◌}
use koney.Utils.Env.{Environment, get_koney_namespace}
use koney.Api.Trap.{Trap, ResourceFilter, elements}
use koney.Captor.Tetragon.{Owner, label_key_deception_policy_ref, put_filters}

-- kivev1.KiveTrapMatch; a namespace that is not set is the empty text.
pub record KiveTrapMatch : Type 0 where
  pub namespace : String
  pub container_name : String
  pub match_labels : StringMap String

pub record KiveTrap : Type 0 where
  pub path : String
  pub callback : String
  pub metadata : StringMap String
  pub match_any : List KiveTrapMatch

pub record KivePolicy : Type 0 where
  pub kind : String
  pub api_version : String
  pub name : String
  pub labels : StringMap String
  pub namespace : String
  pub owner : Owner
  pub traps : List KiveTrap

-- filesystoken.buildKiveWebhookUrl
unfoldable pub build_kive_webhook_url : Environment → String
build_kive_webhook_url env =
    ◌+++◌ "http://koney-alert-forwarder-webhook."
      (◌+++◌ (get_koney_namespace env) ".svc:8000/handlers/kive")

-- The loop over the namespaces of one filter; each match collects the labels of all filters, and
-- `none` is the panic at a nil selector.
unfoldable pub namespace_matches :
    List ResourceFilter → String → List String → Option (List KiveTrapMatch)
namespace_matches filters container [] = some []
namespace_matches filters container (ns ∷ namespaces) = elim (put_filters filters []) [
  | none ↦ none
  | some labels ↦
      Option.map
        (λ rest.
          (record { namespace = ns; container_name = container; match_labels = labels }) ∷ rest)
        (namespace_matches filters container namespaces)
]

-- The matches of one filter.
unfoldable pub filter_matches : List ResourceFilter → ResourceFilter → Option (List KiveTrapMatch)
filter_matches filters resource =
    if is_nil (elements resource.namespaces)
    then Option.map
        (λ labels.
          (record {
            namespace = "";
            container_name = resource.container_selector;
            match_labels = labels;
          })
          ∷ [])
        (put_filters filters [])
    else namespace_matches filters resource.container_selector (elements resource.namespaces)

-- The outer loop; the first argument stays the whole list.
unfoldable pub all_matches : List ResourceFilter → List ResourceFilter → Option (List KiveTrapMatch)
all_matches filters [] = some []
all_matches filters (resource ∷ rest) = elim (filter_matches filters resource) [
  | none ↦ none
  | some matches ↦ Option.map (λ more. matches ++ more) (all_matches filters rest)
]

-- constants.MetadataKeyDeceptionPolicyName
abbrev metadata_key_deception_policy_name : String
metadata_key_deception_policy_name = "koney-deception-policy-name"

-- filesystoken.generateKivePolicy; `none` is a panic.
unfoldable pub generate_kive_policy : Environment → Owner → Trap → String → Option KivePolicy
unfolding build_kive_webhook_url
generate_kive_policy env policy trap tracing_policy_name =
    let filters = elements trap.match_resources.any in
    Option.map
      (λ matches. record {
        kind = "KivePolicy";
        api_version = "kivebpf.san7o.github.io/v1";
        name = tracing_policy_name;
        labels = insert label_key_deception_policy_ref policy.name [];
        namespace = get_koney_namespace env;
        owner = policy;
        traps =
            (record {
              path = trap.filesystem_honeytoken.file_path;
              callback = build_kive_webhook_url env;
              metadata = insert metadata_key_deception_policy_name policy.name [];
              match_any = matches;
            })
            ∷ [];
      })
      (all_matches filters filters)
