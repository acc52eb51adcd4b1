-- ===== src/Captor/Tetragon.antt =====
-- generateTetragonTracingPolicy and buildTetragonWebhookUrl of
-- internal/controller/traps/filesystoken/utils.go. The types of Tetragon and Kubernetes have the
-- fields that the code sets.
pub mod Coverage
pub mod Labels
pub mod Values
use mathlib.Core.Option
use Prim.Native.String.{◌++◌ as ◌+++◌}
use koney.Prelude.{
  string_eq, [], none, some, true, false, ◌∷◌, ◌++◌, List, Option, Bool, String, if◌then◌else◌,
  StringMap, exists, insert,
}
use koney.Utils.Collections.{contains}
use koney.Utils.Env.{Environment, get_koney_namespace}
use koney.Api.Trap.{Trap, ResourceFilter, elements}
use koney.Matching.Selectors.{
  container_selector_selects_all, container_selector_needs_client_filtering,
}

-- The fields of the policy that an owner reference copies; BlockOwnerDeletion and Controller are
-- both true.
pub record Owner : Type 0 where
  pub api_version : String
  pub kind : String
  pub name : String
  pub uid : String

pub data Operator : Type 0 where
  op_in op_equal : Operator

pub record LabelSelectorRequirement : Type 0 where
  pub key : String
  pub operator : Operator
  pub values : List String

-- One probe, with its one selector of one argument and one action.
pub record KProbe : Type 0 where
  pub call : String
  pub syscall : Bool
  pub returns : Bool
  pub arg_type : String
  pub return_type : String
  pub operator : Operator
  pub values : List String
  pub action : String
  pub arg_url : String

pub record TracingPolicy : Type 0 where
  pub name : String
  pub labels : StringMap String
  pub owner : Owner
  pub annotations : Option (StringMap String)
  pub pod_selector : StringMap String
  pub container_selector : List LabelSelectorRequirement
  pub probes : List KProbe

-- filesystoken.buildTetragonWebhookUrl
unfoldable pub build_tetragon_webhook_url : Environment → String
build_tetragon_webhook_url env =
    ◌+++◌ "http://koney-alert-forwarder-webhook."
      (◌+++◌ (get_koney_namespace env) ".svc:8000/handlers/tetragon")

-- One of the two probes of the policy.
abbrev file_probe : String → String → String → KProbe
file_probe call path url = record {
  call = call;
  syscall = false;
  returns = true;
  arg_type = "file";
  return_type = "int";
  operator = op_equal;
  values = path ∷ [];
  action = "GetUrl";
  arg_url = url;
}

-- `for key, value := range labels { m[key] = value }`
unfoldable pub put_all : StringMap String → StringMap String → StringMap String
put_all [] m = m
put_all ((key, value) ∷ labels) m = put_all labels (insert key value m)

-- The loop over the filters; `none` is a panic, since a nil selector is dereferenced.
unfoldable pub put_filters : List ResourceFilter → StringMap String → Option (StringMap String)
put_filters [] m = some m
put_filters (filter ∷ filters) m = elim filter.selector [
  | none ↦ none
  | some selector ↦ put_filters filters (put_all selector.match_labels m)
]

-- The body of the loop of case 3.
abbrev add_exact : List LabelSelectorRequirement → String → List LabelSelectorRequirement
add_exact [] selector = (record { key = "name"; operator = op_in; values = selector ∷ [] }) ∷ []
add_exact (first ∷ rest) selector =
    if contains first.values selector
    then first ∷ rest
    else record first { values = first.values ++ selector ∷ [] } ∷ rest

unfoldable pub add_all_exact :
    List ResourceFilter → List LabelSelectorRequirement → List LabelSelectorRequirement
add_all_exact [] expressions = expressions
add_all_exact (filter ∷ filters) expressions =
    add_all_exact filters (add_exact expressions filter.container_selector)

abbrev pub selectors_of : List ResourceFilter → List String
selectors_of [] = []
selectors_of (filter ∷ filters) = filter.container_selector ∷ selectors_of filters

-- constants.AnnotationKeyContainerSelectors and constants.LabelKeyDeceptionPolicyRef
abbrev pub annotation_key_container_selectors : String
annotation_key_container_selectors = "koney/container-selectors"

abbrev pub label_key_deception_policy_ref : String
label_key_deception_policy_ref = "koney/deception-policy"

-- `hasSelectAll` and `needsClientFiltering`
unfoldable pub has_select_all : List ResourceFilter → Bool
has_select_all = exists (λ filter. container_selector_selects_all filter.container_selector)

unfoldable pub needs_client_filtering : List ResourceFilter → Bool
needs_client_filtering =
    exists (λ filter. container_selector_needs_client_filtering filter.container_selector)

-- The annotation of case 2, if the selectors can be written as JSON.
abbrev selectors_annotation : Option String → Option (StringMap String)
selectors_annotation none = none
selectors_annotation (some text) = some (insert annotation_key_container_selectors text [])

-- filesystoken.generateTetragonTracingPolicy, with `json.Marshal` of a list of texts; `none` is a
-- panic.
unfoldable pub generate_tetragon_tracing_policy :
    (List String → Option String) → Environment → Owner → Trap → String → Option TracingPolicy
unfolding build_tetragon_webhook_url has_select_all needs_client_filtering
generate_tetragon_tracing_policy marshal env policy trap tracing_policy_name =
    let filters = elements trap.match_resources.any in
    let path = trap.filesystem_honeytoken.file_path in
    let url = build_tetragon_webhook_url env in
    Option.map
      (λ pod_labels. record {
        name = tracing_policy_name;
        labels = insert label_key_deception_policy_ref policy.name [];
        owner = policy;
        annotations =
            if has_select_all filters
            then none
            else if needs_client_filtering filters
            then selectors_annotation (marshal (selectors_of filters))
            else none;
        pod_selector = pod_labels;
        container_selector =
            if has_select_all filters
            then []
            else if needs_client_filtering filters
            then []
            else add_all_exact filters [];
        probes =
            file_probe "security_file_permission" path url
            ∷ file_probe "security_mmap_file" path url
            ∷ [];
      })
      (put_filters filters [])
