-- ===== src/Notifier/ServiceNow.antt =====
-- internal/notifier/servicenow.go.
use ovro.Notifier.Http.{
  null, object, required, with_secret, json_body, json_content, string, json_object, send_request,
  Json, SecretGetter, Http,
}
use ovro.Prelude.Int.{pos, ℤ}
use ovro.Notifier.{Notification, ForwarderConfig}
use ovro.Prelude.{
  none, ◌==◌, ok, some, ◌++◌, ◌∷◌, err, [], str_eq, Error, if◌then◌else◌, Option, ◌<>◌, Result,
  List, String,
}

pub record ServiceNowForwarder : Type 0 where
  pub instance_url : String
  pub username : String
  pub password : String
  pub assignment_group : String
  pub category : String

unfoldable pub new_servicenow_forwarder :
    {W : Type 0} → ForwarderConfig → SecretGetter W → W → Result ServiceNowForwarder
new_servicenow_forwarder cfg secrets w =
    if str_eq cfg.instance_url ""
    then err "servicenow forwarder requires instanceUrl"
    else if str_eq cfg.secret_ref ""
    then err "servicenow forwarder requires secretRef"
    else with_secret (secrets cfg.secret_ref "default" w) λ secret.
      required (secret "username") "secret missing username key" λ username.
        required (secret "password") "secret missing password key" λ password. ok (record {
          instance_url = cfg.instance_url;
          username = username;
          password = password;
          assignment_group = cfg.assignment_group;
          category = cfg.category;
        })

module _ (show : ℤ → String) where
  unfoldable pub servicenow_description : Notification → String
  servicenow_description n =
      "VM Rightsizing Recommendation\n\nVM: "
      <> n.vm_name
      <> "\nNamespace: "
      <> n.namespace
      <> "\nOwner: "
      <> n.owner
      <> "\nDirection: "
      <> n.direction
      <> "\nCurrent: "
      <> show n.current_cpu
      <> " CPU, "
      <> show n.current_memory
      <> " MB Memory\nRecommended: "
      <> show n.rec_cpu
      <> " CPU, "
      <> show n.rec_memory
      <> " MB Memory\n\nApproval URL: "
      <> n.approval_url

  -- A member that is left out where its text is empty.
  abbrev pub unless_empty : String → String → List (String × Json)
  unless_empty name value = if str_eq value "" then [] else (name, string value) ∷ []

  unfoldable pub servicenow_incident : ServiceNowForwarder → Notification → Json
  unfolding servicenow_description
  servicenow_incident s n = json_object (
      (
        "short_description",
        string
            ("VM Rightsizing: " <> n.namespace <> "/" <> n.vm_name <> " (" <> n.direction <> ")"),
      )
      ∷ ("description", string (servicenow_description n))
      ∷ ("urgency", string "3")
      ∷ ("impact", string "3")
      ∷ (unless_empty "assignment_group" s.assignment_group ++ unless_empty "category" s.category))

  module _ {W : Type 0} (http : Http W) where
    -- A created incident whose answer is no JSON object is reported as a failure.
    unfoldable pub send_servicenow : ServiceNowForwarder → Notification → W → Option Error × W
    unfolding servicenow_incident send_request
    send_servicenow s n w =
        let (answer, w') =
          send_request http "failed to create request: " "failed to send request: "
            (record {
              method = "POST";
              url = s.instance_url <> "/api/now/table/incident";
              headers =
                  json_content
                  ∷ ("Accept", "application/json")
                  ∷ ("Authorization", http.basic_auth s.username s.password)
                  ∷ [];
              body = json_body (servicenow_incident s n);
            })
            w in
        elim answer [
          | err e ↦ (some e, w')
          | ok a ↦
              if a.status == 201
              then (
                elim a.json [
                  | some (object fields) ↦ none
                  | some null ↦ none
                  | _ ↦ some "failed to decode response: cannot unmarshal"
                ],
                w',
              )
              else (some ("unexpected status code: " <> show (pos a.status)), w')
        ]
