-- ===== src/Notifier/Delivery.antt =====
-- What a send that reports no error has done, for any HTTP client.
pub mod Chats
pub mod Reported
use ovro.Notifier.ServiceNow.{servicenow_incident, ServiceNowForwarder, send_servicenow}
use ovro.Notifier.{Notification}
use ovro.Prelude.Int.{ℤ}
use ovro.Notifier.Teams.{TeamsForwarder, send_via_webhook}
use ovro.Notifier.RocketChat.{RocketChatForwarder, send_rocketchat}
use ovro.Notifier.PagerDuty.{PagerDutyForwarder, send_pagerduty}
use ovro.Notifier.Http.{
  json_body, json_content, send_request, post_expecting, HttpAnswer, HttpRequest, Http,
}
use ovro.Prelude.{
  [], ◌<>◌, Bool-cases, ◌||◌, inl, ◌==◌, arith, Result-cases, true, none, inr, ◌≤◌, Option-cases,
  Bool, ℕ, ok, ◌≡◌, String, ◌∷◌, Result, List, refl,
}

-- What has been asked, the latest first, with its answer.
abbrev pub Asked : Type 0
Asked = List (HttpRequest × Result HttpAnswer)

-- A client that also keeps a log.
abbrev pub recorded : {W : Type 0} → Http W → Http (Asked × W)
recorded http = record {
  new_request = http.new_request;
  send = λ request v.
      let (log, w) = v in
      let (answer, w') = http.send request w in (answer, ((request, answer) ∷ log, w'));
  query_escape = http.query_escape;
  basic_auth = http.basic_auth;
}

-- The last request was a POST that was answered with 200, 201 or 202.
pub record IsDelivered (log : Asked) : Type 0 where
  pub request : HttpRequest
  pub answer : HttpAnswer
  pub earlier : Asked
  pub last : log ≡ (request, ok answer) ∷ earlier
  pub posted : request.method ≡ "POST"
  pub from_below : 200 ≤ answer.status
  pub from_above : answer.status ≤ 202

module _ {W : Type 0} (http : Http W) where
  send_request-eq-ok :
      (create_error send_error : String) (request : HttpRequest) (answer : HttpAnswer)
      (v : Asked × W)
      → (send_request (recorded http) create_error send_error request v).0 ≡ ok answer
      → (send_request (recorded http) create_error send_error request v).1.0
        ≡ (request, ok answer) ∷ v.0
  unfolding send_request
  send_request-eq-ok create_error send_error request answer (log, w) h =
      elim (Option-cases (http.new_request request.url)) [
        | inr (e, f) ↦ absurd (ground arith)
        | inl f ↦ elim (Result-cases (http.send request w).0) [
          | inr (e, g) ↦ absurd (ground arith)
          | inl (a, g) ↦ ground arith
        ]
      ]

  post_expecting-IsDelivered :
      (show : ℤ → String) (accepted : ℕ → Bool) (create_error send_error : String)
      (request : HttpRequest) (v : Asked × W)
      → request.method ≡ "POST"
      → ((status : ℕ) → accepted status ≡ true → (200 ≤ status) × (status ≤ 202))
      → (post_expecting (recorded http) show accepted create_error send_error request v).0 ≡ none
      → IsDelivered
          (post_expecting (recorded http) show accepted create_error send_error request v).1.0
  unfolding post_expecting
  post_expecting-IsDelivered show accepted create_error send_error request v p range h =
      elim (Result-cases (send_request (recorded http) create_error send_error request v).0) [
        | inr (e, f) ↦ absurd (ground arith)
        | inl (a, f) ↦ elim (Bool-cases (accepted a.status)) [
          | inr g ↦ absurd (ground arith)
          | inl g ↦
              let log = send_request-eq-ok create_error send_error request a v f in
              let (low, high) = range a.status g in
              rw (f, post_expecting)
                (rw g (record {
                  request = request;
                  answer = a;
                  earlier = v.0;
                  last = log;
                  posted = p;
                  from_below = low;
                  from_above = high;
                }))
        ]
      ]

  pub send_pagerduty-IsDelivered :
      (show : ℤ → String) (p : PagerDutyForwarder) (n : Notification) (v : Asked × W)
      → (send_pagerduty (recorded http) show p n v).0 ≡ none
      → IsDelivered (send_pagerduty (recorded http) show p n v).1.0
  unfolding send_pagerduty
  send_pagerduty-IsDelivered show p n v h =
      post_expecting-IsDelivered show (λ status. status == 202) "failed to create request: "
        "failed to send request: " _ v refl (λ status e. (ground arith, ground arith)) h

  pub send_rocketchat-IsDelivered :
      (show : ℤ → String) (r : RocketChatForwarder) (n : Notification) (v : Asked × W)
      → (send_rocketchat show (recorded http) r n v).0 ≡ none
      → IsDelivered (send_rocketchat show (recorded http) r n v).1.0
  unfolding send_rocketchat
  send_rocketchat-IsDelivered show r n v h =
      post_expecting-IsDelivered show (λ status. status == 200) "failed to create request: "
        "failed to send request: " _ v refl (λ status e. (ground arith, ground arith)) h

  pub send_via_webhook-IsDelivered :
      (show : ℤ → String) (t : TeamsForwarder) (n : Notification) (v : Asked × W)
      → (send_via_webhook (recorded http) show t n v).0 ≡ none
      → IsDelivered (send_via_webhook (recorded http) show t n v).1.0
  unfolding send_via_webhook
  send_via_webhook-IsDelivered show t n v h =
      post_expecting-IsDelivered show (λ status. (status == 200) || (status == 202))
        "creating request: " "sending request: " _ v refl (λ status e. (ground arith, ground arith))
        h

  -- A request that was answered with 201.
  pub created-IsDelivered :
      (create_error send_error : String) (request : HttpRequest) (answer : HttpAnswer)
      (v : Asked × W)
      → request.method ≡ "POST"
      → (answer.status == 201) ≡ true
      → (send_request (recorded http) create_error send_error request v).0 ≡ ok answer
      → IsDelivered (send_request (recorded http) create_error send_error request v).1.0
  created-IsDelivered create_error send_error request answer v p g f = record {
    request = request;
    answer = answer;
    earlier = v.0;
    last = send_request-eq-ok create_error send_error request answer v f;
    posted = p;
    from_below = ground arith;
    from_above = ground arith;
  }

  pub send_servicenow-IsDelivered :
      (show : ℤ → String) (s : ServiceNowForwarder) (n : Notification) (v : Asked × W)
      → (send_servicenow show (recorded http) s n v).0 ≡ none
      → IsDelivered (send_servicenow show (recorded http) s n v).1.0
  unfolding send_servicenow
  send_servicenow-IsDelivered show s n v h =
      let request : HttpRequest = record {
        method = "POST";
        url = s.instance_url <> "/api/now/table/incident";
        headers =
            json_content
            ∷ ("Accept", "application/json")
            ∷ ("Authorization", http.basic_auth s.username s.password)
            ∷ [];
        body = json_body (servicenow_incident show s n);
      } in
      elim (Result-cases
        (send_request (recorded http) "failed to create request: " "failed to send request: "
          request v).0) [
            | inr (e, f) ↦ absurd (ground arith)
            | inl (a, f) ↦ elim (Bool-cases (a.status == 201)) [
              | inr g ↦ absurd (ground arith)
              | inl g ↦
                  rw (f, send_servicenow)
                    (rw g (
                      created-IsDelivered "failed to create request: " "failed to send request: "
                        request a v refl g f))
            ]
          ]
