-- ===== src/Marketing/Service.antt =====
-- pkg/domain/marketing/service.go, over any repository, tracker and CRM. What the service logs is left
-- out.
use Prim.Native.String.{◌++◌ as append}
use sentinel_flow_event_driv.Base.{String, Option, none, some, str_eq, if◌then◌else◌}
use sentinel_flow_event_driv.Base.Dict.{lookup}
use sentinel_flow_event_driv.Base.Word.{Time}
use sentinel_flow_event_driv.Events.{Value, ScreenedEvent}
use sentinel_flow_event_driv.Ports.{
  Fallible, ok, err, CrmContact, TelemetryTracker, MarketingRepository, CrmAdapter,
}

-- The `switch` on the event's type; `none` is its default case, which returns.
unfoldable pub workflow_for : String → Option String
workflow_for event_type =
    if str_eq event_type "signup"
    then some "Welcome & Onboarding Campaign"
    else if str_eq event_type "checkout_completed"
    then some "Loyalty Rewards Activation"
    else if str_eq event_type "cart_abandoned"
    then some "Recovery Email Sequence"
    else none

-- The email of the payload, if it is a text that is not empty.
unfoldable pub email_or : String → Option Value → String
email_or fallback (some (Value.text s)) = if str_eq s "" then fallback else s
email_or fallback _ = fallback

unfoldable pub email_of : ScreenedEvent → String
unfolding email_or
email_of event = email_or (append event.user_id "@example.com") (lookup "email" event.payload)

-- The contact that a workflow sends.
unfoldable pub contact_for : String → Time → ScreenedEvent → CrmContact
unfolding email_of
contact_for workflow now event = record {
  user_id = event.user_id;
  email = email_of event;
  workflow_triggered = workflow;
  sync_status = "pending";
  synced_at = now;
  retry_count = 0;
}

module _ {W : Type 0} (repo : MarketingRepository W) (tracker : TelemetryTracker W)
    (crm : CrmAdapter W) where
  -- From the answer of `SyncContact` on; an error of `SaveCRMContact` is only logged.
  unfoldable pub record_sync : CrmContact → Fallible Unit × W → W
  record_sync contact (err _, w) =
      (repo.save_crm_contact (record contact { sync_status = "failed" })
        (tracker.increment_metric "crm_failures" 1 w)).1
  record_sync contact (ok _, w) =
      (repo.save_crm_contact (record contact { sync_status = "synced" })
        (tracker.increment_metric "crm_successes" 1 w)).1

  unfoldable pub run_workflow : Option String → Time → ScreenedEvent → W → W
  unfolding record_sync contact_for
  run_workflow none now event w = w
  run_workflow (some workflow) now event w =
      let contact = contact_for workflow now event in
      record_sync contact (crm.sync_contact contact (tracker.increment_metric "crm_attempts" 1 w))

  unfoldable pub process_marketing_workflow : Time → ScreenedEvent → W → W
  unfolding run_workflow workflow_for
  process_marketing_workflow now event w = run_workflow (workflow_for event.event_type) now event w

  -- What the loop of `StartConsumer` does with an event that it receives.
  unfoldable pub consume : Time → ScreenedEvent → W → W
  unfolding process_marketing_workflow
  consume now event w = if event.is_fraudulent then w else process_marketing_workflow now event w
