-- ===== src/Sync/Dispatches.antt =====
-- The dispatch of the claimed mutations does to the store what the protocol allows.
use skill_hive.Prelude.{
  String, ◌≡◌, refl, sym, subst, Option, none, some, List, [], ◌∷◌, map, ◌⊎◌, inl, inr,
}
use skill_hive.Store.{LocalMutation, MutationOperation, create, update, delete}
use skill_hive.Outcome.{MutationOutcome, transport_error}
use skill_hive.Sync.Protocol.{
  IsLearned, answered_by_server, not_uploaded, lost, refused, CycleStep, IsRefusedLogin,
  IsRefusedRequest,
}
use skill_hive.Sync.Wire.{
  Client, MutationRequest, mutation_request, MutationResponse, SyncClientError, SyncCycleError,
  not_signed_in, authentication, request, credential_store, server, network, malformed_answer,
}
use skill_hive.Sync.Push.{
  Step, learn, uploaded, upload, Pushed, submit_failed, submitted, dispatch_mutation, device_id_for,
  after_dispatch, push_each,
}
use skill_hive.Sync.Goes.{
  Goes, bind-Goes, finish-Goes, raise-Goes, look-Goes, stored-Goes, attempt-Goes,
}

module _ (c : Client) where
  learn-Goes :
      (id : String) (outcome : MutationOutcome) → IsLearned c outcome → Goes c (learn c id outcome)
  unfolding learn
  learn-Goes id outcome from =
      stored-Goes c _ _ (λ s applied t h. CycleStep.learns (c.learns_at id) outcome applied from h)

  uploaded-Goes :
      (m : LocalMutation) (text : Option String)
      → c.upload_closure m.id m.payload_hash ≡ text
      → Goes c (uploaded c m text)
  unfolding uploaded
  uploaded-Goes m none e = finish-Goes c tt
  uploaded-Goes m (some text) e =
      bind-Goes c (learn-Goes m.id _ (not_uploaded m.id m.payload_hash text e))
        (λ a. raise-Goes c _)

  upload-Goes : (op : MutationOperation) (m : LocalMutation) → Goes c (upload c op m)
  unfolding upload
  upload-Goes delete m = finish-Goes c tt
  upload-Goes create m = uploaded-Goes m _ refl
  upload-Goes update m = uploaded-Goes m _ refl

  submit_failed-Goes :
      (m : LocalMutation) (e : SyncClientError) (outcome : MutationOutcome)
      → IsLearned c outcome
      → Goes c (submit_failed c m e outcome)
  unfolding submit_failed
  submit_failed-Goes m e outcome from =
      bind-Goes c (learn-Goes m.id outcome from) (λ a. raise-Goes c _)

  module _ (m : LocalMutation) (sent : MutationRequest) (own : sent.mutation_id ≡ m.id) where
    lost-IsLearned :
        (e : SyncClientError) (code : String)
        → c.post_mutation sent ≡ inl e
        → ¬ IsRefusedLogin e
        → ¬ IsRefusedRequest e
        → IsLearned c (transport_error m.id code (c.error_text e))
    lost-IsLearned e code h login refusal =
        subst (λ id. IsLearned c (transport_error id code (c.error_text e))) own
          (lost sent e code h login refusal)

    submitted-Goes :
        (answer : SyncClientError ⊎ MutationResponse)
        → c.post_mutation sent ≡ answer
        → Goes c (submitted c m answer)
    unfolding submitted
    submitted-Goes (inr response) h =
        bind-Goes c (learn-Goes m.id _ (answered_by_server sent response h)) (λ a. finish-Goes c tt)
    submitted-Goes (inl not_signed_in) h = raise-Goes c _
    submitted-Goes (inl (authentication code status)) h = raise-Goes c _
    submitted-Goes (inl (request code status)) h =
        submit_failed-Goes m _ _ (refused sent (request code status) _ h tt (sym own) refl)
    submitted-Goes (inl (credential_store text)) h =
        submit_failed-Goes m _ _ (lost-IsLearned _ _ h (λ x. x) (λ x. x))
    submitted-Goes (inl (server code status)) h =
        submit_failed-Goes m _ _ (lost-IsLearned _ _ h (λ x. x) (λ x. x))
    submitted-Goes (inl (network text)) h =
        submit_failed-Goes m _ _ (lost-IsLearned _ _ h (λ x. x) (λ x. x))
    submitted-Goes (inl (malformed_answer text)) h =
        submit_failed-Goes m _ _ (lost-IsLearned _ _ h (λ x. x) (λ x. x))

  device_id-Goes : (device : Option String) → Goes c (device_id_for device)
  unfolding device_id_for
  device_id-Goes none = raise-Goes c _
  device_id-Goes (some id) = finish-Goes c id

  dispatch-Goes : (m : LocalMutation) → Goes c (dispatch_mutation c m)
  unfolding dispatch_mutation mutation_request
  dispatch-Goes m = bind-Goes c (upload-Goes m.operation m) (λ u.
      bind-Goes c (look-Goes c _) (λ skill.
        bind-Goes c (look-Goes c _)
          (λ device. bind-Goes c (device_id-Goes device) (λ id. submitted-Goes m _ refl _ refl))))

  after_dispatch-Goes :
      (tail : List LocalMutation) {go : Step SyncCycleError Pushed}
      → Goes c go
      → (result : SyncCycleError ⊎ Unit {0}) → Goes c (after_dispatch c tail go result)
  unfolding after_dispatch
  after_dispatch-Goes tail h (inr u) = bind-Goes c h (λ pushed. finish-Goes c _)
  after_dispatch-Goes tail h (inl e) =
      bind-Goes c (stored-Goes c _ _ (λ s n t h. CycleStep.releases (map (λ m. m.id) tail) n h))
        (λ n. finish-Goes c _)

  pub push_each-Goes : (claimed : List LocalMutation) → Goes c (push_each c claimed)
  unfolding push_each
  push_each-Goes [] = finish-Goes c _
  push_each-Goes (m ∷ tail) =
      bind-Goes c (attempt-Goes c (dispatch-Goes m))
        (after_dispatch-Goes tail (push_each-Goes tail))
