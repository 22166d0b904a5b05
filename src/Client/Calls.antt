-- ===== src/Client/Calls.antt =====
-- python/wye/__init__.py: the requests of `Context`, and what the service makes of them. A response
-- that is not a 200 raises, so a call that throws here raises there.
-- What `get_worker` picks out of its response is left aside.
use wye.Common.{◌≡◌, refl, ap, ◌∙◌, true, false, none, some, [], ◌∷◌}
use wye.OrderedMap.{Map, find, same}
use wye.Text.{Text, lit, text_eq}
use wye.Text.Order.{text_order, compare_text}
use wye.Ptree.{PropertyTree, is_plain}
use wye.Kernel.{Kernel}
use wye.Manager.Registry.{Command, fire, close_job, look, command_of, named, by_id}
use wye.Client.Request.{request_tree}
use wye.Client.Fields.{field-request}

pub data Call : Type 0 where
  get_workers_call get_jobs_call : Call
  get_job_call get_worker_call delete_job_call delete_worker_call : Text → Call

unfoldable pub call_fields : Call → Map Text Text
call_fields get_workers_call = (lit "operation", lit "get-workers") ∷ []
call_fields get_jobs_call = (lit "operation", lit "get-jobs") ∷ []
call_fields (get_job_call id) = (lit "id", id) ∷ (lit "operation", lit "get-job") ∷ []
call_fields (get_worker_call id) = (lit "id", id) ∷ (lit "operation", lit "get-workers") ∷ []
call_fields (delete_job_call id) = (lit "id", id) ∷ (lit "operation", lit "delete-job") ∷ []
call_fields (delete_worker_call id) = (lit "id", id) ∷ (lit "operation", lit "delete-worker") ∷ []

-- The change of the registry that each call is for.
unfoldable pub intent : Call → Command
intent get_workers_call = look
intent get_jobs_call = look
intent (get_job_call id) = look
intent (get_worker_call id) = look
intent (delete_job_call id) = close_job id
intent (delete_worker_call id) = fire id

module _ ⦃t : PropertyTree⦄ where
  open t use {Tree, get_string}

  unfoldable pub call_request : Call → Tree
  unfolding call_fields request_tree
  call_request c = request_tree (call_fields c) []

  field :
      (key : Text) (c : Call)
      → is_plain key ≡ true
      → text_eq (lit "outputs") key ≡ false
      → get_string key (call_request c) ≡ find key (call_fields c)
  unfolding call_request
  field key c p n = field-request key (call_fields c) [] p n

  module _ ⦃k : Kernel⦄ where
    -- By the name of the operation that a call's request has.
    by_name :
        (uuid : Text) (c : Call) (op : Text)
        → find (lit "operation") (call_fields c) ≡ some op
        → command_of uuid (call_request c) ≡ named op uuid (call_request c)
    unfolding command_of is_plain lit text_eq
    by_name uuid c op h =
        ap (λ o. elim o [ none ↦ look | some op ↦ named op uuid (call_request c) ])
          (field (lit "operation") c refl refl ∙ h)

    by_its_id :
        (f : Text → Command) (c : Call) (id : Text)
        → find (lit "id") (call_fields c) ≡ some id
        → by_id f (get_string (lit "id") (call_request c)) ≡ f id
    unfolding is_plain lit text_eq by_id
    by_its_id f c id h = ap (by_id f) (field (lit "id") c refl refl ∙ h)

    pub call_request-intent : (uuid : Text) (c : Call) → command_of uuid (call_request c) ≡ intent c
    unfolding call_fields find same compare_text lit text_eq named intent
    call_request-intent uuid get_workers_call = by_name uuid get_workers_call _ refl
    call_request-intent uuid get_jobs_call = by_name uuid get_jobs_call _ refl
    call_request-intent uuid (get_job_call id) = by_name uuid (get_job_call id) _ refl
    call_request-intent uuid (get_worker_call id) = by_name uuid (get_worker_call id) _ refl
    call_request-intent uuid (delete_job_call id) =
        by_name uuid (delete_job_call id) _ refl ∙ by_its_id close_job (delete_job_call id) id refl
    call_request-intent uuid (delete_worker_call id) =
        by_name uuid (delete_worker_call id) _ refl ∙ by_its_id fire (delete_worker_call id) id refl
