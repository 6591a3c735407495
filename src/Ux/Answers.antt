-- ===== src/Ux/Answers.antt =====
-- ux/main.go and ux/handlers/handlers.go: what is answered to any request.
use grpc_example.Common.{String, Option}
use grpc_example.Errors.{Error}
use grpc_example.Ux.Http.{Libraries, Page, Request}
use grpc_example.Ux.Handlers
use grpc_example.Ux.Handlers.Laws.{
  IsAnswer, render-IsAnswer, list_users-IsAnswer, handlers-IsAnswer,
}
use grpc_example.Mux.{RequestPath}
use grpc_example.Ux.Routes.{
  Endpoint, home_page, users_page, list_users, new_user_form, create_user, get_user, edit_user_form,
  update_user, delete_user, filter_by_role, Dispatch, handled, method_not_allowed, not_found,
  dispatch,
}
use grpc_example.Ux.Program.{run_endpoint, answer, respond}

module _ {U S : Type 0} (lib : Libraries U S) (execute : String → Page U → Option Error) where
  run_endpoint-IsAnswer :
      (endpoint : Endpoint) (r : Request) (s : S)
      → IsAnswer lib execute (run_endpoint lib execute endpoint r s).0
  unfolding run_endpoint Handlers.new_user_form
  run_endpoint-IsAnswer home_page r s = render-IsAnswer lib execute _ _
  run_endpoint-IsAnswer users_page r s = render-IsAnswer lib execute _ _
  run_endpoint-IsAnswer list_users r s = list_users-IsAnswer lib execute s
  run_endpoint-IsAnswer new_user_form r s = render-IsAnswer lib execute _ _
  run_endpoint-IsAnswer get_user r s = (handlers-IsAnswer lib execute r s).0
  run_endpoint-IsAnswer edit_user_form r s = (handlers-IsAnswer lib execute r s).1
  run_endpoint-IsAnswer create_user r s = (handlers-IsAnswer lib execute r s).2
  run_endpoint-IsAnswer update_user r s = (handlers-IsAnswer lib execute r s).3
  run_endpoint-IsAnswer delete_user r s = (handlers-IsAnswer lib execute r s).4
  run_endpoint-IsAnswer filter_by_role r s = (handlers-IsAnswer lib execute r s).5

  answer-IsAnswer :
      (d : Dispatch) (request : String → Request) (s : S)
      → IsAnswer lib execute (answer lib execute d request s).0
  answer-IsAnswer (handled endpoint values) request s = run_endpoint-IsAnswer endpoint _ s
  answer-IsAnswer (method_not_allowed methods) request s = tt
  answer-IsAnswer not_found request s = tt

  -- Whatever its method, its path and its form, a request gets headers and then exactly one answer: an
  -- error, a status with its text or a page, and a page that cannot be rendered is followed by an error.
  pub respond-IsAnswer :
      (method : String) (path : RequestPath) (request : String → Request) (s : S)
      → IsAnswer lib execute (respond lib execute method path request s).0
  unfolding respond
  respond-IsAnswer method path request s = answer-IsAnswer (dispatch method path) request s
