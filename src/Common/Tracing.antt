-- ===== src/Common/Tracing.antt =====
-- apps/common/middleware/request_context.py, apps/common/celery_logging.py and
-- apps/common/middleware/content_security_policy.py: the id of a request in the log lines of the
-- request and of the tasks that it publishes, and two headers of a reply.
use django_saas_kit.Base.{
  [], ◌∷◌, ◌++◌, String, Option, none, some, List, ◌≡◌, str_eq, if◌then◌else◌,
}
use django_saas_kit.Orm.{Result, ok, err}
use django_saas_kit.Text.{is_blank}
use django_saas_kit.Features.Dict.{get, put}

-- `structlog.contextvars`: the variables that the log lines of a thread carry.
pub record Contextvars : Type 1 where
  pub Vars : Type 0
  pub clear : Vars → Vars
  pub bind : (key value : String) → Vars → Vars
  pub lookup : (key : String) → Vars → Option String
  pub lookup-clear : (key : String) (vars : Vars) → lookup key (clear vars) ≡ none
  pub lookup-bind :
      (k key value : String) (vars : Vars)
      → lookup key (bind k value vars) ≡ (if str_eq k key then some value else lookup key vars)

-- `a or b`, for a text or None
abbrev pub or_else : Option String → Option String → Option String
or_else none b = b
or_else (some a) b = if is_blank a then b else some a

-- `a or b`, for a text b
abbrev pub or_text : Option String → String → String
or_text none b = b
or_text (some a) b = if is_blank a then b else a

abbrev pub Headers : Type 0
Headers = List (String × String)

-- `ContentSecurityPolicyMiddleware.__call__`, on the headers of the response
unfoldable pub with_policy : (policy : String) → Headers → Headers
with_policy policy response =
    if is_blank policy then response else put "Content-Security-Policy" policy response

-- The trace id of a message that a worker has received, with headers or None.
abbrev pub trace_of : Option Headers → Option String
trace_of none = none
trace_of (some headers) = get "trace_id" headers

module _ (structlog : Contextvars) where
  open structlog use {Vars, clear, bind, lookup}

  -- The variables of a thread, and the headers of the messages that it has published.
  pub record World : Type 0 where
    pub vars : Vars
    pub messages : List (Option Headers)

  abbrev cleared : World → World
  cleared w = record w { vars = clear w.vars }

  abbrev pub reply_with_id :
      {E : Type 0} → (request_id : String) → Result E Headers × World → Result E Headers × World
  reply_with_id request_id (ok response, w) =
      (ok (put "X-Request-ID" request_id response), cleared w)
  reply_with_id request_id (err e, w) = (err e, cleared w)

  -- `RequestContextMiddleware.__call__`: `fresh` is the uuid, `given` the header of the request, and
  -- the view behind it may bind and clear variables, publish tasks, and raise.
  unfoldable pub in_request :
      {E : Type 0}
      → (fresh : String) (given : Option String)
      → (get_response : String → World → Result E Headers × World) → World
      → Result E Headers × World
  in_request fresh given get_response w =
      let request_id = or_text given fresh in
      reply_with_id request_id
        (get_response request_id (record w { vars = bind "request_id" request_id (clear w.vars) }))

  unfoldable pub inject : Option String → Headers → Headers
  inject none headers = headers
  inject (some trace_id) headers =
      if is_blank trace_id then headers else put "trace_id" trace_id headers

  -- `inject_trace_id`, for the headers of the message, or None
  unfoldable pub inject_trace_id : Option Headers → Vars → Option Headers
  unfolding inject
  inject_trace_id none vars = none
  inject_trace_id (some headers) vars =
      some (inject (or_else (lookup "request_id" vars) (lookup "trace_id" vars)) headers)

  -- `bind_task_trace_id`, for the headers that a worker has received
  unfoldable pub bind_task_trace_id : (fresh : String) → Option Headers → Vars → Vars
  bind_task_trace_id fresh headers vars =
      bind "trace_id" (or_text (trace_of headers) fresh) (clear vars)

  -- `clear_task_trace_id`
  unfoldable pub clear_task_trace_id : Vars → Vars
  clear_task_trace_id vars = clear vars

  -- `task.delay(...)`: the message of a task with its headers
  unfoldable pub publish : Headers → World → World
  unfolding inject_trace_id
  publish headers w = record w {
    messages = w.messages ++ inject_trace_id (some headers) w.vars ∷ [];
  }

  unfoldable pub publish_all : List Headers → World → World
  unfolding publish
  publish_all [] w = w
  publish_all (headers ∷ l) w = publish_all l (publish headers w)

  -- A task that a worker has received with some headers, from `task_prerun` to `task_postrun`.
  unfoldable pub in_task : (fresh : String) → Option Headers → (job : World → World) → World → World
  unfolding bind_task_trace_id clear_task_trace_id
  in_task fresh headers job w =
      let w' = job (record w { vars = bind_task_trace_id fresh headers w.vars }) in
      record w' { vars = clear_task_trace_id w'.vars }
