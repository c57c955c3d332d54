-- ===== src/Common/Following.antt =====
-- The id of a request follows the tasks that it sets off, and no further.
use django_saas_kit.Base.{
  ap, String, false, Option, none, some, List, [], ◌∷◌, ◌++◌, ◌≡◌, ◌⊎◌, inl, inr, refl, ◌∙◌,
}
use django_saas_kit.Orm.{Result, ok, err}
use django_saas_kit.Text.{is_blank}
use django_saas_kit.Features.Dict.{get-put}
use django_saas_kit.Common.Tracing.{
  reply_with_id, inject, Contextvars, Headers, World, in_request, in_task, publish, publish_all,
  inject_trace_id, trace_of, or_text, or_else, bind_task_trace_id, clear_task_trace_id,
}

module _ (structlog : Contextvars) where
  open structlog use {Vars, clear, bind, lookup}

  -- A thread that has published nothing yet.
  abbrev pub idle : Vars → World structlog
  idle vars = record { vars = vars; messages = [] }

  abbrev pub In : Option Headers → List (Option Headers) → Type 0
  In h [] = ⊥
  In h (m ∷ l) = (h ≡ m) ⊎ In h l

  -- The messages that a request sets off: those that its view publishes, and those that a worker, in
  -- any state, publishes while it runs a task that was set off.
  pub data SetOff (fresh : String) (given : Option String) (tasks : List Headers) (vars : Vars)
      : Option Headers → Type 0 where
    by_view :
        {h : Option Headers}
        → In h
            (in_request structlog {E = Unit {0}} fresh given
              (λ request_id w. (ok [], publish_all structlog tasks w))
              (idle vars)).1.messages
        → SetOff fresh given tasks vars h
    by_task :
        {received h : Option Headers} (fresh' : String) (vars' : Vars) (tasks' : List Headers)
        → SetOff fresh given tasks vars received
        → In h
            (in_task structlog fresh' received (publish_all structlog tasks') (idle vars')).messages
        → SetOff fresh given tasks vars h

  -- What the context says of the id.
  abbrev Carries : String → Vars → Type 0
  Carries id vars = or_else (lookup "request_id" vars) (lookup "trace_id" vars) ≡ some id

  In-append :
      (h m : Option Headers) (l : List (Option Headers)) → In h (l ++ m ∷ []) → In h l ⊎ (h ≡ m)
  In-append h m [] (inl e) = inr e
  In-append h m [] (inr none_left) = absurd none_left
  In-append h m (x ∷ l) (inl e) = inl (inl e)
  In-append h m (x ∷ l) (inr later) = elim (In-append h m l later) [
    | inl there ↦ inl (inr there)
    | inr last ↦ inr last
  ]

  -- The message of a task that is published where the context says the id.
  trace_of-inject :
      (id : String) (headers : Headers) (vars : Vars)
      → is_blank id ≡ false
      → Carries id vars
      → trace_of (inject_trace_id structlog (some headers) vars) ≡ some id
  unfolding inject_trace_id
  trace_of-inject id headers vars solid carries = rw (carries, inject, solid, get-put) refl

  In-publish :
      (id : String) (headers : Headers) (w : World structlog)
      → is_blank id ≡ false
      → Carries id w.vars
      → ((h : Option Headers) → In h w.messages → trace_of h ≡ some id)
      → (h : Option Headers) → In h (publish structlog headers w).messages
      → trace_of h ≡ some id
  unfolding publish
  In-publish id headers w solid carries before h m =
      elim (In-append h (inject_trace_id structlog (some headers) w.vars) w.messages m) [
        | inl old ↦ before h old
        | inr new ↦ ap trace_of new ∙ trace_of-inject id headers w.vars solid carries
      ]

  publish_all-Traced :
      (id : String) (tasks : List Headers) (w : World structlog)
      → is_blank id ≡ false
      → Carries id w.vars
      → ((h : Option Headers) → In h w.messages → trace_of h ≡ some id)
      → (h : Option Headers) → In h (publish_all structlog tasks w).messages
      → trace_of h ≡ some id
  unfolding publish_all publish inject_trace_id
  publish_all-Traced id [] w solid carries before h m = before h m
  publish_all-Traced id (headers ∷ tasks) w solid carries before h m =
      publish_all-Traced id tasks (publish structlog headers w) solid carries
        (In-publish id headers w solid carries before) h m

  -- At the start of a request, and of a task with the id in its headers, the context says the id.
  request-Carries :
      (id : String) (vars : Vars)
      → is_blank id ≡ false
      → Carries id (bind "request_id" id (clear vars))
  request-Carries id vars solid = rw (structlog.lookup-bind, structlog.lookup-bind, solid) refl

  task-Carries :
      (id fresh : String) (received : Option Headers) (vars : Vars)
      → is_blank id ≡ false
      → trace_of received ≡ some id
      → Carries id (bind_task_trace_id structlog fresh received vars)
  unfolding bind_task_trace_id
  task-Carries id fresh received vars solid traced =
      rw (structlog.lookup-bind, structlog.lookup-bind, structlog.lookup-clear, traced, solid) refl

  -- Every message that a request sets off, through tasks that set off tasks in any number and order
  -- and whatever the variables of the workers were, has the id of the request as its trace id.
  pub SetOff-Traced :
      (fresh : String) (given : Option String) (tasks : List Headers) (vars : Vars)
      {h : Option Headers}
      → is_blank (or_text given fresh) ≡ false
      → SetOff fresh given tasks vars h
      → trace_of h ≡ some (or_text given fresh)
  unfolding in_request in_task
  SetOff-Traced fresh given tasks vars {h} solid (by_view m) =
      publish_all-Traced (or_text given fresh) tasks _ solid
        (request-Carries (or_text given fresh) vars solid) (λ h none_yet. absurd none_yet) h m
  SetOff-Traced fresh given tasks vars {h} solid (by_task {received} fresh' vars' tasks' sets m) =
      publish_all-Traced (or_text given fresh) tasks' _ solid
        (task-Carries (or_text given fresh) fresh' received vars' solid
          (SetOff-Traced fresh given tasks vars solid sets))
        (λ h none_yet. absurd none_yet) h m

  reply_with_id-Clears :
      {E : Type 0} (id key : String) (m : Result E Headers × World structlog)
      → lookup key (reply_with_id structlog id m).1.vars ≡ none
  reply_with_id-Clears id key (ok response, w) = structlog.lookup-clear key w.vars
  reply_with_id-Clears id key (err e, w) = structlog.lookup-clear key w.vars

  -- After a request no variable is left in the thread, whatever its view did, also where it raised;
  -- and so after a task.
  pub in_request-Clears :
      {E : Type 0} (fresh key : String) (given : Option String)
      (view : String → World structlog → Result E Headers × World structlog) (w : World structlog)
      → lookup key (in_request structlog fresh given view w).1.vars ≡ none
  unfolding in_request
  in_request-Clears fresh key given view w = reply_with_id-Clears (or_text given fresh) key _

  pub in_task-Clears :
      (fresh key : String) (received : Option Headers) (job : World structlog → World structlog)
      (w : World structlog)
      → lookup key (in_task structlog fresh received job w).vars ≡ none
  unfolding in_task clear_task_trace_id
  in_task-Clears fresh key received job w = structlog.lookup-clear key _
