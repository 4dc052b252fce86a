-- ===== src/Notify/Dispatch.antt =====
-- crates/deptui-agent/src/notify.rs: an event goes to the hook and to the webhook.
use deptui.Prelude.{String, Option, none, some, if◌then◌else◌, map_option}
use deptui.Prelude.Text.{trim}
use deptui.Config.{NotifyConfig, webhook_kind, wants_event}
use deptui.Notify.{Event, runs_hook}
use deptui.Effects.{Env, Act, pure, look, tell, hooked, posted, ◌>>=◌, ◌>>◌}

module _ (env : Env) where
  unfoldable pub new_event : String → String → Option String → String → String → Act Event
  unfolding ◌>>=◌ look
  new_event kind watch host rev message = do
    time ← look env.now
    pure (record {
      kind = kind;
      watch = watch;
      host = host;
      rev = rev;
      message = message;
      time = time;
    })

  unfoldable pub hook_for : NotifyConfig → Event → Act (Unit {0})
  hook_for cfg event = elim cfg.on_failure [ none ↦ pure tt | some cmd ↦ tell (hooked cmd event) ]

  unfoldable pub read_token : Option String → Act (Option String)
  read_token none = pure none
  read_token (some path) = look λ calls. map_option trim (env.read_file calls path)

  unfoldable pub post_to : NotifyConfig → Event → String → Act (Unit {0})
  unfolding read_token
  post_to cfg event url = do
    token ← read_token cfg.token_file
    tell (posted url (webhook_kind cfg) token event)

  unfoldable pub webhook_for : NotifyConfig → Event → Act (Unit {0})
  unfolding post_to
  webhook_for cfg event = elim cfg.url [
    | none ↦ pure tt
    | some url ↦ if wants_event cfg event.kind then post_to cfg event url else pure tt
  ]

  unfoldable pub dispatch : NotifyConfig → Event → Act (Unit {0})
  unfolding ◌>>=◌ look tell hook_for webhook_for runs_hook
  dispatch cfg event = do
    if runs_hook event.kind then hook_for cfg event else pure tt
    webhook_for cfg event
