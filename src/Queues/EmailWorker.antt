-- ===== src/Queues/EmailWorker.antt =====
-- internal/queues/email.go, `HandleEmailSend`, and internal/templates/templates.go, which renders the body.
-- A payload that is no JSON is none.
use Prim.Native.String.{◌++◌ as append}
use digital_wallet.Prelude.{String, Option, none, some, List, [], ◌∷◌, str_eq, if◌then◌else◌}
use digital_wallet.Shared.{Error, skip_retry}
use digital_wallet.Exec.{Result, ok, err, Exec, raise}
use digital_wallet.External.Mail.{Templates}
use digital_wallet.Queues.Tasks.{EmailPayload}

abbrev default_template : String
default_template = "digiwallet"

abbrev template_file : String → String
template_file name = append (if str_eq name "" then default_template else name) ".html"

-- The error, whatever it is, is not retried.
abbrev executed : Option (EmailPayload → Result String) → EmailPayload → Result String
executed none payload = err (Error.other 0)
executed (some execute) payload = execute payload

unfoldable pub render_email : Templates → String → EmailPayload → Result String
render_email T name payload = executed (T.lookup (template_file name)) payload

-- `strings.Join(p.To, ", ")`
abbrev join_with : String → List String → String
join_with first [] = first
join_with first (next ∷ rest) = let more = join_with next rest in append first (append ", " more)

unfoldable pub recipient : EmailPayload → String
recipient payload = elim payload.to [ [] ↦ "" | first ∷ rest ↦ join_with first rest ]

module _ {E : Type 0} (T : Templates) (send : EmailPayload → String → Exec E Unit) where
  abbrev send_rendered : EmailPayload → Result String → Exec E Unit
  send_rendered payload (ok body) = send payload body
  send_rendered payload (err e) = raise skip_retry

  unfoldable pub handle_email_send : Option EmailPayload → Exec E Unit
  handle_email_send none = raise skip_retry
  handle_email_send (some payload) = send_rendered payload (render_email T payload.template payload)
