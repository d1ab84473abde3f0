-- ===== src/Providers/Resend.antt =====
-- internal/api/providers/resend.go: sending an e-mail.
use digital_wallet.Prelude.{String}
use digital_wallet.Exec.{Exec, pure, ◌>>=◌}
use digital_wallet.External.Mail.{Resend}
use digital_wallet.Queues.Tasks.{EmailPayload}

module _ (C : Resend) (sender_email : String) where
  -- The error that comes back wraps the client's.
  unfoldable pub send : EmailPayload → String → Exec C.State Unit
  send payload body = do
    id ←
        C.send_with_context
          (record { from = sender_email; to = payload.to; subject = payload.subject; html = body })
    pure tt
