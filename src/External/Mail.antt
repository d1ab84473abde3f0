-- ===== src/External/Mail.antt =====
-- html/template over the e-mails' files, and the client of resend.
use digital_wallet.Prelude.{String, Option, List}
use digital_wallet.Exec.{Result, Exec}
use digital_wallet.Queues.Tasks.{EmailPayload}

pub record Templates : Type 0 where
  -- `Lookup` and then `Execute`, of the file of that name
  pub lookup : String → Option (EmailPayload → Result String)

pub record SendEmailRequest : Type 0 where
  pub from : String
  pub to : List String
  pub subject : String
  pub html : String

pub record Resend : Type 1 where
  pub State : Type 0
  -- `Emails.SendWithContext`, which answers the id of the e-mail
  pub send_with_context : SendEmailRequest → Exec State String
