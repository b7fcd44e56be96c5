-- ===== src/Api/Web/Views.antt =====
-- The pages that only show something.
use wol_monkey.Common.{Bool, true, false, Option, none, some}
use wol_monkey.Domain.Records.{Machine}
use wol_monkey.Host.{Host}
use wol_monkey.Exec.{Exec}
use wol_monkey.Exec.Reads.{Reads, reads_rules}
use wol_monkey.Api.Security.{Request}
use wol_monkey.Api.Web.Reading.{csrf}
use wol_monkey.Api.Web.Gate.{Page, create_machine, change_machine, save_settings}
use wol_monkey.Api.Web.Forms.{edit_form}

-- The pages that are asked for by GET.
abbrev pub is_view : Page → Bool
is_view (create_machine form from_setup) = false
is_view (change_machine id form) = false
is_view (save_settings i s t a l) = false
is_view _ = true

module _ (h : Host) where
  form : (r : Request) (o : Option Machine) → Reads (edit_form h r o)
  unfolding edit_form
  form r none = search reads_rules
  form r (some m) = search (reads_rules, csrf)
