-- ===== src/Job.antt =====
-- src/job.h and src/job.C.
use wye.Common.{[]}
use wye.Text.{Text}

pub record Job : Type 0 where
  pub id : Text
  pub name : Text
  pub description : Text

-- The constructor; `uuid` is the text of what the generator returned.
unfoldable pub new_job : Text → Job
new_job uuid = record { id = uuid; name = []; description = [] }
